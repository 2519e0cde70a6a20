-- ===== src/Docker.antt =====
-- internal/runtime/docker/labels.go: the label keys and the names of containers.
pub mod Collision
pub mod Containers
use proxa.Prelude.{◌++◌, ◌∷◌}
use proxa.Prelude.Int.{ℤ}
use proxa.Prelude.Text.{Text, codes, show_ℤ}

abbrev pub label_project : Text
label_project = codes "proxa.project"

abbrev pub label_service : Text
label_service = codes "proxa.service"

abbrev pub label_replica : Text
label_replica = codes "proxa.replica"

abbrev pub label_spec_hash : Text
label_spec_hash = codes "proxa.spec_hash"

-- `ContainerNameFor`
unfoldable pub container_name_for : Text → Text → ℤ → Text
container_name_for project service replica =
    codes "proxa-" ++ (project ++ (b'-' ∷ (service ++ (b'-' ∷ show_ℤ replica))))
