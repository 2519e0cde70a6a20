-- ===== src/Docker/Containers/Created.antt =====
-- The labels that `BuildContainerLabels` writes.
use proxa.Prelude.{◌≡◌, refl, some}
use proxa.Prelude.Int.{ℤ}
use proxa.Prelude.Text.{Text, show_ℤ, text_eq}
use proxa.Prelude.Maps.{lookup, lookup-put, text-Eq}
use proxa.Types.{ContainerSpec}
use proxa.Docker.{label_project, label_service, label_replica, label_spec_hash}
use proxa.Docker.Containers.{build_container_labels, value_of}

module _ (spec : ContainerSpec) (replica : ℤ) (h node now : Text) where
  pub built-project :
      lookup label_project (build_container_labels spec replica h node now)
      ≡ some (value_of label_project spec.labels)
  unfolding build_container_labels text_eq
  built-project = simp lookup-put refl

  pub built-service :
      lookup label_service (build_container_labels spec replica h node now)
      ≡ some (value_of label_service spec.labels)
  unfolding build_container_labels text_eq
  built-service = simp lookup-put refl

  pub built-replica :
      lookup label_replica (build_container_labels spec replica h node now) ≡ some (show_ℤ replica)
  unfolding build_container_labels text_eq
  built-replica = simp lookup-put refl

  pub built-hash : lookup label_spec_hash (build_container_labels spec replica h node now) ≡ some h
  unfolding build_container_labels text_eq
  built-hash = simp lookup-put refl
