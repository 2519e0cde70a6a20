-- ===== src/Tests/Fixtures.antt =====
-- The concrete values of the examples.
use proxa.Prelude.{ℕ, [], ◌∷◌, true, false, none, some}
use proxa.Prelude.Int.{ℤ, pos}
use proxa.Prelude.Text.{Text, codes, show_ℤ}
use proxa.Types.{TaskDef, Service, ContainerInfo, HealthCheck, zero_task, zero_health}
use proxa.Docker.{label_project, label_service, label_replica, label_spec_hash}
use proxa.Hash.{Encoding, scalar, object, end, field}
use proxa.Probe.{Format, Result}

-- An encoding that sees the image, and whose digest is the text itself.
abbrev pub plain : Encoding
plain = record {
  Scalar = Text;
  generic = λ spec.
      object (field (codes "image") (scalar spec.image) (field (codes "env") (object end) end));
  marshal_scalar = λ s. s;
  marshal_key = λ k. k;
  sum256 = λ t. t;
}

abbrev pub plain_format : Format
plain_format = record { sum256 = λ t. t; show_duration = show_ℤ }

abbrev pub web_health : HealthCheck
web_health = record zero_health { path = codes "/"; interval = pos 5000000000; retries = pos 4 }

abbrev pub web_task : TaskDef
web_task = record zero_task {
  project = codes "shop";
  name = codes "web";
  image = codes "web:2";
  replicas = pos 2;
  health = web_health;
}

abbrev pub web : Service
web = record { project = codes "shop"; name = codes "web"; spec = web_task; status = [] }

-- A container of replica `r` with a state and a label of the specification's hash.
abbrev pub replica : Text → Text → ℤ → Text → ContainerInfo
replica id state r spec = record {
  id = id;
  name = id;
  image = [];
  state = state;
  ip_address = codes "10.0.0.1";
  labels =
      (label_project, codes "shop")
      ∷ (label_service, codes "web")
      ∷ (label_replica, show_ℤ r)
      ∷ (label_spec_hash, spec)
      ∷ [];
}

abbrev pub failure : ℕ → Result
failure n = record { at = n; healthy = false; err = some (codes "refused") }

abbrev pub success : ℕ → Result
success n = record { at = n; healthy = true; err = none }
