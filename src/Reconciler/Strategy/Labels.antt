-- ===== src/Reconciler/Strategy/Labels.antt =====
-- The labels of a new container, written by a replacement, completed by the runtime and read by the diff.
use proxa.Prelude.{ℕ, ◌^◌, ◌<◌, ◌≡◌, ap, sym, refl, ◌∙◌, some}
use mathlib.Core.Option
use proxa.Prelude.Int.{pos}
use proxa.Prelude.Text.{Text, atoi, show_ℤ, text_eq}
use proxa.Prelude.Text.Decimal.{atoi-show_ℤ}
use proxa.Prelude.Maps.{Map, lookup, text-Eq}
use proxa.Types.{ContainerInfo}
use proxa.Hash.{Encoding, hash}
use proxa.Docker.{label_project, label_service, label_replica, label_spec_hash}
use proxa.Docker.Containers.{created_labels}
use proxa.Docker.Containers.Created.{built-project, built-service, built-replica, built-hash}
use proxa.Reconciler.Diff.{Slot, slot_of, label}
use proxa.Reconciler.Strategy.{Request, labels_for, spec_for}

abbrev pub slot_of_request : Request → Slot
slot_of_request req = record {
  project = req.project;
  service = req.service;
  replica = req.replica_idx;
}

module _ (enc : Encoding) (req : Request) (name node now : Text) where
  abbrev given : Map Text Text
  given = created_labels (spec_for enc req name) node now

  given-project : lookup label_project given ≡ some req.project
  unfolding created_labels spec_for labels_for text_eq lookup
  given-project = built-project (spec_for enc req name) _ _ node now

  given-service : lookup label_service given ≡ some req.service
  unfolding created_labels spec_for labels_for text_eq lookup
  given-service = built-service (spec_for enc req name) _ _ node now

  given-hash : lookup label_spec_hash given ≡ some (hash enc req.new_spec)
  unfolding created_labels spec_for labels_for text_eq lookup
  given-hash = built-hash (spec_for enc req name) _ _ node now

  given-replica :
      lookup label_replica given
      ≡ some (show_ℤ (Option.get_or (atoi (show_ℤ req.replica_idx)) (pos 0)))
  unfolding created_labels spec_for labels_for text_eq lookup
  given-replica = built-replica (spec_for enc req name) _ _ node now

-- A container that the runtime creates for a replacement is read back by the diff as what it was made for,
-- whatever its name, its node and the time: its slot is the project, the service and the replica of the
-- request, and its hash that of the new specification, so that it is not replaced again. The number of the
-- replica is from 0 to 2 ^ 63 - 1.
pub slot_of-created :
    (enc : Encoding) (req : Request) (name node now : Text) (c : ContainerInfo) (n : ℕ)
    → req.replica_idx ≡ pos n
    → n < 2 ^ 63
    → c.labels ≡ created_labels (spec_for enc req name) node now
    → (slot_of c ≡ some (slot_of_request req))
      × (label label_spec_hash c.labels ≡ hash enc req.new_spec)
unfolding slot_of label
slot_of-created enc req name node now c n e b labels =
    let back : atoi (show_ℤ req.replica_idx) ≡ some req.replica_idx =
      ap (λ r. atoi (show_ℤ r)) e ∙ atoi-show_ℤ n b ∙ ap some (sym e) in
    (
      rw
          (
            labels,
            given-project enc req name node now,
            given-service enc req name node now,
            given-replica enc req name node now,
            back,
            back,
          )
          refl,
      rw (labels, given-hash enc req name node now) refl,
    )
