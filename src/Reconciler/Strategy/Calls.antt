-- ===== src/Reconciler/Strategy/Calls.antt =====
-- The calls of an action where all goes well.
use proxa.Prelude.{◌≡◌, refl, true, false, [], ◌∷◌, ◌++◌, some, is_nil}
use proxa.Prelude.Text.{Text, codes, show_ℤ}
use proxa.Types.{ContainerSpec}
use proxa.Docker.{label_project, label_service, label_replica, label_spec_hash}
use proxa.Prelude.Maps.{Map}
use proxa.Hash.{Encoding, hash}
use proxa.Reconciler.Diff.{Action, Slot, create, remove, replace}
use proxa.Reconciler.Strategy.{
  pull, create_container, start, stop, remove_container, rename, track, untrack, await_healthy,
  await_exit, Answers, select_strategy, start_first_strategy, stop_first_strategy, attempt, created,
  probe_deadline_for, canonical_name, labels_for, spec_for, finish_rename, promote, start_first_new,
  start_first_apply, stop_first_new, stop_first_create, stop_first_apply, apply_strategy,
  request_of, apply_create, by_type,
}

-- Every call succeeds, and the probe of a new container passes before the deadline.
abbrev pub all_well : Text → Answers
all_well id = record { new_id = some id; succeeds = λ c. true; is_healthy = true }

-- The labels of a container made for a slot.
abbrev pub made_labels : Slot → Text → Map Text Text
made_labels k h =
    (label_project, k.project)
    ∷ (label_service, k.service)
    ∷ (label_replica, show_ℤ k.replica)
    ∷ (label_spec_hash, h)
    ∷ []

abbrev pub slot_of_action : Action → Slot
slot_of_action a = record { project = a.project; service = a.service; replica = a.replica }

module _ (enc : Encoding) (new : Text) (a : Action) where
  pub calls_of_create :
      (s : ContainerSpec) × (s.labels ≡ made_labels (slot_of_action a) a.spec_hash)
      × ((by_type enc (all_well new) a create).0
          ≡ pull a.spec.image ∷ create_container s ∷ start new ∷ [])
  unfolding by_type apply_create attempt created
  calls_of_create = (_, refl, refl)

  pub calls_of_start_first :
      is_nil a.container_id ≡ false
      → (s : ContainerSpec) × (s.labels ≡ made_labels (slot_of_action a) (hash enc a.spec))
        × ((apply_strategy enc (all_well new) (request_of a) start_first_strategy).0
            ≡ pull a.spec.image
              ∷ create_container s
              ∷ start new
              ∷ track new
              ∷ await_healthy new (probe_deadline_for a.spec.health)
              ∷ untrack a.container_id
              ∷ remove_container a.container_id
              ∷ rename new (canonical_name (request_of a))
              ∷ [])
  unfolding apply_strategy start_first_apply start_first_new promote finish_rename attempt created
      spec_for labels_for
  calls_of_start_first h =
      (spec_for enc (request_of a) (canonical_name (request_of a) ++ codes "-new"), refl, rw h refl)

  pub calls_of_stop_first :
      is_nil a.container_id ≡ false
      → (s : ContainerSpec) × (s.labels ≡ made_labels (slot_of_action a) (hash enc a.spec))
        × ((apply_strategy enc (all_well new) (request_of a) stop_first_strategy).0
            ≡ stop a.container_id
              ∷ await_exit a.container_id
              ∷ untrack a.container_id
              ∷ remove_container a.container_id
              ∷ pull a.spec.image
              ∷ create_container s
              ∷ start new
              ∷ track new
              ∷ await_healthy new (probe_deadline_for a.spec.health)
              ∷ [])
  unfolding apply_strategy stop_first_apply stop_first_create stop_first_new attempt created
      spec_for labels_for
  calls_of_stop_first h =
      (spec_for enc (request_of a) (canonical_name (request_of a)), refl, rw h refl)

  pub calls_of_remove :
      (by_type enc (all_well new) a remove).0 ≡ remove_container a.container_id ∷ []
  unfolding by_type attempt
  calls_of_remove = refl

  pub calls_of_replace :
      (by_type enc (all_well new) a replace).0
      ≡ (apply_strategy enc (all_well new) (request_of a) (select_strategy a.spec)).0
  unfolding by_type
  calls_of_replace = refl
