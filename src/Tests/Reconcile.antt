-- ===== src/Tests/Reconcile.antt =====
-- Examples of the diff, the order of its actions and the hash that it compares.
use proxa.Prelude.{
  ◌≡◌, ◌≢◌, ◌↔◌, refl, sym, ◌∙◌, List, [], ◌∷◌, Bool, true, false, none, some, Memᴰ,
}
use proxa.Prelude.Int.{pos}
use proxa.Prelude.Text.{Text, codes, text_eq, atoi, show_ℤ}
use proxa.Prelude.Maps.{lookup}
use proxa.Types.{ContainerInfo}
use proxa.Hash.{hash, Json, scalar, object, field, end, Encoding, stable}
use proxa.Hash.Canonical.{hash_canonical, SameJson, same_object, swap}
use proxa.Docker.{label_spec_hash}
use proxa.Probe.{Snapshot}
use proxa.Reconciler.Diff.{
  Action, Slot, Unhealthy, compute, label, slot_eq, slot_of, keeps_slot, create_action,
  replace_action, create,
}
use proxa.Reconciler.Diff.Wanted.{holder, wanted, wants, holds}
use proxa.Reconciler.Diff.Laws.{Justified, drifted, compute-iff-Justified}
use proxa.Reconciler.Diff.Converged.{compute-nil_iff, IsConverged}
use proxa.Tests.Fixtures.{plain, web, web_task, replica}

abbrev nothing_unhealthy : Unhealthy
nothing_unhealthy = λ id. false

abbrev exited : ContainerInfo
exited = replica (codes "c0") (codes "exited") (pos 0) (hash plain web_task)

abbrev stale : ContainerInfo
stale = replica (codes "c1") (codes "running") (pos 1) (codes "old")

-- Replica 0 has exited, replica 1 runs an old specification.
abbrev two : List ContainerInfo
two = exited ∷ stale ∷ []

abbrev web_0 : Slot
web_0 = record { project = codes "shop"; service = codes "web"; replica = pos 0 }

abbrev create_0 : Action
create_0 = create_action web_0 web (hash plain web_task)

compute-iff-Justified_example :
    Memᴰ create_0 (compute plain (web ∷ []) two nothing_unhealthy)
    ↔ Justified plain (web ∷ []) two nothing_unhealthy create_0
compute-iff-Justified_example =
    compute-iff-Justified plain (web ∷ []) two nothing_unhealthy create_0

compute-nil_iff_example :
    (compute plain (web ∷ []) two nothing_unhealthy ≡ [])
    ↔ IsConverged plain (web ∷ []) two nothing_unhealthy
compute-nil_iff_example = compute-nil_iff plain (web ∷ []) two nothing_unhealthy

exited_slot : slot_of exited ≡ some web_0
unfolding slot_of atoi lookup text_eq show_ℤ
exited_slot = refl

exited_out : keeps_slot nothing_unhealthy exited ≡ false
unfolding keeps_slot text_eq
exited_out = refl

web_wants : wanted (web ∷ []) web_0 ≡ some web
unfolding wanted text_eq wants
web_wants = refl

nobody_holds : holder nothing_unhealthy two web_0 ≡ none
unfolding holder holds keeps_slot slot_of slot_eq atoi lookup text_eq show_ℤ
nobody_holds = refl

abbrev snap : Bool → Snapshot
snap ok = record {
  container_id = codes "c";
  health_ok = ok;
  last_probe_at = 0;
  last_err = [];
  streak = 0;
}

abbrev mixed : List Snapshot
mixed = snap true ∷ snap false ∷ []

-- Two running containers of replica 0: only the later one holds the slot.
abbrev first : ContainerInfo
first = replica (codes "a") (codes "running") (pos 0) (codes "old")

abbrev second : ContainerInfo
second = replica (codes "ab") (codes "running") (pos 0) []

abbrev twins : List ContainerInfo
twins = first ∷ second ∷ []

abbrev replace_second : Action
replace_second = replace_action web_0 web (hash plain web_task) (codes "ab")

twins_unique : (x y : ContainerInfo) → Memᴰ x twins → Memᴰ y twins → x.id ≡ y.id → x ≡ y
twins_unique x y (Memᴰ.head p) (Memᴰ.head q) e = p ∙ sym q
twins_unique x y (Memᴰ.head p) (Memᴰ.tail (Memᴰ.head q)) e = cc e
twins_unique x y (Memᴰ.tail (Memᴰ.head p)) (Memᴰ.head q) e = cc e
twins_unique x y (Memᴰ.tail (Memᴰ.head p)) (Memᴰ.tail (Memᴰ.head q)) e = p ∙ sym q
twins_unique x y (Memᴰ.head p) (Memᴰ.tail (Memᴰ.tail t)) e = elim t [ ]
twins_unique x y (Memᴰ.tail (Memᴰ.head p)) (Memᴰ.tail (Memᴰ.tail t)) e = elim t [ ]
twins_unique x y (Memᴰ.tail (Memᴰ.tail t)) my e = elim t [ ]

first_keeps : keeps_slot nothing_unhealthy first ≡ true
unfolding keeps_slot text_eq
first_keeps = refl

first_slot : slot_of first ≡ some web_0
unfolding slot_of atoi lookup text_eq show_ℤ
first_slot = refl

second_holds : holder nothing_unhealthy twins web_0 ≡ some second
unfolding holder holds keeps_slot slot_of slot_eq atoi lookup text_eq show_ℤ
second_holds = refl

other_id : second.id ≢ first.id
other_id e = cc e

drift : label label_spec_hash second.labels ≢ hash plain web_task
unfolding hash label lookup text_eq
drift e = cc e

not_create : replace_second.type ≢ create
unfolding replace_action
not_create e = cc e

replaces_second : Memᴰ replace_second (compute plain (web ∷ []) twins nothing_unhealthy)
replaces_second =
    (compute-iff-Justified plain (web ∷ []) twins nothing_unhealthy replace_second).1
      (drifted web_0 web second web_wants second_holds drift refl)

-- Two iteration orders of one object.
abbrev a_first : Json Text
a_first = object (field (codes "a") (scalar []) (field (codes "ab") (scalar []) end))

abbrev ab_first : Json Text
ab_first = object (field (codes "ab") (scalar []) (field (codes "a") (scalar []) end))

-- The order in which an encoder meets the members depends on the task.
abbrev met : Text → Json Text
met [] = a_first
met (c ∷ image) = ab_first

abbrev wandering : Encoding
wandering = record {
  Scalar = Text;
  generic = λ spec. met spec.image;
  marshal_scalar = λ s. s;
  marshal_key = λ k. k;
  sum256 = λ t. t;
}

a≢ab : codes "a" ≢ codes "ab"
a≢ab e = cc e

orders_agree :
    SameJson
      (wandering.generic (stable (record web_task { image = [] })))
      (wandering.generic (stable web_task))
unfolding stable
orders_agree = same_object (swap a≢ab)

hash_canonical_example : hash wandering (record web_task { image = [] }) ≡ hash wandering web_task
hash_canonical_example =
    hash_canonical wandering (record web_task { image = [] }) web_task orders_agree
