-- ===== src/Reconciler/Diff.antt =====
-- internal/reconciler/diff.go: the actions that take the containers to the desired services.
pub mod Slots
pub mod Wanted
pub mod Holders
pub mod Laws
pub mod Passes
pub mod Order
pub mod Converged
pub mod Ties
use proxa.Prelude.{
  ℕ, zero, suc, ◌≡◌, ◌↔◌, Bool, true, false, not, ◌&&◌, ◌||◌, List, [], ◌∷◌, ◌++◌, Option, none,
  some, if◌then◌else◌, Ordering, arith,
}
use mathlib.Core.Option
use proxa.Prelude.Int.{ℤ, pos, negsuc, compare_ℤ, eqb_ℤ}
use proxa.Prelude.Text.{Text, codes, text_eq, text_eq_iff, text_compare, atoi}
use proxa.Prelude.Maps.{Map, Eq, lookup, put, text-Eq}
use proxa.Prelude.Sort.{sort, lex}
use proxa.Types.{TaskDef, Service, ContainerInfo, zero_task}
use proxa.Docker.{label_project, label_service, label_replica, label_spec_hash}
use proxa.Hash.{Encoding, hash}

pub data ActionType : Type 0 where
  create remove replace : ActionType

pub data Reason : Type 0 where
  non_running : Text → Reason
  probe_streak fewer_than_desired spec_hash_drift more_than_desired : Reason

-- `Action`; a field that an action does not use is zero.
pub record Action : Type 0 where
  pub type : ActionType
  pub project : Text
  pub service : Text
  pub replica : ℤ
  pub spec : TaskDef
  pub spec_hash : Text
  pub container_id : Text
  pub reason : Reason

-- `key`
pub record Slot : Type 0 where
  pub project : Text
  pub service : Text
  pub replica : ℤ

unfoldable pub slot_eq : Slot → Slot → Bool
slot_eq a b =
    text_eq a.project b.project && (text_eq a.service b.service && eqb_ℤ a.replica b.replica)

pub slot_eq_iff : (a b : Slot) → (slot_eq a b ≡ true) ↔ (a ≡ b)
unfolding slot_eq
slot_eq_iff a b = ground (arith, text_eq_iff a.project b.project, text_eq_iff a.service b.service)

instance abbrev pub slot-Eq : Eq Slot
slot-Eq = record { beq = slot_eq; beq_iff = slot_eq_iff }

-- `m[k]` of a map of texts: "" for a missing key.
unfoldable pub label : Text → Map Text Text → Text
label k m = Option.get_or (lookup k m) []

-- `isActive`
unfoldable pub is_active : Text → Bool
is_active state =
    text_eq state (codes "running")
    || (text_eq state (codes "restarting") || text_eq state (codes "created"))

-- The slot that the labels of a container name; `none` where the replica is no number.
unfoldable pub slot_of : ContainerInfo → Option Slot
unfolding label
slot_of c =
    Option.map
      (λ r. record {
        project = label label_project c.labels;
        service = label label_service c.labels;
        replica = r;
      })
      (atoi (label label_replica c.labels))

abbrev pub Unhealthy : Type 0
Unhealthy = Text → Bool

unfoldable pub remove_action : Slot → Text → Reason → Action
remove_action k id why = record {
  type = remove;
  project = k.project;
  service = k.service;
  replica = k.replica;
  spec = zero_task;
  spec_hash = [];
  container_id = id;
  reason = why;
}

-- A container that keeps its slot.
unfoldable pub keeps_slot : Unhealthy → ContainerInfo → Bool
unfolding is_active
keeps_slot unhealthy c = is_active c.state && not (unhealthy c.id)

-- The map of the containers that keep their slots, and the removals of those that do not.
abbrev pub Actual : Type 0
Actual = Map Slot ContainerInfo

pub visit : Unhealthy → ContainerInfo → Option Slot → Actual × List Action → Actual × List Action
unfolding keeps_slot remove_action
visit unhealthy c none acc = acc
visit unhealthy c (some k) (actual, actions) =
    if keeps_slot unhealthy c then (put k c actual, actions) else (
      actual,
      actions
          ++ remove_action k c.id (if is_active c.state then probe_streak else non_running c.state)
            ∷ [],
    )

-- The first loop of `Compute`.
pub scan_actual : Unhealthy → List ContainerInfo → Actual × List Action → Actual × List Action
unfolding visit slot_of
scan_actual unhealthy [] acc = acc
scan_actual unhealthy (c ∷ cs) acc = scan_actual unhealthy cs (visit unhealthy c (slot_of c) acc)

abbrev pub Desired : Type 0
Desired = Map Slot Service

pub slot_at : Service → ℕ → Slot
slot_at svc r = record { project = svc.project; service = svc.name; replica = pos r }

-- `for r := 0; r < n; r++`, with `left` rounds to go from `r` on.
pub fill : Service → (left r : ℕ) → Desired → Desired
unfolding slot_at
fill svc zero r m = m
fill svc (suc left) r m = fill svc left (suc r) (put (slot_at svc r) svc m)

-- A negative number of replicas makes no round.
abbrev pub rounds : ℤ → ℕ
rounds (pos n) = n
rounds (negsuc n) = 0

-- The second loop: the slots that the services want.
pub desired_set : List Service → Desired → Desired
unfolding fill
desired_set [] m = m
desired_set (svc ∷ rest) m = desired_set rest (fill svc (rounds svc.spec.replicas) 0 m)

unfoldable pub create_action : Slot → Service → Text → Action
create_action k svc want = record {
  type = create;
  project = k.project;
  service = k.service;
  replica = k.replica;
  spec = svc.spec;
  spec_hash = want;
  container_id = [];
  reason = fewer_than_desired;
}

unfoldable pub replace_action : Slot → Service → Text → Text → Action
replace_action k svc want id = record {
  type = replace;
  project = k.project;
  service = k.service;
  replica = k.replica;
  spec = svc.spec;
  spec_hash = want;
  container_id = id;
  reason = spec_hash_drift;
}

pub for_desired : Slot → Service → Text → Option ContainerInfo → List Action
unfolding create_action replace_action label
for_desired k svc want none = create_action k svc want ∷ []
for_desired k svc want (some c) =
    if text_eq (label label_spec_hash c.labels) want
    then []
    else replace_action k svc want c.id ∷ []

-- Pass 1: create or replace.
pub pass1 : Encoding → Actual → Desired → List Action
unfolding for_desired
pass1 enc actual [] = []
pass1 enc actual ((k, svc) ∷ rest) =
    for_desired k svc (hash enc svc.spec) (lookup k actual) ++ pass1 enc actual rest

pub for_actual : Slot → ContainerInfo → Option Service → List Action
unfolding remove_action
for_actual k c none = remove_action k c.id more_than_desired ∷ []
for_actual k c (some svc) = []

-- Pass 2: remove what no service wants.
pub pass2 : Desired → Actual → List Action
unfolding for_actual
pass2 desired [] = []
pass2 desired ((k, c) ∷ rest) = for_actual k c (lookup k desired) ++ pass2 desired rest

-- The comparison of `slices.SortFunc`.
unfoldable pub compare_actions : Action → Action → Ordering
compare_actions =
    lex (λ a b. text_compare a.project b.project)
      (lex (λ a b. text_compare a.service b.service) (λ a b. compare_ℤ a.replica b.replica))

abbrev actions_of : Encoding → List Service → Actual × List Action → List Action
actions_of enc desired (actual, removals) =
    let wanted = desired_set desired [] in
    removals ++ (pass1 enc actual wanted ++ pass2 wanted actual)

-- The actions before they are sorted.
pub unsorted : Encoding → List Service → List ContainerInfo → Unhealthy → List Action
unfolding scan_actual desired_set pass1 pass2
unsorted enc desired actual unhealthy =
    actions_of enc desired (scan_actual unhealthy actual ([], []))

-- `Compute`
unfoldable pub compute : Encoding → List Service → List ContainerInfo → Unhealthy → List Action
unfolding unsorted compare_actions
compute enc desired actual unhealthy = sort compare_actions (unsorted enc desired actual unhealthy)
