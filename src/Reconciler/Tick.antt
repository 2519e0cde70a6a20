-- ===== src/Reconciler/Tick.antt =====
-- internal/reconciler/reconciler.go: the parts of a tick that stand between the probe manager and the
-- diff: which containers count as unhealthy, and which are tracked afterwards.
pub mod Unhealthy
pub mod Tracking
pub mod Sound
use proxa.Prelude.{
  ℕ, ◌≡◌, Bool, true, false, not, ◌&&◌, ◌||◌, List, [], ◌∷◌, Option, none, some, if◌then◌else◌, any,
}
use mathlib.Core.Option
use proxa.Prelude.Int.{ℤ, pos, leb_ℤ}
use proxa.Prelude.Text.{Text, text_eq}
use proxa.Prelude.Maps.{Map, lookup, put, text-Eq}
use proxa.Types.{TaskDef, Service, ContainerInfo}
use proxa.Docker.{label_project, label_service}
use proxa.Probe.{Manager, Snapshot, Format, snapshot, track, untrack, tracked_ids}
use proxa.Reconciler.Diff.{label, is_active}

retries_of : Service → ℤ
retries_of svc = let n = svc.spec.health.retries in if leb_ℤ n (pos 0) then pos 3 else n

-- The first loop of `probeUnhealthySet`.
pub retries_by_service : List Service → Map Text ℤ → Map Text ℤ
unfolding retries_of
retries_by_service [] m = m
retries_by_service (svc ∷ rest) m = retries_by_service rest (put svc.name (retries_of svc) m)

past_retries : Option ℤ → Option Snapshot → Bool
past_retries (some n) (some s) = not s.health_ok && leb_ℤ n (pos s.streak)
past_retries _ _ = false

pub is_past : Manager → Map Text ℤ → ContainerInfo → Bool
unfolding past_retries
is_past m retries c = past_retries (lookup (label label_service c.labels) retries) (snapshot m c.id)

-- The second loop.
mark_all : Manager → Map Text ℤ → List ContainerInfo → Map Text Bool → Map Text Bool
unfolding is_past
mark_all m retries [] out = out
mark_all m retries (c ∷ rest) out =
    mark_all m retries rest (if is_past m retries c then put c.id true out else out)

-- `probeUnhealthySet`
pub probe_unhealthy_set : Manager → List Service → List ContainerInfo → Map Text Bool
unfolding mark_all retries_by_service
probe_unhealthy_set m desired actual = mark_all m (retries_by_service desired []) actual []

-- `probeUnhealthy[c.ID]`
unfoldable pub is_unhealthy : Map Text Bool → Text → Bool
is_unhealthy set id = Option.get_or (lookup id set) false

-- `specByService`
pub spec_by_service : List Service → Map Text TaskDef → Map Text TaskDef
spec_by_service [] m = m
spec_by_service (svc ∷ rest) m = spec_by_service rest (put svc.name svc.spec m)

-- A failure to track is only logged.
track_spec : Format → Text → Manager → Option TaskDef → Manager
track_spec f id m none = m
track_spec f id m (some spec) = Option.get_or (track f id spec m) m

track_one : Format → Map Text TaskDef → ContainerInfo → Manager → Manager
unfolding track_spec
track_one f specs c m =
    if is_active c.state
    then track_spec f c.id m (lookup (label label_service c.labels) specs)
    else m

-- Pass 3 of `updateProbesAndStatus`.
track_all : Format → Map Text TaskDef → List ContainerInfo → Manager → Manager
unfolding track_one
track_all f specs [] m = m
track_all f specs (c ∷ rest) m = track_all f specs rest (track_one f specs c m)

abbrev is_known : Option TaskDef → Bool
is_known none = false
is_known (some spec) = true

-- Pass 1: does the container count as active in this project?
abbrev pub counts : Text → Map Text TaskDef → ContainerInfo → Bool
counts project specs c =
    is_active c.state
    && (text_eq (label label_project c.labels) project
        && is_known (lookup (label label_service c.labels) specs))

untrack_one : Text → Map Text TaskDef → List ContainerInfo → Text → Manager → Manager
untrack_one project specs actual id m =
    if any (λ c. text_eq c.id id && counts project specs c) actual
    then m
    else if any (λ c. text_eq c.id id) actual
    then untrack id m
    else m

-- The loop that untracks: an ID that is not active, but that `actual` still has.
untrack_all : Text → Map Text TaskDef → List ContainerInfo → List Text → Manager → Manager
unfolding untrack_one
untrack_all project specs actual [] m = m
untrack_all project specs actual (id ∷ rest) m =
    untrack_all project specs actual rest (untrack_one project specs actual id m)

-- What `updateProbesAndStatus` does to the manager.
pub update_probes : Format → Text → List Service → List ContainerInfo → Manager → Manager
unfolding spec_by_service track_all untrack_all
update_probes f project desired actual m =
    let specs = spec_by_service desired [] in
    let tracked = track_all f specs actual m in
    untrack_all project specs actual (tracked_ids tracked) tracked
