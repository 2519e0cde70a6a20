-- ===== src/Reconciler/Cycle.antt =====
-- internal/reconciler/reconciler.go: a tick over one project, from the two lists to the persisted status and
-- the events.
pub mod Persisted
pub mod Once
use proxa.Prelude.{
  ℕ, Bool, true, false, not, ◌&&◌, List, [], ◌∷◌, ◌++◌, Option, none, some, if◌then◌else◌, is_nil,
}
use mathlib.Core.Option
use proxa.Prelude.Int.{ℤ}
use proxa.Prelude.Text.{Text, codes, text_eq, show_ℤ}
use proxa.Prelude.Maps.{Map, lookup, text-Eq}
use proxa.Types.{Service, TaskDef, ContainerInfo}
use proxa.Hash.{Encoding}
use proxa.Probe.{Manager, Format, Snapshot, snapshot}
use proxa.Ingress.Pool.{Pools}
use proxa.Events
use proxa.Events.{
  Event, Table, Appended, refused, added, append, added_or, target_service, type_reconciler_create,
  type_reconciler_remove, type_reconciler_scale, type_service_status_changed, actor_reconciler,
}
use proxa.Store.{Codec, Tables, Result, ok, err, put_service}
use proxa.Reconciler.Diff.{
  Action, ActionType, create, remove, replace, Reason, non_running, probe_streak,
  fewer_than_desired, spec_hash_drift, more_than_desired,
}
use proxa.Reconciler.Status.{aggregate}
use proxa.Reconciler.Tick.{spec_by_service, update_probes}
use proxa.Reconciler.Push.{Inspect, ids_by_service, ids_of, push_all}

-- What does not change during a tick: how `%q` quotes, and the time.
pub record Setting : Type 1 where
  pub codec : Codec
  pub encoding : Encoding
  pub format : Format
  pub quote : Text → Text
  pub now : ℤ
  pub stamp : Text
  pub inspect : Inspect

-- What a tick changes, apart from the containers.
pub record State : Type 0 where
  pub manager : Manager
  pub pools : Pools
  pub tables : Tables
  pub events : Table

-- `emitEvent`: an event that is not stored is only logged.
unfoldable pub emit_event : Setting → (type target payload : Text) → Table → Table
unfolding added_or
emit_event s type target payload t = added_or t (
    append s.now
      (record {
        id = 0;
        at = none;
        type = type;
        actor = actor_reconciler;
        target = target;
        payload = payload;
      })
      t)

-- The texts of the reasons in diff.go.
reason_text : Reason → Text
reason_text (non_running state) = codes "container in non-running state: " ++ state
reason_text probe_streak = codes "probe streak exceeded retries"
reason_text fewer_than_desired = codes "actual<desired"
reason_text spec_hash_drift = codes "spec_hash drift"
reason_text more_than_desired = codes "actual>desired"

abbrev pub event_type : ActionType → Text
event_type create = type_reconciler_create
event_type remove = type_reconciler_remove
event_type replace = type_reconciler_scale

-- `emitActionEvent`
unfoldable pub emit_action_event : Setting → Action → Table → Table
unfolding emit_event reason_text
emit_action_event s a t =
    emit_event s (event_type a.type) (target_service a.project a.service)
      (codes "{\"replica\":"
        ++ show_ℤ a.replica
        ++ codes ",\"reason\":"
        ++ s.quote (reason_text a.reason)
        ++ codes "}")
      t

-- The snapshots that the manager has of some containers.
unfoldable pub snapshots_of : Manager → List Text → List Snapshot
snapshots_of m [] = []
snapshots_of m (id ∷ ids) =
    let rest = snapshots_of m ids in Option.get_or (Option.map (λ s. s ∷ rest) (snapshot m id)) rest

-- The payload of `service.status_changed`.
abbrev pub status_payload : Setting → Text → Text → Text
status_payload s from to =
    codes "{\"from\":" ++ s.quote from ++ codes ",\"to\":" ++ s.quote to ++ codes "}"

-- After `PutService`: an error is only logged.
pub persisted : Setting → (project name from to : Text) → Result Tables → State → State
unfolding emit_event
persisted s project name from to (err e) st = st
persisted s project name from to (ok u) st = record st {
  tables = u;
  events =
      emit_event s type_service_status_changed (target_service project name)
        (status_payload s from to) st.events;
}

-- One round of pass 4.
pub persist_status : Setting → (project : Text) → Service → List Text → State → State
unfolding snapshots_of persisted
persist_status s project svc ids st =
    let status = aggregate svc.spec.replicas (snapshots_of st.manager ids) in
    if text_eq status svc.status
    then st
    else persisted s project svc.name svc.status status
        (put_service s.codec s.encoding s.stamp project (record svc { status = status }) st.tables)
        st

-- Pass 4: the status of every service, persisted where it has changed.
pub persist_all : Setting → (project : Text) → Map Text (List Text) → List Service → State → State
unfolding persist_status
persist_all s project ids [] st = st
persist_all s project ids (svc ∷ rest) st =
    persist_all s project ids rest (persist_status s project svc (ids_of ids svc.name) st)

-- `updateProbesAndStatus`, with an ingress: the backends are pushed before the probes are tracked.
unfoldable pub update_probes_and_status :
    Setting → (project : Text) → List Service → List ContainerInfo → State → State
unfolding persist_all
update_probes_and_status s project desired actual st =
    let ids = ids_by_service project (spec_by_service desired []) actual [] in
    let pools = push_all st.manager s.inspect project ids desired st.pools in
    let manager = update_probes s.format project desired actual st.manager in
    persist_all s project ids desired (record st { pools = pools; manager = manager })
