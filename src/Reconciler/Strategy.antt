-- ===== src/Reconciler/Strategy.antt =====
-- internal/reconciler/strategy.go and action.go: the replacement of one replica, start-first or
-- stop-first, and the execution of an action. A run is the sequence of calls that it makes on the
-- runtime and on the probe manager, each with the answer that it got; the answers are an argument.
pub mod Calls
pub mod Labels
pub mod Safety
pub mod Waiting
use proxa.Prelude.{
  ℕ, ◌*◌, Bool, true, false, ◌&&◌, List, [], ◌∷◌, ◌++◌, Option, none, some, if◌then◌else◌, is_nil,
}
use proxa.Prelude.Int.{ℤ, pos, leb_ℤ, ltb_ℤ, ◌+ℤ◌, ◌*ℤ◌, max_ℤ, wrap64}
use proxa.Prelude.Text.{Text, codes, text_eq, show_ℤ}
use proxa.Prelude.Maps.{Map}
use proxa.Types.{TaskDef, HealthCheck, ContainerSpec, start_first, stop_first}
use proxa.Docker.{label_project, label_service, label_replica, label_spec_hash, container_name_for}
use proxa.Hash.{Encoding, hash}
use proxa.Reconciler.Diff.{Action, ActionType, create, remove, replace}

pub data Strategy : Type 0 where
  start_first_strategy stop_first_strategy : Strategy

-- `SelectStrategy`
unfoldable pub select_strategy : TaskDef → Strategy
select_strategy spec =
    if text_eq spec.strategy start_first
    then start_first_strategy
    else if text_eq spec.strategy stop_first
    then stop_first_strategy
    else if is_nil spec.strategy && spec.stateful
    then stop_first_strategy
    else start_first_strategy

-- A call with a side effect, on the runtime or on the probe manager. `await_healthy` and
-- `await_exit` are the two polling loops.
pub data Call : Type 0 where
  pull : Text → Call
  create_container : ContainerSpec → Call
  start : Text → Call
  stop : Text → Call
  remove_container : Text → Call
  rename : Text → Text → Call
  track untrack : Text → Call
  await_healthy : Text → ℤ → Call
  await_exit : Text → Call

-- `Request`, with what the reconciler's fields answer: `new_id` is the result of `CreateContainer`, and
-- each other call succeeds or fails; `is_healthy` is the result of `waitForFirstHealthy`.
pub record Request : Type 0 where
  pub project : Text
  pub service : Text
  pub replica_idx : ℤ
  pub old_id : Text
  pub new_spec : TaskDef

pub record Answers : Type 0 where
  pub new_id : Option Text
  pub succeeds : Call → Bool
  pub is_healthy : Bool

pub data Outcome : Type 0 where
  done rolled_back : Outcome
  failed : Call → Outcome

abbrev pub Run : Type 0
Run = List Call × Outcome

-- A call, and then the rest of the run.
abbrev pub prepend : Call → Run → Run
prepend c (calls, o) = (c ∷ calls, o)

-- `if err := call; err != nil { cleanup; return err }`, then the rest.
unfoldable pub attempt : Answers → Call → List Call → Run → Run
attempt a c cleanup rest = if a.succeeds c then prepend c rest else (c ∷ cleanup, failed c)

abbrev pub interval_or_default : HealthCheck → ℤ
interval_or_default h = if leb_ℤ h.interval (pos 0) then pos 10000000000 else h.interval

abbrev pub retries_or_default : HealthCheck → ℤ
retries_or_default h = if leb_ℤ h.retries (pos 0) then pos 3 else h.retries

-- `max(interval*time.Duration(retries+1), 10*time.Second)`, in int64 nanoseconds.
unfoldable pub deadline : ℤ → ℤ → ℤ
unfolding wrap64 ◌*ℤ◌ ◌+ℤ◌
deadline interval retries = max_ℤ (wrap64 (interval *ℤ wrap64 (retries +ℤ pos 1))) (pos 10000000000)

-- `probeDeadlineFor`
unfoldable pub probe_deadline_for : HealthCheck → ℤ
unfolding deadline
probe_deadline_for h = deadline (interval_or_default h) (retries_or_default h)

pub labels_for : Encoding → Request → Map Text Text
labels_for enc req =
    (label_project, req.project)
    ∷ (label_service, req.service)
    ∷ (label_replica, show_ℤ req.replica_idx)
    ∷ (label_spec_hash, hash enc req.new_spec)
    ∷ []

-- The `rt.ContainerSpec` of the new container, under a name.
unfoldable pub spec_for : Encoding → Request → Text → ContainerSpec
unfolding labels_for
spec_for enc req name = record {
  name = name;
  image = req.new_spec.image;
  env = req.new_spec.env;
  volumes = req.new_spec.volumes;
  ports = req.new_spec.expose;
  security = req.new_spec.security;
  resources = req.new_spec.resources;
  labels = labels_for enc req;
}

abbrev pub canonical_name : Request → Text
canonical_name req = container_name_for req.project req.service req.replica_idx

-- The last step of start-first: a failed rename is only logged.
pub finish_rename : Request → Text → Run
finish_rename req new = (rename new (canonical_name req) ∷ [], done)

-- "Promote: remove old, rename new into the canonical name."
pub promote : Answers → Request → Text → Run
unfolding finish_rename
promote a req new =
    if is_nil req.old_id
    then finish_rename req new
    else prepend (untrack req.old_id)
        (attempt a (remove_container req.old_id) [] (finish_rename req new))

-- From the start of the new container on.
pub start_first_new : Answers → Request → Text → Run
unfolding promote
start_first_new a req new = attempt a (start new) (remove_container new ∷ []) (
    attempt a (track new) (remove_container new ∷ []) (
      prepend (await_healthy new (probe_deadline_for req.new_spec.health)) (
        if a.is_healthy
        then promote a req new
        else (untrack new ∷ remove_container new ∷ [], rolled_back))))

pub created : Answers → Call → (Text → Run) → Option Text → Run
created a c next none = (c ∷ [], failed c)
created a c next (some id) = prepend c (next id)

-- `StartFirst.Apply`
unfoldable pub start_first_apply : Encoding → Answers → Request → Run
unfolding start_first_new created attempt
start_first_apply enc a req =
    let c = create_container (spec_for enc req (canonical_name req ++ codes "-new")) in
    attempt a (pull req.new_spec.image) [] (created a c (start_first_new a req) a.new_id)

-- From the start of the new container on; a failure to track it is only logged, and no result of the
-- probe rolls back.
pub stop_first_new : Answers → Request → Text → Run
stop_first_new a req new =
    attempt a (start new) []
      (track new ∷ await_healthy new (probe_deadline_for req.new_spec.health) ∷ [], done)

pub stop_first_create : Encoding → Answers → Request → Run
unfolding stop_first_new created
stop_first_create enc a req =
    let c = create_container (spec_for enc req (canonical_name req)) in
    attempt a (pull req.new_spec.image) [] (created a c (stop_first_new a req) a.new_id)

-- `StopFirst.Apply`; a timeout of `waitForExit` is only logged.
unfoldable pub stop_first_apply : Encoding → Answers → Request → Run
unfolding stop_first_create attempt
stop_first_apply enc a req =
    if is_nil req.old_id
    then stop_first_create enc a req
    else attempt a (stop req.old_id) [] (
        prepend (await_exit req.old_id) (
          prepend (untrack req.old_id)
            (attempt a (remove_container req.old_id) [] (stop_first_create enc a req))))

pub apply_strategy : Encoding → Answers → Request → Strategy → Run
unfolding start_first_apply stop_first_apply
apply_strategy enc a req start_first_strategy = start_first_apply enc a req
apply_strategy enc a req stop_first_strategy = stop_first_apply enc a req

-- The request that an action of the diff makes.
abbrev pub request_of : Action → Request
request_of x = record {
  project = x.project;
  service = x.service;
  replica_idx = x.replica;
  old_id = x.container_id;
  new_spec = x.spec;
}

-- `applyCreate`: the label of the hash is the action's.
unfoldable pub apply_create : Encoding → Answers → Action → Run
unfolding created attempt
apply_create enc a x =
    let spec = spec_for enc (request_of x) (container_name_for x.project x.service x.replica) in
    let c = create_container (record spec {
      labels =
          (label_project, x.project)
          ∷ (label_service, x.service)
          ∷ (label_replica, show_ℤ x.replica)
          ∷ (label_spec_hash, x.spec_hash)
          ∷ [];
    }) in
    attempt a (pull x.spec.image) []
      (created a c (λ id. attempt a (start id) [] ([], done)) a.new_id)

pub by_type : Encoding → Answers → Action → ActionType → Run
unfolding apply_strategy apply_create
by_type enc a x create = apply_create enc a x
by_type enc a x remove = attempt a (remove_container x.container_id) [] ([], done)
by_type enc a x replace = apply_strategy enc a (request_of x) (select_strategy x.spec)

-- `Apply`
unfoldable pub apply : Encoding → Answers → Action → Run
unfolding by_type
apply enc a x = by_type enc a x x.type
