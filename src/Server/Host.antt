-- ===== src/Server/Host.antt =====
-- internal/server/host_containers_api.go: the handlers that list, start, stop, restart and remove containers
-- which Proxa does not manage. The answers of the runtime are arguments, and there is a table of events.
pub mod Unmanaged
use proxa.Prelude.{
  ℕ, Bool, true, false, not, ◌&&◌, List, [], ◌∷◌, ◌++◌, Option, none, some, if◌then◌else◌, is_nil,
  map, take, length, ltb, any,
}
use mathlib.Core.Option
use proxa.Prelude.Int.{ℤ}
use proxa.Prelude.Text.{Text, codes, text_eq}
use proxa.Prelude.Maps.{Map, lookup, text-Eq}
use proxa.Types.{ContainerInfo}
use proxa.Docker.{label_project, label_service, label_replica}
use proxa.Events
use proxa.Events.{
  Table, append, added_or, type_user_container_start, type_user_container_stop,
  type_user_container_restart, type_user_container_remove, target_container,
}
use proxa.Reconciler.Diff.{label}

-- `hostContainer`
pub record HostContainer : Type 0 where
  pub id : Text
  pub name : Text
  pub image : Text
  pub state : Text
  pub managed : Bool
  pub project : Text
  pub service : Text
  pub replica : Text
  pub labels : Map Text Text

-- `shortID`
abbrev pub short_id : Text → Text
short_id id = if ltb 12 (length id) then take 12 id else id

-- `managedFromLabels`; the project is empty where the container is not managed.
unfoldable pub managed_from_labels : Map Text Text → Bool × Text
unfolding label
managed_from_labels labels =
    let p = label label_project labels in if is_nil p then (false, []) else (true, p)

-- `toHostContainer`
unfoldable pub to_host_container : ContainerInfo → HostContainer
unfolding managed_from_labels label
to_host_container c =
    let (managed, project) = managed_from_labels c.labels in
    record {
      id = short_id c.id;
      name = c.name;
      image = c.image;
      state = c.state;
      managed = managed;
      project = project;
      service = if managed then label label_service c.labels else [];
      replica = if managed then label label_replica c.labels else [];
      labels = c.labels;
    }

pub data HostReply : Type 0 where
  no_content not_found managed_conflict running_conflict unknown_action runtime_failed : HostReply

-- `handleListHostContainers`; `none` where the runtime fails.
unfoldable pub list_host_containers : Option (List ContainerInfo) → Option (List HostContainer)
unfolding to_host_container
list_host_containers cs = Option.map (map to_host_container) cs

-- The calls of the runtime that change a container.
pub data Operation : Type 0 where
  start_container stop_container restart_container : (id : Text) → Operation
  remove_container : (id : Text) → (force : Bool) → Operation

-- What a handler does: its call, if it makes one, the events, and its reply.
pub record Outcome : Type 0 where
  pub call : Option Operation
  pub events : Table
  pub reply : HostReply

-- What a request meets: `InspectContainer`, whether a call succeeds, how `%q` quotes, and the time.
pub record Host : Type 0 where
  pub inspect : Text → Option ContainerInfo
  pub succeeds : Operation → Bool
  pub quote : Text → Text
  pub now : ℤ

-- The operation of an action and the type of its event.
unfoldable pub operation_of : (action id : Text) → Option (Operation × Text)
operation_of action id =
    if text_eq action (codes "start")
    then some (start_container id, type_user_container_start)
    else if text_eq action (codes "stop")
    then some (stop_container id, type_user_container_stop)
    else if text_eq action (codes "restart")
    then some (restart_container id, type_user_container_restart)
    else none

-- `strconv.ParseBool`, false where it fails.
unfoldable pub parse_bool : Text → Bool
parse_bool raw =
    any (text_eq raw)
      (codes "1" ∷ codes "t" ∷ codes "T" ∷ codes "TRUE" ∷ codes "true" ∷ codes "True" ∷ [])

pub data HostRequest : Type 0 where
  action_request : (action id : Text) → HostRequest
  remove_request : (id force : Text) → HostRequest

module _ (h : Host) where
  -- `emitHostContainerEvent`
  unfoldable pub emit_host_container_event : (type id name prev_state : Text) → Table → Table
  unfolding added_or
  emit_host_container_event type id name prev_state t = added_or t (
      append h.now
        (record {
          id = 0;
          at = none;
          type = type;
          actor = codes "subject:bootstrap-admin";
          target = target_container (short_id id);
          payload =
              codes "{\"name\":"
              ++ h.quote name
              ++ codes ",\"prev_state\":"
              ++ h.quote prev_state
              ++ codes "}";
        })
        t)

  abbrev pub refuse : HostReply → Table → Outcome
  refuse reply t = record { call = none; events = t; reply = reply }

  -- The call, and then the event where it succeeds.
  pub attempted : Operation → (type id : Text) → ContainerInfo → Table → Outcome
  unfolding emit_host_container_event
  attempted op type id info t =
      if h.succeeds op
      then record {
        call = some op;
        events = emit_host_container_event type id info.name info.state t;
        reply = no_content;
      }
      else record { call = some op; events = t; reply = runtime_failed }

  pub by_action : (id : Text) → ContainerInfo → Table → Option (Operation × Text) → Outcome
  unfolding attempted
  by_action id info t none = refuse unknown_action t
  by_action id info t (some (op, type)) = attempted op type id info t

  pub act_on : (action id : Text) → Table → Option ContainerInfo → Outcome
  unfolding by_action managed_from_labels operation_of
  act_on action id t none = refuse not_found t
  act_on action id t (some info) =
      if (managed_from_labels info.labels).0
      then refuse managed_conflict t
      else by_action id info t (operation_of action id)

  -- `handleHostContainerAction`
  unfoldable pub host_container_action : (action id : Text) → Table → Outcome
  unfolding act_on
  host_container_action action id t = act_on action id t (h.inspect id)

  pub remove_found : (id force : Text) → Table → Option ContainerInfo → Outcome
  unfolding attempted managed_from_labels parse_bool
  remove_found id force t none = refuse not_found t
  remove_found id force t (some info) =
      let forced = parse_bool force in
      if (managed_from_labels info.labels).0
      then refuse managed_conflict t
      else if text_eq info.state (codes "running") && not forced
      then refuse running_conflict t
      else attempted (remove_container id forced) type_user_container_remove id info t

  -- `handleHostContainerRemove`; `force` is the query parameter, empty where it is absent.
  unfoldable pub host_container_remove : (id force : Text) → Table → Outcome
  unfolding remove_found
  host_container_remove id force t = remove_found id force t (h.inspect id)

  unfoldable pub serve_host : HostRequest → Table → Outcome
  unfolding host_container_action host_container_remove
  serve_host (action_request action id) t = host_container_action action id t
  serve_host (remove_request id force) t = host_container_remove id force t
