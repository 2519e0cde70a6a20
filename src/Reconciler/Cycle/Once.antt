-- ===== src/Reconciler/Cycle/Once.antt =====
-- internal/reconciler/reconciler.go: `reconcileProject` and `reconcileOnce`, over any runtime. What the
-- probes of other goroutines record meanwhile is an argument, as the answers of the runtime are.
pub mod Performed
use proxa.Prelude.{
  ◌≡◌, refl, Bool, true, false, List, [], ◌∷◌, Option, none, some, if◌then◌else◌, is_nil,
}
use mathlib.Core.Option
use proxa.Prelude.Text.{Text}
use proxa.Types.{TaskDef, Service, Project, ContainerInfo}
use proxa.Probe.{Format, Manager, Result, track, untrack, record_result}
use proxa.Ingress.Forwarders.{Controller}
use proxa.Store.{list_services, list_projects}
use proxa.Server.{services_of}
use proxa.Reconciler.Diff.{Action, compute}
use proxa.Reconciler.Strategy.{
  Answers, Call, pull, create_container, start, stop, remove_container, rename, await_healthy,
  await_exit, Outcome, done, rolled_back, failed, Run, apply,
}
use proxa.Reconciler.Strategy
use proxa.Reconciler.Tick.{probe_unhealthy_set, is_unhealthy}
use proxa.Reconciler.Push.{push_routes}
use proxa.Reconciler.Cycle.{Setting, State, emit_action_event, update_probes_and_status}

-- The runtime of states `W`: its list of containers, which may fail; what the calls of an action
-- answer; what a call leaves; and the results that the probes record after a call.
pub record Runtime (W : Type 0) : Type 0 where
  pub list_containers : Text → W → Option (List ContainerInfo)
  pub answers : W → Action → Answers
  pub perform : Action → Call → W → W
  pub probed : W → Call → List (Text × Result)

-- What a tick changes.
pub record World (W : Type 0) : Type 0 where
  pub runtime : W
  pub controller : Controller
  pub state : State

-- What a call of a strategy does to the probe manager; a failure to track is only logged.
pub probe_call : Format → TaskDef → Call → Manager → Manager
probe_call f spec (Strategy.track id) m = Option.get_or (track f id spec m) m
probe_call f spec (Strategy.untrack id) m = untrack id m
probe_call f spec (pull image) m = m
probe_call f spec (create_container c) m = m
probe_call f spec (start id) m = m
probe_call f spec (stop id) m = m
probe_call f spec (remove_container id) m = m
probe_call f spec (rename id name) m = m
probe_call f spec (await_healthy id deadline) m = m
probe_call f spec (await_exit id) m = m

pub record_all : List (Text × Result) → Manager → Manager
record_all [] m = m
record_all ((id, r) ∷ rest) m = record_all rest (record_result id r m).0

-- Does `Apply` return no error?
abbrev pub succeeded : Outcome → Bool
succeeded done = true
succeeded rolled_back = false
succeeded (failed c) = false

module _ {W : Type 0} (rt : Runtime W) (s : Setting) where
  -- The calls of an action, each with the results that come in after it.
  pub run_calls : Action → List Call → World W → World W
  unfolding probe_call record_all
  run_calls a [] w = w
  run_calls a (c ∷ cs) w = run_calls a cs (record w {
    runtime = rt.perform a c w.runtime;
    state = record w.state {
      manager = record_all (rt.probed w.runtime c) (probe_call s.format a.spec c w.state.manager);
    };
  })

  -- After `Apply`: the event is emitted where it returned no error.
  pub finish_action : Action → Outcome → World W → World W
  finish_action a outcome w = record w {
    state = record w.state {
      events = if succeeded outcome then emit_action_event s a w.state.events else w.state.events;
    };
  }

  pub run_action : Action → Run → World W → World W
  unfolding run_calls finish_action
  run_action a (calls, outcome) w = finish_action a outcome (run_calls a calls w)

  -- The loop over the actions: an action that fails does not stop the others.
  pub apply_actions : List Action → World W → World W
  unfolding run_action
  apply_actions [] w = w
  apply_actions (a ∷ rest) w =
      apply_actions rest (run_action a (apply s.encoding (rt.answers w.runtime a) a) w)

  -- From the second list of containers on.
  pub wire_probes : Text → List Service → Option (List ContainerInfo) → World W → World W
  wire_probes project desired none w = w
  wire_probes project desired (some actual) w = record w {
    state = update_probes_and_status s project desired actual w.state;
  }

  pub act : Text → List Service → List ContainerInfo → List Action → World W → World W
  unfolding wire_probes apply_actions
  act project desired actual [] w = wire_probes project desired (some actual) w
  act project desired actual (a ∷ rest) w =
      let after = apply_actions (a ∷ rest) w in
      wire_probes project desired (rt.list_containers project after.runtime) after

  pub reconcile_listed :
      Text → Option (List Service) → Option (List ContainerInfo) → World W → World W
  unfolding act
  reconcile_listed project none actual w = w
  reconcile_listed project (some desired) none w = w
  reconcile_listed project (some desired) (some actual) w =
      let unhealthy = probe_unhealthy_set w.state.manager desired actual in
      act project desired actual (compute s.encoding desired actual (is_unhealthy unhealthy)) w

  -- `reconcileProject`
  unfoldable pub reconcile_project : Text → World W → World W
  unfolding reconcile_listed
  reconcile_project project w =
      reconcile_listed project (services_of (list_services s.codec project w.state.tables))
        (rt.list_containers project w.runtime) w

  pub reconcile_projects : List Project → World W → World W
  unfolding reconcile_project
  reconcile_projects [] w = w
  reconcile_projects (p ∷ rest) w = reconcile_projects rest (reconcile_project p.name w)

  -- `reconcileOnce`, with an ingress; an error of `UpdateRoutes` is only logged.
  unfoldable pub reconcile_once : World W → World W
  unfolding reconcile_projects
  reconcile_once w =
      let projects = list_projects w.state.tables in
      let list : Text → Option (List Service) =
        λ p. services_of (list_services s.codec p w.state.tables) in
      reconcile_projects projects
        (record w { controller = (push_routes list projects w.controller).1 })
