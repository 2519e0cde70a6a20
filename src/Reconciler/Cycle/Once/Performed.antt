-- ===== src/Reconciler/Cycle/Once/Performed.antt =====
-- What the pass over one project does to the containers.
use proxa.Prelude.{List, [], ◌∷◌, Option, none, some}
use proxa.Prelude.Text.{Text}
use proxa.Types.{Service, ContainerInfo}
use proxa.Reconciler.Diff.{Action, compute}
use proxa.Reconciler.Strategy.{Call, apply}
use proxa.Reconciler.Tick.{probe_unhealthy_set, is_unhealthy}
use proxa.Reconciler.Cycle.{Setting}
use proxa.Reconciler.Cycle.Once.{Runtime}
use proxa.Probe.{Manager}

module _ {W : Type 0} (rt : Runtime W) (s : Setting) where
  -- The calls, one after the other.
  unfoldable pub perform_calls : Action → List Call → W → W
  perform_calls a [] x = x
  perform_calls a (c ∷ cs) x = perform_calls a cs (rt.perform a c x)

  -- For each action, in order, all the calls of its strategy, as the runtime answers them.
  unfoldable pub perform_actions : List Action → W → W
  unfolding perform_calls
  perform_actions [] x = x
  perform_actions (a ∷ rest) x =
      perform_actions rest (perform_calls a (apply s.encoding (rt.answers x a) a).0 x)

  -- The difference of the services and the containers; nothing where one of them cannot be listed.
  abbrev pub planned : Manager → Option (List Service) → Option (List ContainerInfo) → List Action
  planned m none actual = []
  planned m (some desired) none = []
  planned m (some desired) (some actual) =
      compute s.encoding desired actual (is_unhealthy (probe_unhealthy_set m desired actual))
