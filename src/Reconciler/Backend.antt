-- ===== src/Reconciler/Backend.antt =====
-- The runtime that the reconciler drives (internal/runtime/runtime.go), as an interface: what its list
-- of containers shows, and what each call does to it. The actions of internal/reconciler/reconciler.go,
-- in order.
pub mod Settled
pub mod Touch
pub mod Aftermath
pub mod Converge
use proxa.Prelude.{◌≡◌, Bool, true, false, List, [], ◌∷◌, Option, none, some, if◌then◌else◌, Memᴰ}
use mathlib.Core.Option
use proxa.Prelude.Text.{Text, codes, text_eq}
use proxa.Prelude.Maps.{Map}
use proxa.Types.{ContainerInfo, ContainerSpec}
use proxa.Docker.{label_project}
use proxa.Hash.{Encoding}
use proxa.Reconciler.Diff.{Action, Slot, label}
use proxa.Reconciler.Strategy.Calls.{all_well, slot_of_action}
use proxa.Reconciler.Strategy.{
  Call, pull, create_container, start, stop, remove_container, rename, track, untrack,
  await_healthy, await_exit, apply,
}

-- What the diff reads of a container.
pub record Facts : Type 0 where
  pub state : Text
  pub labels : Map Text Text

abbrev pub facts_of : ContainerInfo → Facts
facts_of c = record { state = c.state; labels = c.labels }

abbrev pub in_state : Text → Facts → Facts
in_state s f = record { state = s; labels = f.labels }

-- What a call that succeeds leaves of the container `i`, which was `o` before; `new` is the id that
-- `CreateContainer` returns. Only the first four calls reach what the diff reads.
unfoldable pub effect : (new : Text) → Call → (i : Text) → Option Facts → Option Facts
effect new (create_container spec) i o =
    if text_eq new i then some (record { state = codes "created"; labels = spec.labels }) else o
effect new (start id) i o = if text_eq id i then Option.map (in_state (codes "running")) o else o
effect new (stop id) i o = if text_eq id i then Option.map (in_state (codes "exited")) o else o
effect new (remove_container id) i o = if text_eq id i then none else o
effect new (pull image) i o = o
effect new (rename id name) i o = o
effect new (track id) i o = o
effect new (untrack id) i o = o
effect new (await_healthy id deadline) i o = o
effect new (await_exit id) i o = o

-- A runtime of states `W`: `list_containers` is `ListContainers` with the filter on a project.
pub record Backend (W : Type 0) : Type 0 where
  pub view : W → Text → Option Facts
  pub list_containers : Text → W → List ContainerInfo
  pub perform : Text → Call → W → W
  pub view-perform :
      (new : Text) (c : Call) (w : W) (i : Text)
      → view (perform new c w) i ≡ effect new c i (view w i)
  pub listed :
      (project : Text) (w : W) (c : ContainerInfo)
      → Memᴰ c (list_containers project w)
      → (view w c.id ≡ some (facts_of c)) × (label label_project c.labels ≡ project)
  pub lists :
      (project : Text) (w : W) (i : Text) (f : Facts)
      → view w i ≡ some f
      → label label_project f.labels ≡ project
      → (c : ContainerInfo) × Memᴰ c (list_containers project w) × (c.id ≡ i) × (facts_of c ≡ f)

module _ {W : Type 0} (rt : Backend W) where
  pub replay : Text → List Call → W → W
  replay new [] w = w
  replay new (c ∷ cs) w = replay new cs (rt.perform new c w)

  -- The loop over the actions in `reconcileProject`, where all goes well; `new_id` says which id the
  -- container of a slot gets.
  pub apply_all : Encoding → (Slot → Text) → List Action → W → W
  unfolding replay
  apply_all enc new_id [] w = w
  apply_all enc new_id (a ∷ rest) w =
      let new = new_id (slot_of_action a) in
      apply_all enc new_id rest (replay new (apply enc (all_well new) a).0 w)
