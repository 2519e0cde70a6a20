-- ===== src/Reconciler/Tick/Sound.antt =====
-- The invariant of the probe manager through the probe side of a tick.
use proxa.Prelude.{inl, inr, Bool-cases, List, [], ◌∷◌, Option, none, some, Option-cases, any, ◌&&◌}
use mathlib.Core.Option
use proxa.Prelude.Text.{Text, text_eq}
use proxa.Prelude.Maps.{Map, lookup, text-Eq}
use proxa.Types.{TaskDef, Service, ContainerInfo}
use proxa.Docker.{label_service}
use proxa.Probe.{Manager, Format, track, tracked_ids}
use proxa.Probe.Sound.{ManagerIsSound, track-IsSound, untrack-IsSound}
use proxa.Reconciler.Diff.{label, is_active}
use proxa.Reconciler.Tick.{
  spec_by_service, track_spec, track_one, track_all, counts, untrack_one, untrack_all,
  update_probes,
}

pub tracked_or-IsSound :
    (f : Format) (id : Text) (spec : TaskDef) (m : Manager)
    → ManagerIsSound m
    → ManagerIsSound (Option.get_or (track f id spec m) m)
tracked_or-IsSound f id spec m h = elim (Option-cases (track f id spec m)) [
  | inl none_left ↦ rw none_left h
  | inr (m', left) ↦ rw left (track-IsSound f id spec m m' left h)
]

track_spec-IsSound :
    (f : Format) (id : Text) (m : Manager) (o : Option TaskDef)
    → ManagerIsSound m
    → ManagerIsSound (track_spec f id m o)
unfolding track_spec
track_spec-IsSound f id m none h = h
track_spec-IsSound f id m (some spec) h = tracked_or-IsSound f id spec m h

track_all-IsSound :
    (f : Format) (specs : Map Text TaskDef) (cs : List ContainerInfo) (m : Manager)
    → ManagerIsSound m
    → ManagerIsSound (track_all f specs cs m)
unfolding track_all track_one
track_all-IsSound f specs [] m h = h
track_all-IsSound f specs (c ∷ cs) m h =
    track_all-IsSound f specs cs (track_one f specs c m) (elim (Bool-cases (is_active c.state)) [
      | inl on ↦ rw on (track_spec-IsSound f c.id m (lookup (label label_service c.labels) specs) h)
      | inr off ↦ rw off h
    ])

untrack_one-IsSound :
    (project : Text) (specs : Map Text TaskDef) (actual : List ContainerInfo) (id : Text)
    (m : Manager)
    → ManagerIsSound m
    → ManagerIsSound (untrack_one project specs actual id m)
unfolding untrack_one
untrack_one-IsSound project specs actual id m h =
    elim (Bool-cases (any (λ c. text_eq c.id id && counts project specs c) actual)) [
      | inl kept ↦ rw kept h
      | inr gone ↦ rw gone (elim (Bool-cases (any (λ c. text_eq c.id id) actual)) [
        | inl here ↦ rw here (untrack-IsSound id m h)
        | inr missing ↦ rw missing h
      ])
    ]

untrack_all-IsSound :
    (project : Text) (specs : Map Text TaskDef) (actual : List ContainerInfo) (ids : List Text)
    (m : Manager)
    → ManagerIsSound m
    → ManagerIsSound (untrack_all project specs actual ids m)
unfolding untrack_all
untrack_all-IsSound project specs actual [] m h = h
untrack_all-IsSound project specs actual (id ∷ ids) m h =
    untrack_all-IsSound project specs actual ids (untrack_one project specs actual id m)
      (untrack_one-IsSound project specs actual id m h)

pub update_probes-IsSound :
    (f : Format) (project : Text) (desired : List Service) (actual : List ContainerInfo)
    (m : Manager)
    → ManagerIsSound m
    → ManagerIsSound (update_probes f project desired actual m)
unfolding update_probes
update_probes-IsSound f project desired actual m h =
    let tracked = track_all f (spec_by_service desired []) actual m in
    untrack_all-IsSound project (spec_by_service desired []) actual (tracked_ids tracked) tracked
      (track_all-IsSound f (spec_by_service desired []) actual m h)
