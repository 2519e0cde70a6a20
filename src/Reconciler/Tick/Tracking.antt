-- ===== src/Reconciler/Tick/Tracking.antt =====
-- What a tick leaves in the probe manager.
use proxa.Prelude.{
  ◌≡◌, inl, inr, refl, ap, ◌∙◌, Bool, true, false, ◌&&◌, List, [], ◌∷◌, Option, none, some, any,
  arith, Bool-cases,
}
use proxa.Prelude.Text.{Text, text_eq, text_eq_iff}
use proxa.Prelude.Maps.{Map, lookup, text-Eq}
use proxa.Types.{TaskDef, Service, ContainerInfo}
use proxa.Docker.{label_service}
use proxa.Probe.{Manager, Format, tracked_ids}
use proxa.Probe.Track.{track-other, untrack-other}
use proxa.Reconciler.Diff.{label, is_active}
use proxa.Reconciler.Tick.{
  spec_by_service, track_spec, track_one, track_all, counts, untrack_one, untrack_all,
  update_probes,
}

abbrev listed : Text → List ContainerInfo → Bool
listed id actual = any (λ c. text_eq c.id id) actual

track_spec-other :
    (f : Format) (id j : Text) (m : Manager) (o : Option TaskDef)
    → text_eq id j ≡ false
    → lookup j (track_spec f id m o).entries ≡ lookup j m.entries
unfolding track_spec
track_spec-other f id j m none ne = refl
track_spec-other f id j m (some spec) ne = track-other f id j spec m ne

track_one-other :
    (f : Format) (specs : Map Text TaskDef) (c : ContainerInfo) (m : Manager) (j : Text)
    → text_eq c.id j ≡ false
    → lookup j (track_one f specs c m).entries ≡ lookup j m.entries
unfolding track_one
track_one-other f specs c m j ne = elim (Bool-cases (is_active c.state)) [
  | inl e ↦ rw e (track_spec-other f c.id j m (lookup (label label_service c.labels) specs) ne)
  | inr e ↦ rw e refl
]

track_all-other :
    (f : Format) (specs : Map Text TaskDef) (l : List ContainerInfo) (m : Manager) (j : Text)
    → listed j l ≡ false
    → lookup j (track_all f specs l m).entries ≡ lookup j m.entries
unfolding track_all
track_all-other f specs [] m j h = refl
track_all-other f specs (c ∷ l) m j h =
    track_all-other f specs l (track_one f specs c m) j (ground arith)
    ∙ track_one-other f specs c m j (ground arith)

differs :
    (id j : Text) (l : List ContainerInfo)
    → listed id l ≡ true
    → listed j l ≡ false
    → text_eq id j ≡ false
differs id j l h k = elim (Bool-cases (text_eq id j)) [
  | inl e ↦ cc (ap (λ x. listed x l) ((text_eq_iff id j).0 e), h, k)
  | inr e ↦ e
]

untrack_one-other :
    (project : Text) (specs : Map Text TaskDef) (actual : List ContainerInfo) (id : Text)
    (m : Manager) (j : Text)
    → listed j actual ≡ false
    → lookup j (untrack_one project specs actual id m).entries ≡ lookup j m.entries
unfolding untrack_one
untrack_one-other project specs actual id m j h =
    elim (Bool-cases (any (λ c. text_eq c.id id && counts project specs c) actual)) [
      | inl e ↦ rw e refl
      | inr e ↦ elim (Bool-cases (listed id actual)) [
        | inl g ↦ rw e (rw g (untrack-other id j m (differs id j actual g h)))
        | inr g ↦ rw e (rw g refl)
      ]
    ]

untrack_all-other :
    (project : Text) (specs : Map Text TaskDef) (actual : List ContainerInfo) (ids : List Text)
    (m : Manager) (j : Text)
    → listed j actual ≡ false
    → lookup j (untrack_all project specs actual ids m).entries ≡ lookup j m.entries
unfolding untrack_all
untrack_all-other project specs actual [] m j h = refl
untrack_all-other project specs actual (id ∷ ids) m j h =
    untrack_all-other project specs actual ids (untrack_one project specs actual id m) j h
    ∙ untrack_one-other project specs actual id m j h

-- A tick does not touch the entry of a container that is not in the list of the runtime: one that
-- is tracked and gone stays tracked.
pub update_probes-keeps_gone :
    (f : Format) (project : Text) (desired : List Service) (actual : List ContainerInfo)
    (m : Manager) (id : Text)
    → any (λ c. text_eq c.id id) actual ≡ false
    → lookup id (update_probes f project desired actual m).entries ≡ lookup id m.entries
unfolding update_probes
update_probes-keeps_gone f project desired actual m id h =
    let specs = spec_by_service desired [] in
    let tracked = track_all f specs actual m in
    untrack_all-other project specs actual (tracked_ids tracked) tracked id h
    ∙ track_all-other f specs actual m id h
