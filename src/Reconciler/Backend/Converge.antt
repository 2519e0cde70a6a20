-- ===== src/Reconciler/Backend/Converge.antt =====
-- One tick converges, where all goes well.
use mathlib.Core.Option.{some_inj}
use proxa.Prelude.{
  ◌^◌, ◌≡◌, inl, inr, sym, ap, ◌∙◌, true, false, List, [], none, some, Memᴰ, Bool-cases,
  Option-cases,
}
use proxa.Prelude.Int.{pos, ltb_ℤ}
use proxa.Prelude.Text.{Text, text_eq, text_eq_iff}
use proxa.Types.{Service, ContainerInfo}
use proxa.Docker.{label_spec_hash}
use proxa.Hash.{Encoding, hash}
use proxa.Reconciler.Diff.{Action, Slot, Unhealthy, keeps_slot, slot_of, label, compute}
use proxa.Reconciler.Diff.Wanted.{wanted, holder}
use proxa.Reconciler.Diff.Slots.{holder_sound}
use proxa.Reconciler.Diff.Holders.{holder_complete}
use proxa.Reconciler.Diff.Converged.{IsConverged, compute-nil_iff}
use proxa.Reconciler.Backend.{Facts, facts_of, Backend, apply_all}
use proxa.Reconciler.Backend.Aftermath.{
  slot_of_facts, keeps_of_facts, IsOrderly, not_new, ids, same_facts, Old, Old-or_New, new_holds,
  made, stays,
}
use proxa.Reconciler.Backend.Settled.{last_touch}
use proxa.Reconciler.Backend.Touch.{
  not_kept, outdated, unwanted, touched, touches_missing, touches_outdated, all_ready,
}

module _ {W : Type 0} (rt : Backend W) (enc : Encoding) (project : Text) (desired : List Service)
    (u : Unhealthy) (w : W) (new_id : Slot → Text)
    (o : IsOrderly rt project desired u w new_id) where
  abbrev actual : List ContainerInfo
  actual = rt.list_containers project w

  abbrev actions : List Action
  actions = compute enc desired actual u

  abbrev after : W
  after = apply_all rt enc new_id actions w

  abbrev later_actual : List ContainerInfo
  later_actual = rt.list_containers project after

  -- A wanted slot has a container afterwards that keeps it.
  occupied :
      (k : Slot) (svc : Service)
      → wanted desired k ≡ some svc
      → (c : ContainerInfo) × Memᴰ c later_actual × (keeps_slot u c ≡ true) × (slot_of c ≡ some k)
  occupied k svc e = elim (Option-cases (holder u actual k)) [
    | inl none_held ↦
        let (a, m, t) = touches_missing enc desired actual u new_id k svc e none_held in
        made rt enc project desired u w new_id o k svc e a m t
    | inr (c, h) ↦
        elim (Bool-cases (text_eq (label label_spec_hash c.labels) (hash enc svc.spec))) [
          | inr differs ↦
              let (a, m, t) =
                touches_outdated enc desired actual u new_id k svc c e h
                  (λ p. cc (differs, (text_eq_iff _ _).1 p)) in
              made rt enc project desired u w new_id o k svc e a m t
          | inl same_hash ↦ kept k svc c e h ((text_eq_iff _ _).0 same_hash)
        ]
  ]
    where
      kept :
          (k : Slot) (svc : Service) (c : ContainerInfo)
          → wanted desired k ≡ some svc
          → holder u actual k ≡ some c
          → label label_spec_hash c.labels ≡ hash enc svc.spec
          → (c : ContainerInfo) × Memᴰ c later_actual
            × (keeps_slot u c ≡ true)
            × (slot_of c ≡ some k)
      kept k svc c e h l =
          let (n, keeps, slot) = holder_sound u actual k c h in
          elim (last_touch rt enc new_id actions w c.id
            (all_ready enc desired actual u new_id (ids rt enc project desired u w new_id o))) [
              | inl (a, at, t) ↦ elim (touched enc desired actual u new_id a c.id _ at t) [
                | inl (d, m, i, gone, nothing) ↦
                    absurd (stays rt enc project desired u w new_id o k svc c d e h l m i gone)
                | inr (j, other, e', i, f) ↦
                    absurd (not_new rt enc project desired u w new_id o c n j i)
              ]
              | inr (none_touches, same) ↦
                  let (seen, inside) = rt.listed project w c n in
                  let (d, m, i, f) =
                    rt.lists project after c.id (facts_of c) (same ∙ seen) inside in
                  (d, m, keeps_of_facts u d c i f ∙ keeps, slot_of_facts d c f ∙ slot)
            ]

  -- The holder from before that an old container stands for.
  held_before :
      (c : ContainerInfo) (k : Slot)
      → Old rt enc project desired u w new_id o c
      → keeps_slot u c ≡ true
      → slot_of c ≡ some k
      → (x : ContainerInfo) × (holder u actual k ≡ some x) × Memᴰ x actual × (x.id ≡ c.id)
  held_before c k (d, n, i, f, ok) keeps slot =
      let kd = keeps_of_facts u d c i f ∙ keeps in
      let sd = slot_of_facts d c f ∙ slot in
      let (x, h) = holder_complete u actual k d n kd sd in
      let (m, kx, sx) = holder_sound u actual k x h in
      (x, h, m, o.one_each x d k m n kx kd sx sd ∙ i)

  up_to_date_hash :
      (c : ContainerInfo) (k : Slot) (svc : Service)
      → Memᴰ c later_actual
      → keeps_slot u c ≡ true
      → slot_of c ≡ some k
      → wanted desired k ≡ some svc
      → label label_spec_hash c.labels ≡ hash enc svc.spec
  up_to_date_hash c k svc m keeps slot e =
      elim (Old-or_New rt enc project desired u w new_id o c m) [
        | inl old ↦
            let (x, h, n, i) = held_before c k old keeps slot in
            let (d, l, j, f, ok) = old in
            elim (Bool-cases (text_eq (label label_spec_hash x.labels) (hash enc svc.spec))) [
              | inl same ↦
                  ap (λ (y : Facts). label label_spec_hash y.labels)
                    (sym f ∙ same_facts rt enc project desired u w new_id o d x l n (j ∙ sym i))
                  ∙ (text_eq_iff _ _).0 same
              | inr differs ↦
                  absurd (ok x n i (outdated k svc e h (λ p. cc (differs, (text_eq_iff _ _).1 p))))
            ]
        | inr (j, svc', e', i, f) ↦
            let (kj, sj, hj) = new_holds rt enc project desired u w new_id o c j svc' e' i f in
            let same_slot : j ≡ k = some_inj.0 (sym sj ∙ slot) in
            let same_service : svc' ≡ svc =
              some_inj.0 (sym e' ∙ ap (wanted desired) same_slot ∙ e) in
            hj ∙ ap (λ s. hash enc s.spec) same_service
      ]

  converged : IsConverged enc desired later_actual u
  converged = record {
    none_dropped = λ c k m s. elim (Old-or_New rt enc project desired u w new_id o c m) [
      | inl (d, n, i, f, ok) ↦ elim (Bool-cases (keeps_slot u d)) [
        | inl kept ↦ sym (keeps_of_facts u d c i f) ∙ kept
        | inr gone ↦ absurd (ok d n i (not_kept k (slot_of_facts d c f ∙ s) gone))
      ]
      | inr (k', svc, e, i, f) ↦ (new_holds rt enc project desired u w new_id o c k' svc e i f).0
    ];
    up_to_date = λ k svc e.
        let (c, m, keeps, slot) = occupied k svc e in
        let (d, h) = holder_complete u later_actual k c m keeps slot in
        let (n, kd, sd) = holder_sound u later_actual k d h in
        (d, h, up_to_date_hash d k svc n kd sd e);
    none_extra = λ k e. elim (Option-cases (holder u later_actual k)) [
      | inl none_held ↦ none_held
      | inr (c, h) ↦
          let (m, keeps, slot) = holder_sound u later_actual k c h in
          elim (Old-or_New rt enc project desired u w new_id o c m) [
            | inl old ↦
                let (x, hx, n, i) = held_before c k old keeps slot in
                absurd (old.4 x n i (unwanted k e hx))
            | inr (j, svc, e', i, f) ↦
                let (kj, sj, hj) = new_holds rt enc project desired u w new_id o c j svc e' i f in
                let same_slot : j ≡ k = some_inj.0 (sym sj ∙ slot) in
                cc (e, e', ap (wanted desired) same_slot)
          ]
    ];
  }

module _ {W : Type 0} (rt : Backend W) (enc : Encoding) (project : Text) (desired : List Service)
    (u : Unhealthy) (w : W) (new_id : Slot → Text)
    (in_project : (s : Service) → Memᴰ s desired → s.project ≡ project)
    (replicas_fit : (s : Service) → Memᴰ s desired → ltb_ℤ s.spec.replicas (pos (2 ^ 63)) ≡ true)
    (one_each : (c d : ContainerInfo) (k : Slot)
      → Memᴰ c (rt.list_containers project w)
      → Memᴰ d (rt.list_containers project w)
      → keeps_slot u c ≡ true
      → keeps_slot u d ≡ true
      → slot_of c ≡ some k
      → slot_of d ≡ some k
      → c.id ≡ d.id)
    (no_empty_id : rt.view w [] ≡ none) (unused : (k : Slot) → rt.view w (new_id k) ≡ none)
    (distinct : (j k : Slot) → new_id j ≡ new_id k → j ≡ k)
    (starts_well : (k : Slot) → u (new_id k) ≡ false) where
  -- One tick converges: where every service is of the project and its number of replicas fits in an int64,
  -- no two containers keep one slot, every id is in use once and not empty, the new containers get ids
  -- that were not in use and pass their probes, and every call succeeds, the diff has nothing left to do
  -- once the actions of a tick are applied.
  pub apply_all-compute :
      compute enc desired
        (rt.list_containers project
          (apply_all rt enc new_id (compute enc desired (rt.list_containers project w) u) w))
        u
      ≡ []
  apply_all-compute = (compute-nil_iff enc desired _ u).1 (
      converged rt enc project desired u w new_id (record {
        in_project = in_project;
        replicas_fit = replicas_fit;
        one_each = one_each;
        no_empty_id = no_empty_id;
        unused = unused;
        distinct = distinct;
        starts_well = starts_well;
      }))
