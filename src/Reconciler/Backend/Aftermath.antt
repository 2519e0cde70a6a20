-- ===== src/Reconciler/Backend/Aftermath.antt =====
-- What one tick leaves, where all goes well: the old containers and the new ones.
use mathlib.Core.Option.{some_inj}
use proxa.Prelude.{
  ◌^◌, ◌≡◌, ◌≢◌, ◌⊎◌, inl, inr, refl, sym, ap, ◌∙◌, true, false, List, [], ◌∷◌, none, some, is_nil,
  Memᴰ, Bool-cases,
}
use proxa.Prelude.Int.{pos, ltb_ℤ}
use proxa.Prelude.Text.{Text, text_eq, text_eq_iff, atoi, show_ℤ}
use proxa.Types.{Service, ContainerInfo}
use proxa.Docker.{label_project, label_spec_hash}
use proxa.Hash.{Encoding, hash}
use proxa.Reconciler.Diff.{Action, Slot, Unhealthy, keeps_slot, slot_of, label, is_active, compute}
use proxa.Reconciler.Diff.Wanted.{wanted, holder}
use proxa.Reconciler.Diff.Slots.{holder_sound}
use proxa.Reconciler.Diff.Holders.{
  wanted_sound, wants-project, wants-replica, slot_of-made, hash-made, project-made,
}
use proxa.Reconciler.Backend.{Facts, facts_of, Backend, apply_all}
use proxa.Reconciler.Backend.Settled.{fresh, touch, last_touch}
use proxa.Reconciler.Backend.Touch.{
  Gone, not_kept, outdated, unwanted, touched, touches-Gone, all_ready,
}

pub slot_of_facts : (c d : ContainerInfo) → facts_of c ≡ facts_of d → slot_of c ≡ slot_of d
unfolding slot_of
slot_of_facts c d e = rw (ap (λ (f : Facts). f.labels) e) refl

pub keeps_of_facts :
    (u : Unhealthy) (c d : ContainerInfo)
    → c.id ≡ d.id
    → facts_of c ≡ facts_of d
    → keeps_slot u c ≡ keeps_slot u d
unfolding keeps_slot
keeps_of_facts u c d i e = rw (i, ap (λ (f : Facts). f.state) e) refl

keeps_fresh :
    (u : Unhealthy) (c : ContainerInfo) (k : Slot) (h : Text)
    → facts_of c ≡ fresh k h
    → u c.id ≡ false
    → keeps_slot u c ≡ true
unfolding keeps_slot is_active text_eq
keeps_fresh u c k h e f = rw (ap (λ (f : Facts). f.state) e, f) refl

-- What the world before a tick has to satisfy.
pub record IsOrderly {W : Type 0} (rt : Backend W) (project : Text) (desired : List Service)
    (u : Unhealthy) (w : W) (new_id : Slot → Text) : Type 0 where
  pub in_project : (s : Service) → Memᴰ s desired → s.project ≡ project
  pub replicas_fit : (s : Service) → Memᴰ s desired → ltb_ℤ s.spec.replicas (pos (2 ^ 63)) ≡ true
  pub one_each :
      (c d : ContainerInfo) (k : Slot)
      → Memᴰ c (rt.list_containers project w)
      → Memᴰ d (rt.list_containers project w)
      → keeps_slot u c ≡ true
      → keeps_slot u d ≡ true
      → slot_of c ≡ some k
      → slot_of d ≡ some k
      → c.id ≡ d.id
  pub no_empty_id : rt.view w [] ≡ none
  pub unused : (k : Slot) → rt.view w (new_id k) ≡ none
  pub distinct : (j k : Slot) → new_id j ≡ new_id k → j ≡ k
  pub starts_well : (k : Slot) → u (new_id k) ≡ false

module _ {W : Type 0} (rt : Backend W) (enc : Encoding) (project : Text) (desired : List Service)
    (u : Unhealthy) (w : W) (new_id : Slot → Text)
    (o : IsOrderly rt project desired u w new_id) where
  abbrev pub actual : List ContainerInfo
  actual = rt.list_containers project w

  abbrev pub actions : List Action
  actions = compute enc desired actual u

  abbrev pub after : W
  after = apply_all rt enc new_id actions w

  abbrev pub later_actual : List ContainerInfo
  later_actual = rt.list_containers project after

  pub not_new : (c : ContainerInfo) → Memᴰ c actual → (k : Slot) → new_id k ≢ c.id
  not_new c m k e = cc ((rt.listed project w c m).0, ap (rt.view w) e, o.unused k)

  pub ids :
      (c : ContainerInfo)
      → Memᴰ c actual
      → (is_nil c.id ≡ false) × ((k : Slot) → text_eq c.id (new_id k) ≡ false)
  ids c m = (has_id c.id refl, apart)
    where
      has_id : (id : Text) → c.id ≡ id → is_nil id ≡ false
      has_id [] e = cc ((rt.listed project w c m).0, ap (rt.view w) e, o.no_empty_id)
      has_id (x ∷ id) e = refl

      apart : (k : Slot) → text_eq c.id (new_id k) ≡ false
      apart k = elim (Bool-cases (text_eq c.id (new_id k))) [
        | inl same ↦ absurd (not_new c m k (sym ((text_eq_iff c.id (new_id k)).0 same)))
        | inr other ↦ other
      ]

  -- Two listed containers with one id show the same facts.
  pub same_facts :
      (c d : ContainerInfo) → Memᴰ c actual → Memᴰ d actual → c.id ≡ d.id → facts_of c ≡ facts_of d
  same_facts c d m n e =
      some_inj.0 (sym (rt.listed project w c m).0 ∙ ap (rt.view w) e ∙ (rt.listed project w d n).0)

  abbrev pub Old : ContainerInfo → Type 0
  Old c =
      (d : ContainerInfo) × Memᴰ d actual
      × (d.id ≡ c.id)
      × (facts_of d ≡ facts_of c)
      × ((x : ContainerInfo) → Memᴰ x actual → x.id ≡ c.id → ¬ Gone enc desired actual u x)

  abbrev pub New : ContainerInfo → Type 0
  New c =
      (k : Slot) × (svc : Service) × (wanted desired k ≡ some svc)
      × (new_id k ≡ c.id)
      × (facts_of c ≡ fresh k (hash enc svc.spec))

  -- A container that is listed afterwards was there before and may stay, or was made for a wanted slot.
  pub Old-or_New : (c : ContainerInfo) → Memᴰ c later_actual → Old c ⊎ New c
  Old-or_New c m =
      let (seen, inside) = rt.listed project after c m in
      elim (last_touch rt enc new_id actions w c.id (all_ready enc desired actual u new_id ids)) [
        | inl (a, at, t) ↦ elim (touched enc desired actual u new_id a c.id _ at t) [
          | inl (d, n, same, gone, nothing) ↦ cc (seen, nothing)
          | inr (k, svc, wants, same, made) ↦
              inr (k, svc, wants, same, some_inj.0 (sym seen ∙ made))
        ]
        | inr (none_touches, same) ↦
            let (d, n, i, f) = rt.lists project w c.id (facts_of c) (sym same ∙ seen) inside in
            inl (
              d,
              n,
              i,
              f,
              λ x l same_id gone.
                  let (a, at, t) =
                    touches-Gone enc desired actual u new_id x gone (not_new x l) l in
                  cc (none_touches a at, t, ap (touch enc new_id a) same_id),
            )
      ]

  reads_back :
      (k : Slot) (svc : Service)
      → wanted desired k ≡ some svc
      → atoi (show_ℤ k.replica) ≡ some k.replica
  reads_back k svc e =
      let (m, wants) = wanted_sound desired k svc e in
      wants-replica svc k wants (o.replicas_fit svc m)

  pub new_holds :
      (c : ContainerInfo) (k : Slot) (svc : Service)
      → wanted desired k ≡ some svc
      → new_id k ≡ c.id
      → facts_of c ≡ fresh k (hash enc svc.spec)
      → (keeps_slot u c ≡ true)
        × (slot_of c ≡ some k)
        × (label label_spec_hash c.labels ≡ hash enc svc.spec)
  new_holds c k svc e i f =
      let labels = ap (λ (x : Facts). x.labels) f in
      (
        keeps_fresh u c k (hash enc svc.spec) f (sym (ap u i) ∙ o.starts_well k),
        slot_of-made c k (hash enc svc.spec) labels (reads_back k svc e),
        ap (label label_spec_hash) labels ∙ hash-made k (hash enc svc.spec),
      )

  -- A slot for which an action makes a container has that container afterwards.
  pub made :
      (k : Slot) (svc : Service)
      → wanted desired k ≡ some svc
      → (a : Action) → Memᴰ a actions
      → touch enc new_id a (new_id k) ≡ some (some (fresh k (hash enc svc.spec)))
      → (c : ContainerInfo) × Memᴰ c later_actual × (keeps_slot u c ≡ true) × (slot_of c ≡ some k)
  made k svc e a m t =
      elim (last_touch rt enc new_id actions w (new_id k)
        (all_ready enc desired actual u new_id ids)) [
          | inr (none_touches, same) ↦ cc (none_touches a m, t)
          | inl (b, n, s) ↦ elim (touched enc desired actual u new_id b (new_id k) _ n s) [
            | inl (d, l, i, gone, nothing) ↦ absurd (not_new d l k (sym i))
            | inr (j, svc', e', i, f) ↦
                let same_slot : j ≡ k = o.distinct j k i in
                let same_service : svc' ≡ svc =
                  some_inj.0 (sym e' ∙ ap (wanted desired) same_slot ∙ e) in
                let f' : rt.view after (new_id k) ≡ some (fresh k (hash enc svc.spec)) =
                  f ∙ rw (same_slot, same_service) refl in
                let (s_in, wants) = wanted_sound desired k svc e in
                let here : label label_project (fresh k (hash enc svc.spec)).labels ≡ project =
                  project-made k (hash enc svc.spec)
                  ∙ sym (wants-project svc k wants)
                  ∙ o.in_project svc s_in in
                let (c, l, ic, fc) =
                  rt.lists project after (new_id k) (fresh k (hash enc svc.spec)) f' here in
                let (keeps, slot, h) = new_holds c k svc e (sym ic) fc in (c, l, keeps, slot)
          ]
        ]

  -- A holder that is up to date does not have to go.
  pub stays :
      (k : Slot) (svc : Service) (c d : ContainerInfo)
      → wanted desired k ≡ some svc
      → holder u actual k ≡ some c
      → label label_spec_hash c.labels ≡ hash enc svc.spec
      → Memᴰ d actual
      → d.id ≡ c.id
      → ¬ Gone enc desired actual u d
  stays k svc c d e h l m i gone =
      let (n, keeps, slot) = holder_sound u actual k c h in
      let f = same_facts d c m n i in
      let slot_d : slot_of d ≡ some k = slot_of_facts d c f ∙ slot in
      elim gone [
        | not_kept j s x ↦ cc (keeps_of_facts u d c i f, keeps, x)
        | outdated j svc' e' h' ne ↦
            let same_slot : j ≡ k = some_inj.0 (sym (holder_sound u actual j d h').2 ∙ slot_d) in
            let same_service : svc' ≡ svc =
              some_inj.0 (sym e' ∙ ap (wanted desired) same_slot ∙ e) in
            ne (ap (λ (x : Facts). label label_spec_hash x.labels) f ∙ l ∙ rw same_service refl)
        | unwanted j e' h' ↦
            let same_slot : j ≡ k = some_inj.0 (sym (holder_sound u actual j d h').2 ∙ slot_d) in
            cc (e', e, ap (wanted desired) same_slot)
      ]
