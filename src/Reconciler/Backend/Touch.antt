-- ===== src/Reconciler/Backend/Touch.antt =====
-- Which containers the actions of `Compute` touch, and what they leave of them.
use mathlib.Core.Option.{some_inj}
use proxa.Prelude.{
  ◌≡◌, ◌≢◌, ◌⊎◌, inl, inr, refl, sym, ◌∙◌, false, List, Option, none, some, if◌then◌else◌, is_nil,
  Memᴰ, Bool-cases,
}
use proxa.Prelude.Text.{Text, text_eq, text_eq_iff, text_eq_refl}
use proxa.Types.{Service, ContainerInfo}
use proxa.Docker.{label_spec_hash}
use proxa.Hash.{Encoding, hash}
use proxa.Reconciler.Diff.{
  Action, Slot, Reason, Unhealthy, keeps_slot, slot_of, label, remove_action, create_action,
  replace_action, compute,
}
use proxa.Reconciler.Diff.Wanted.{wanted, holder}
use proxa.Reconciler.Diff.Slots.{holder_sound}
use proxa.Reconciler.Diff.Laws.{Justified, dropped, missing, drifted, extra, compute-iff-Justified}
use proxa.Reconciler.Strategy.Calls.{slot_of_action}
use proxa.Reconciler.Backend.{Facts}
use proxa.Reconciler.Backend.Settled.{fresh, assigns, IsReady, touch}

-- Why a container of the runtime has to go.
pub data Gone (enc : Encoding) (desired : List Service) (actual : List ContainerInfo)
    (u : Unhealthy) (c : ContainerInfo) : Type 0 where
  not_kept : (k : Slot) → slot_of c ≡ some k → keeps_slot u c ≡ false → Gone enc desired actual u c
  outdated :
      (k : Slot) (svc : Service)
      → wanted desired k ≡ some svc
      → holder u actual k ≡ some c
      → label label_spec_hash c.labels ≢ hash enc svc.spec
      → Gone enc desired actual u c
  unwanted :
      (k : Slot)
      → wanted desired k ≡ none
      → holder u actual k ≡ some c
      → Gone enc desired actual u c

module _ (enc : Encoding) (new_id : Slot → Text) (k : Slot) (i : Text) where
  touch-remove :
      (id : Text) (why : Reason)
      → touch enc new_id (remove_action k id why) i ≡ (if text_eq id i then some none else none)
  unfolding assigns remove_action
  touch-remove id why = refl

  touch-create :
      (svc : Service) (h : Text)
      → touch enc new_id (create_action k svc h) i
        ≡ (if text_eq (new_id k) i then some (some (fresh k h)) else none)
  unfolding assigns create_action
  touch-create svc h = refl

  touch-replace :
      (svc : Service) (h id : Text)
      → touch enc new_id (replace_action k svc h id) i ≡ (
          if text_eq (new_id k) i
          then some (some (fresh k (hash enc svc.spec)))
          else if text_eq id i
          then some none
          else none)
  unfolding assigns replace_action
  touch-replace svc h id = refl

module _ (enc : Encoding) (desired : List Service) (actual : List ContainerInfo) (u : Unhealthy)
    (new_id : Slot → Text) where
  -- What a touched container is, and what is left of it.
  abbrev pub Touched : Text → Option Facts → Type 0
  Touched i v =
      ((c : ContainerInfo) × Memᴰ c actual × (c.id ≡ i) × Gone enc desired actual u c × (v ≡ none))
      ⊎ ((k : Slot) × (svc : Service) × (wanted desired k ≡ some svc)
          × (new_id k ≡ i)
          × (v ≡ some (fresh k (hash enc svc.spec))))

  Touched-remove :
      (k : Slot) (why : Reason) (c : ContainerInfo) (i : Text) (v : Option Facts)
      → Memᴰ c actual
      → Gone enc desired actual u c
      → touch enc new_id (remove_action k c.id why) i ≡ some v
      → Touched i v
  Touched-remove k why c i v m g t = elim (Bool-cases (text_eq c.id i)) [
    | inl same ↦ inl (
      c,
      m,
      (text_eq_iff c.id i).0 same,
      g,
      sym (some_inj.0 (rw (touch-remove enc new_id k i c.id why, same) at t)),
    )
    | inr other ↦ cc (rw (touch-remove enc new_id k i c.id why, other) at t)
  ]

  Touched-create :
      (k : Slot) (svc : Service) (i : Text) (v : Option Facts)
      → wanted desired k ≡ some svc
      → touch enc new_id (create_action k svc (hash enc svc.spec)) i ≡ some v
      → Touched i v
  Touched-create k svc i v w t = elim (Bool-cases (text_eq (new_id k) i)) [
    | inl same ↦ inr (
      k,
      svc,
      w,
      (text_eq_iff (new_id k) i).0 same,
      sym (some_inj.0 (rw (touch-create enc new_id k i svc (hash enc svc.spec), same) at t)),
    )
    | inr other ↦ cc (rw (touch-create enc new_id k i svc (hash enc svc.spec), other) at t)
  ]

  Touched-replace :
      (k : Slot) (svc : Service) (c : ContainerInfo) (i : Text) (v : Option Facts)
      → wanted desired k ≡ some svc
      → Memᴰ c actual
      → Gone enc desired actual u c
      → touch enc new_id (replace_action k svc (hash enc svc.spec) c.id) i ≡ some v
      → Touched i v
  Touched-replace k svc c i v w m g t =
      let step = touch-replace enc new_id k i svc (hash enc svc.spec) c.id in
      elim (Bool-cases (text_eq (new_id k) i)) [
        | inl made ↦
            inr (
              k,
              svc,
              w,
              (text_eq_iff (new_id k) i).0 made,
              sym (some_inj.0 (rw (step, made) at t)),
            )
        | inr not_made ↦ elim (Bool-cases (text_eq c.id i)) [
          | inl old ↦ inl (
            c,
            m,
            (text_eq_iff c.id i).0 old,
            g,
            sym (some_inj.0 (rw (step, not_made, old) at t)),
          )
          | inr other ↦ cc (rw (step, not_made, other) at t)
        ]
      ]

  Touched-Justified :
      (a : Action) (i : Text) (v : Option Facts)
      → Justified enc desired actual u a
      → touch enc new_id a i ≡ some v
      → Touched i v
  Touched-Justified a i v (dropped (c, k, m, s, f, e)) t =
      Touched-remove k _ c i v m (not_kept k s f) (rw e at t)
  Touched-Justified a i v (missing k svc w h e) t = Touched-create k svc i v w (rw e at t)
  Touched-Justified a i v (drifted k svc c w h ne e) t =
      Touched-replace k svc c i v w (holder_sound u actual k c h).0 (outdated k svc w h ne)
        (rw e at t)
  Touched-Justified a i v (extra k c h w e) t =
      Touched-remove k _ c i v (holder_sound u actual k c h).0 (unwanted k w h) (rw e at t)

  pub touched :
      (a : Action) (i : Text) (v : Option Facts)
      → Memᴰ a (compute enc desired actual u)
      → touch enc new_id a i ≡ some v
      → Touched i v
  touched a i v m t = Touched-Justified a i v ((compute-iff-Justified enc desired actual u a).0 m) t

  abbrev Acts : (Action → Type 0) → Type 0
  Acts P = (a : Action) × Memᴰ a (compute enc desired actual u) × P a

  act : {P : Action → Type 0} (a : Action) → Justified enc desired actual u a → P a → Acts P
  act a j p = (a, (compute-iff-Justified enc desired actual u a).1 j, p)

  -- A container that has to go is touched.
  pub touches-Gone :
      (c : ContainerInfo)
      → Gone enc desired actual u c
      → ((k : Slot) → new_id k ≢ c.id)
      → Memᴰ c actual
      → Acts (λ a. touch enc new_id a c.id ≡ some none)
  touches-Gone c (not_kept k s f) away m =
      act _ (dropped (c, k, m, s, f, refl))
        (touch-remove enc new_id k c.id c.id _ ∙ rw (text_eq_refl c.id) refl)
  touches-Gone c (unwanted k w h) away m =
      act _ (extra k c h w refl)
        (touch-remove enc new_id k c.id c.id _ ∙ rw (text_eq_refl c.id) refl)
  touches-Gone c (outdated k svc w h ne) away m = act _ (drifted k svc c w h ne refl) (
      touch-replace enc new_id k c.id svc (hash enc svc.spec) c.id
      ∙ elim (Bool-cases (text_eq (new_id k) c.id)) [
        | inl same ↦ absurd (away k ((text_eq_iff (new_id k) c.id).0 same))
        | inr other ↦ rw (other, text_eq_refl c.id) refl
      ])

  -- A wanted slot that no container holds, or an outdated one, gets a container.
  pub touches_missing :
      (k : Slot) (svc : Service)
      → wanted desired k ≡ some svc
      → holder u actual k ≡ none
      → Acts (λ a. touch enc new_id a (new_id k) ≡ some (some (fresh k (hash enc svc.spec))))
  touches_missing k svc w h = act _ (missing k svc w h refl) (
      touch-create enc new_id k (new_id k) svc (hash enc svc.spec)
      ∙ rw (text_eq_refl (new_id k)) refl)

  pub touches_outdated :
      (k : Slot) (svc : Service) (c : ContainerInfo)
      → wanted desired k ≡ some svc
      → holder u actual k ≡ some c
      → label label_spec_hash c.labels ≢ hash enc svc.spec
      → Acts (λ a. touch enc new_id a (new_id k) ≡ some (some (fresh k (hash enc svc.spec))))
  touches_outdated k svc c w h ne = act _ (drifted k svc c w h ne refl) (
      touch-replace enc new_id k (new_id k) svc (hash enc svc.spec) c.id
      ∙ rw (text_eq_refl (new_id k)) refl)

  ready_justified :
      ((c : ContainerInfo)
        → Memᴰ c actual
        → (is_nil c.id ≡ false) × ((k : Slot) → text_eq c.id (new_id k) ≡ false))
      → (a : Action) → Justified enc desired actual u a
      → IsReady (new_id (slot_of_action a)) a a.type
  ready_justified ids a (dropped (c, k, m, s, f, e)) = rw e (unfold remove_action in tt)
  ready_justified ids a (missing k svc w h e) = rw e (unfold create_action in tt)
  ready_justified ids a (extra k c h w e) = rw e (unfold remove_action in tt)
  ready_justified ids a (drifted k svc c w h ne e) =
      let (named, away) = ids c (holder_sound u actual k c h).0 in
      rw e (unfold replace_action in (named, away k))

  pub all_ready :
      ((c : ContainerInfo)
        → Memᴰ c actual
        → (is_nil c.id ≡ false) × ((k : Slot) → text_eq c.id (new_id k) ≡ false))
      → (a : Action) → Memᴰ a (compute enc desired actual u)
      → IsReady (new_id (slot_of_action a)) a a.type
  all_ready ids a m = ready_justified ids a ((compute-iff-Justified enc desired actual u a).0 m)
