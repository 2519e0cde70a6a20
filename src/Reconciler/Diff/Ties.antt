-- ===== src/Reconciler/Diff/Ties.antt =====
-- Two cases that the order and the maps of `Compute` leave open.
use mathlib.Core.Option.{some_inj}
use proxa.Prelude.{
  ◌≡◌, ◌≢◌, refl, sym, ap, ◌∙◌, true, false, List, none, some, arith, Memᴰ, Ordering,
}
use proxa.Types.{Service, ContainerInfo}
use proxa.Hash.{Encoding, hash}
use proxa.Reconciler.Diff.{
  Action, Slot, Unhealthy, keeps_slot, slot_of, create_action, replace_action, remove_action,
  compute, compare_actions, create,
}
use proxa.Reconciler.Diff.Wanted.{wanted, holder}
use proxa.Reconciler.Diff.Slots.{removal, holder_sound}
use proxa.Reconciler.Diff.Laws.{Justified, dropped, missing, drifted, extra, compute-iff-Justified}
use proxa.Reconciler.Diff.Order.{compare_actions-IsOrder}

compare_self : (a : Action) → compare_actions a a ≡ Ordering.eq
compare_self a = ground (arith, compare_actions-IsOrder.swap_eq a a)

same_key :
    (a b : Action)
    → a.project ≡ b.project
    → a.service ≡ b.service
    → a.replica ≡ b.replica
    → compare_actions a b ≡ compare_actions a a
unfolding compare_actions
same_key a b p q r = cc

-- When a container of a wanted slot is not active or is past its retries, and no other container holds
-- the slot, `Compute` returns both its removal and the creation of its successor, and the comparison
-- that orders the actions does not tell the two apart.
removal_ties_create :
    (enc : Encoding) (desired : List Service) (actual : List ContainerInfo) (u : Unhealthy)
    (c : ContainerInfo) (k : Slot) (svc : Service)
    → Memᴰ c actual
    → slot_of c ≡ some k
    → keeps_slot u c ≡ false
    → wanted desired k ≡ some svc
    → holder u actual k ≡ none
    → let old = removal u k c in
      let new = create_action k svc (hash enc svc.spec) in
      Memᴰ old (compute enc desired actual u)
      × Memᴰ new (compute enc desired actual u)
      × (compare_actions old new ≡ Ordering.eq)
unfolding remove_action create_action
removal_ties_create enc desired actual u c k svc m s f w h =
    let old = removal u k c in
    let new = create_action k svc (hash enc svc.spec) in
    (
      (compute-iff-Justified enc desired actual u old).1 (dropped (c, k, m, s, f, refl)),
      (compute-iff-Justified enc desired actual u new).1 (missing k svc w h refl),
      same_key old new refl refl refl ∙ compare_self old,
    )

module _ (enc : Encoding) (desired : List Service) (actual : List ContainerInfo) (u : Unhealthy)
    (c d : ContainerInfo) (k : Slot) where
  -- Two containers keep the same slot and `d` holds it: then no action but a creation is about `c`, so
  -- the duplicate `c` is neither removed nor replaced, whatever is desired. IDs are those of one
  -- container each.
  pub duplicate_ignored :
      ((x y : ContainerInfo) → Memᴰ x actual → Memᴰ y actual → x.id ≡ y.id → x ≡ y)
      → Memᴰ c actual
      → slot_of c ≡ some k
      → keeps_slot u c ≡ true
      → holder u actual k ≡ some d
      → d.id ≢ c.id
      → (a : Action) → Memᴰ a (compute enc desired actual u)
      → a.type ≢ create
      → a.container_id ≢ c.id
  duplicate_ignored unique m s keeps h ne a mem not_create same =
      about (((compute-iff-Justified enc desired actual u a).0 mem))
    where
      held_elsewhere : (j : Slot) (x : ContainerInfo) → holder u actual j ≡ some x → x.id ≡ c.id → ⊥
      held_elsewhere j x hx p =
          let (mx, kx, sx) = holder_sound u actual j x hx in
          let e : x ≡ c = unique x c mx m p in
          let slots : j ≡ k = some_inj.0 (sym sx ∙ ap slot_of e ∙ s) in
          let both : x ≡ d = some_inj.0 (sym hx ∙ ap (holder u actual) slots ∙ h) in
          ne (ap (λ (y : ContainerInfo). y.id) (sym both) ∙ p)

      about : Justified enc desired actual u a → ⊥
      about (dropped (x, j, mx, sx, f, e)) =
          let p : x.id ≡ c.id =
            unfold remove_action in (sym (ap (λ (y : Action). y.container_id) e) ∙ same) in
          cc (ap (keeps_slot u) (unique x c mx m p), keeps, f)
      about (missing j svc w hx e) =
          not_create (unfold create_action in ap (λ (y : Action). y.type) e)
      about (drifted j svc x w hx differs e) =
          held_elsewhere j x hx
            (unfold replace_action in (sym (ap (λ (y : Action). y.container_id) e) ∙ same))
      about (extra j x hx w e) =
          held_elsewhere j x hx
            (unfold remove_action in (sym (ap (λ (y : Action). y.container_id) e) ∙ same))
