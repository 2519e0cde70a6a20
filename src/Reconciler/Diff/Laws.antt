-- ===== src/Reconciler/Diff/Laws.antt =====
-- `Compute` against its specification: which actions it returns.
use mathlib.Core.List.Memᴰ
use proxa.Prelude.{
  ◌≡◌, ◌≢◌, ◌↔◌, inl, inr, refl, sym, ◌∙◌, List, [], ◌++◌, Option, none, some, Bool-cases, Memᴰ,
}
use proxa.Prelude.Text.{text_eq, text_eq_iff}
use proxa.Prelude.Maps.{lookup}
use proxa.Prelude.Maps.Keys.{mem_of_lookup, lookup_of_mem}
use proxa.Prelude.Sort.Laws.{mem_of_sort, mem-sort}
use proxa.Types.{Service, ContainerInfo}
use proxa.Docker.{label_spec_hash}
use proxa.Hash.{Encoding, hash}
use proxa.Reconciler.Diff.{
  Action, Slot, slot-Eq, Unhealthy, Actual, Desired, label, scan_actual, desired_set, create_action,
  replace_action, remove_action, more_than_desired, for_desired, pass1, for_actual, pass2, unsorted,
  compute, compare_actions,
}
use proxa.Reconciler.Diff.Wanted.{wanted, holder, lookup-desired_set, desired_set-IsDistinct}
use proxa.Reconciler.Diff.Slots.{
  lookup-scan_actual, scan_actual-IsDistinct, Dropped, actions_of_scan, scan_of_dropped,
}
use proxa.Reconciler.Diff.Passes.{
  for_desired-drift, pass1-sound, pass1-complete, pass2-complete, pass2-sound,
}

-- The actions that the desired services and the containers call for.
pub data Justified (enc : Encoding) (desired : List Service) (actual : List ContainerInfo)
    (u : Unhealthy) (a : Action) : Type 0 where
  -- a container that names a slot and is not active, or is past its retries
  dropped : Dropped u actual a → Justified enc desired actual u a
  -- a wanted slot that no container holds
  missing :
      (k : Slot) (svc : Service)
      → wanted desired k ≡ some svc
      → holder u actual k ≡ none
      → a ≡ create_action k svc (hash enc svc.spec)
      → Justified enc desired actual u a
  -- a wanted slot whose holder was made from another specification
  drifted :
      (k : Slot) (svc : Service) (c : ContainerInfo)
      → wanted desired k ≡ some svc
      → holder u actual k ≡ some c
      → label label_spec_hash c.labels ≢ hash enc svc.spec
      → a ≡ replace_action k svc (hash enc svc.spec) c.id
      → Justified enc desired actual u a
  -- the holder of a slot that no service wants
  extra :
      (k : Slot) (c : ContainerInfo)
      → holder u actual k ≡ some c
      → wanted desired k ≡ none
      → a ≡ remove_action k c.id more_than_desired
      → Justified enc desired actual u a

module _ (enc : Encoding) (desired : List Service) (actual : List ContainerInfo)
    (u : Unhealthy) where
  abbrev wants : Desired
  wants = desired_set desired []

  abbrev held : Actual
  held = (scan_actual u actual ([], [])).0

  desired_sound :
      (k : Slot) (svc : Service) (o : Option ContainerInfo) (a : Action)
      → wanted desired k ≡ some svc
      → holder u actual k ≡ o
      → Memᴰ a (for_desired k svc (hash enc svc.spec) o)
      → Justified enc desired actual u a
  unfolding for_desired
  desired_sound k svc none a w e m = missing k svc w e (Memᴰ.eq_of_singleton m)
  desired_sound k svc (some c) a w e m =
      elim (Bool-cases (text_eq (label label_spec_hash c.labels) (hash enc svc.spec))) [
        | inl same ↦ absurd (Memᴰ.not-nil (rw same at m))
        | inr differs ↦
            drifted k svc c w e (λ p. cc (differs, (text_eq_iff _ _).1 p))
              (Memᴰ.eq_of_singleton (rw differs at m))
      ]

  actual_sound :
      (k : Slot) (c : ContainerInfo) (o : Option Service) (a : Action)
      → holder u actual k ≡ some c
      → wanted desired k ≡ o
      → Memᴰ a (for_actual k c o)
      → Justified enc desired actual u a
  unfolding for_actual
  actual_sound k c none a h w m = extra k c h w (Memᴰ.eq_of_singleton m)
  actual_sound k c (some svc) a h w m = absurd (Memᴰ.not-nil m)

  wanted_of_mem : (k : Slot) (svc : Service) → Memᴰ (k, svc) wants → wanted desired k ≡ some svc
  wanted_of_mem k svc m =
      sym (lookup-desired_set desired k)
      ∙ lookup_of_mem k svc wants (desired_set-IsDistinct desired [] tt) m

  held_of_mem : (k : Slot) (c : ContainerInfo) → Memᴰ (k, c) held → holder u actual k ≡ some c
  held_of_mem k c m =
      sym (lookup-scan_actual u actual k)
      ∙ lookup_of_mem k c held (scan_actual-IsDistinct u actual [] [] tt) m

  unsorted_sound :
      (a : Action) → Memᴰ a (unsorted enc desired actual u) → Justified enc desired actual u a
  unfolding unsorted
  unsorted_sound a m = elim (Memᴰ.append_cases (scan_actual u actual ([], [])).1 m) [
    | inl first ↦ elim (actions_of_scan u actual [] [] a first) [
      | inl old ↦ absurd (Memᴰ.not-nil old)
      | inr d ↦ dropped d
    ]
    | inr later ↦ elim (Memᴰ.append_cases (pass1 enc held wants) later) [
      | inl one ↦
          let (k, svc, at, mem) = pass1-sound enc held wants a one in
          desired_sound k svc (lookup k held) a (wanted_of_mem k svc at)
            (sym (lookup-scan_actual u actual k)) mem
      | inr two ↦
          let (k, c, at, mem) = pass2-sound wants held a two in
          actual_sound k c (lookup k wants) a (held_of_mem k c at)
            (sym (lookup-desired_set desired k)) mem
    ]
  ]

  missing-mem :
      (k : Slot) (svc : Service)
      → wanted desired k ≡ some svc
      → holder u actual k ≡ none
      → Memᴰ (create_action k svc (hash enc svc.spec)) (unsorted enc desired actual u)
  unfolding unsorted
  missing-mem k svc w h = Memᴰ.append_right (scan_actual u actual ([], [])).1 (
      Memᴰ.append_left (pass2 wants held) (
        pass1-complete enc held wants _ k svc
          (mem_of_lookup k svc wants (lookup-desired_set desired k ∙ w))
          (rw (lookup-scan_actual u actual k, h) (unfold for_desired in Memᴰ.head refl))))

  drifted-mem :
      (k : Slot) (svc : Service) (c : ContainerInfo)
      → wanted desired k ≡ some svc
      → holder u actual k ≡ some c
      → label label_spec_hash c.labels ≢ hash enc svc.spec
      → Memᴰ (replace_action k svc (hash enc svc.spec) c.id) (unsorted enc desired actual u)
  unfolding unsorted
  drifted-mem k svc c w h ne = Memᴰ.append_right (scan_actual u actual ([], [])).1 (
      Memᴰ.append_left (pass2 wants held) (
        pass1-complete enc held wants _ k svc
          (mem_of_lookup k svc wants (lookup-desired_set desired k ∙ w))
          (rw (lookup-scan_actual u actual k, h) (for_desired-drift enc k svc c ne))))

  extra-mem :
      (k : Slot) (c : ContainerInfo)
      → holder u actual k ≡ some c
      → wanted desired k ≡ none
      → Memᴰ (remove_action k c.id more_than_desired) (unsorted enc desired actual u)
  unfolding unsorted
  extra-mem k c h w = Memᴰ.append_right (scan_actual u actual ([], [])).1 (
      Memᴰ.append_right (pass1 enc held wants) (
        pass2-complete wants held _ k c (mem_of_lookup k c held (lookup-scan_actual u actual k ∙ h))
          (rw (lookup-desired_set desired k, w) (unfold for_actual in Memᴰ.head refl))))

  unsorted-complete :
      (a : Action) → Justified enc desired actual u a → Memᴰ a (unsorted enc desired actual u)
  unsorted-complete a (dropped (c, k, m, s, f, e)) = rw e (
      unfold unsorted in
      Memᴰ.append_left (pass1 enc held wants ++ pass2 wants held)
        (scan_of_dropped u actual [] [] c k m s f))
  unsorted-complete a (missing k svc w h e) = rw e (missing-mem k svc w h)
  unsorted-complete a (drifted k svc c w h ne e) = rw e (drifted-mem k svc c w h ne)
  unsorted-complete a (extra k c h w e) = rw e (extra-mem k c h w)

  -- `Compute` returns an action exactly when the desired services, the containers and the probes call for
  -- it: it removes each container that names a slot and is not active or is past its retries; creates a
  -- replica for each wanted slot that no container holds; replaces the holder of a wanted slot whose
  -- label has another hash; and removes the holder of a slot that no service wants.
  pub compute-iff-Justified :
      (a : Action) → Memᴰ a (compute enc desired actual u) ↔ Justified enc desired actual u a
  unfolding compute
  compute-iff-Justified a = (
    (λ m. unsorted_sound a (mem_of_sort compare_actions a (unsorted enc desired actual u) m)),
    (λ j. mem-sort compare_actions a (unsorted enc desired actual u) (unsorted-complete a j)),
  )
