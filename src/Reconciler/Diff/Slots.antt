-- ===== src/Reconciler/Diff/Slots.antt =====
-- The map of `Compute` of what there is: the last container that keeps a slot. And the removals that the
-- scan makes.
use mathlib.Core.Option.{some_inj}
use mathlib.Core.List.Memᴰ
use proxa.Prelude.{
  ◌≡◌, ◌⊎◌, inl, inr, refl, ap, ◌∙◌, true, false, ◌&&◌, List, [], ◌∷◌, Option, none, some,
  if◌then◌else◌, Bool-cases, Option-cases, arith, Memᴰ,
}
use proxa.Prelude.Maps.{lookup, lookup-put}
use proxa.Prelude.Maps.Keys.{IsDistinct, put-IsDistinct}
use proxa.Types.{ContainerInfo}
use proxa.Reconciler.Diff.{
  Action, Slot, slot_eq_iff, slot-Eq, Unhealthy, keeps_slot, slot_of, Actual, visit, scan_actual,
  remove_action, is_active, probe_streak, non_running,
}
use proxa.Reconciler.Diff.Wanted.{holder, holds, later, named}

module _ (u : Unhealthy) where
  lookup-visit :
      (c : ContainerInfo) (o : Option Slot) (m : Actual) (acts : List Action) (k : Slot)
      → lookup k (visit u c o (m, acts)).0
        ≡ (if keeps_slot u c && named k o then some c else lookup k m)
  unfolding visit keeps_slot
  lookup-visit c none m acts k = ground arith
  lookup-visit c (some j) m acts k = ground (arith, lookup-put j k c m)

  lookup-scan_actual-from :
      (cs : List ContainerInfo) (m : Actual) (acts : List Action) (k : Slot)
      → lookup k (scan_actual u cs (m, acts)).0 ≡ later (holder u cs k) (lookup k m)
  unfolding scan_actual holder holds
  lookup-scan_actual-from [] m acts k = refl
  lookup-scan_actual-from (c ∷ cs) m acts k =
      let (m', acts') = visit u c (slot_of c) (m, acts) in
      lookup-scan_actual-from cs m' acts' k ∙ ground (arith, lookup-visit c (slot_of c) m acts k)

  pub lookup-scan_actual :
      (cs : List ContainerInfo) (k : Slot) → lookup k (scan_actual u cs ([], [])).0 ≡ holder u cs k
  unfolding lookup
  lookup-scan_actual cs k = lookup-scan_actual-from cs [] [] k ∙ ground arith

  visit-IsDistinct :
      (c : ContainerInfo) (o : Option Slot) (m : Actual) (acts : List Action)
      → IsDistinct m
      → IsDistinct (visit u c o (m, acts)).0
  unfolding visit
  visit-IsDistinct c none m acts d = d
  visit-IsDistinct c (some j) m acts d = elim (Bool-cases (keeps_slot u c)) [
    | inl kept ↦ rw kept (put-IsDistinct j c m d)
    | inr dropped ↦ rw dropped d
  ]

  pub scan_actual-IsDistinct :
      (cs : List ContainerInfo) (m : Actual) (acts : List Action)
      → IsDistinct m
      → IsDistinct (scan_actual u cs (m, acts)).0
  unfolding scan_actual
  scan_actual-IsDistinct [] m acts d = d
  scan_actual-IsDistinct (c ∷ cs) m acts d =
      let (m', acts') = visit u c (slot_of c) (m, acts) in
      scan_actual-IsDistinct cs m' acts' (visit-IsDistinct c (slot_of c) m acts d)

  -- A container that names a slot and does not keep it, and its removal.
  abbrev pub removal : Slot → ContainerInfo → Action
  removal k c =
      remove_action k c.id (if is_active c.state then probe_streak else non_running c.state)

  abbrev pub Dropped : List ContainerInfo → Action → Type 0
  Dropped cs a =
      (c : ContainerInfo) × (k : Slot) × Memᴰ c cs
      × (slot_of c ≡ some k)
      × (keeps_slot u c ≡ false)
      × (a ≡ removal k c)

  Dropped-later :
      {c : ContainerInfo} {cs : List ContainerInfo} (a : Action) → Dropped cs a → Dropped (c ∷ cs) a
  Dropped-later a (x, k, m, s, f, e) = (x, k, Memᴰ.tail m, s, f, e)

  visit-actions :
      (c : ContainerInfo) (o : Option Slot) (m : Actual) (acts : List Action) (a : Action)
      → slot_of c ≡ o
      → Memᴰ a (visit u c o (m, acts)).1
      → Memᴰ a acts ⊎ Dropped (c ∷ []) a
  unfolding visit
  visit-actions c none m acts a s h = inl h
  visit-actions c (some k) m acts a s h = elim (Bool-cases (keeps_slot u c)) [
    | inl kept ↦ inl (rw kept at h)
    | inr gone ↦ elim (Memᴰ.append_cases acts (rw gone at h)) [
      | inl old ↦ inl old
      | inr new ↦ inr (c, k, Memᴰ.head refl, s, gone, Memᴰ.eq_of_singleton new)
    ]
  ]

  pub actions_of_scan :
      (cs : List ContainerInfo) (m : Actual) (acts : List Action) (a : Action)
      → Memᴰ a (scan_actual u cs (m, acts)).1
      → Memᴰ a acts ⊎ Dropped cs a
  unfolding scan_actual
  actions_of_scan [] m acts a h = inl h
  actions_of_scan (c ∷ cs) m acts a h =
      let (m', acts') = visit u c (slot_of c) (m, acts) in
      elim (actions_of_scan cs m' acts' a h) [
        | inl before ↦ elim (visit-actions c (slot_of c) m acts a refl before) [
          | inl old ↦ inl old
          | inr (x, k, Memᴰ.head p, s, f, e) ↦ inr (x, k, Memᴰ.head p, s, f, e)
          | inr (x, k, Memᴰ.tail t, s, f, e) ↦ elim t [ ]
        ]
        | inr after ↦ inr (Dropped-later a after)
      ]

  visit-keeps :
      (c : ContainerInfo) (o : Option Slot) (m : Actual) (acts : List Action) (a : Action)
      → Memᴰ a acts
      → Memᴰ a (visit u c o (m, acts)).1
  unfolding visit
  visit-keeps c none m acts a h = h
  visit-keeps c (some k) m acts a h = elim (Bool-cases (keeps_slot u c)) [
    | inl kept ↦ rw kept h
    | inr gone ↦ rw gone (Memᴰ.append_left (removal k c ∷ []) h)
  ]

  scan-keeps :
      (cs : List ContainerInfo) (m : Actual) (acts : List Action) (a : Action)
      → Memᴰ a acts
      → Memᴰ a (scan_actual u cs (m, acts)).1
  unfolding scan_actual
  scan-keeps [] m acts a h = h
  scan-keeps (c ∷ cs) m acts a h =
      let (m', acts') = visit u c (slot_of c) (m, acts) in
      scan-keeps cs m' acts' a (visit-keeps c (slot_of c) m acts a h)

  visit-drops :
      (c : ContainerInfo) (o : Option Slot) (k : Slot) (m : Actual) (acts : List Action)
      → o ≡ some k
      → keeps_slot u c ≡ false
      → Memᴰ (removal k c) (visit u c o (m, acts)).1
  unfolding visit
  visit-drops c none k m acts s f = cc
  visit-drops c (some j) k m acts s f =
      rw f (Memᴰ.append_right acts (Memᴰ.head (rw (some_inj.0 s))))

  pub scan_of_dropped :
      (cs : List ContainerInfo) (m : Actual) (acts : List Action) (c : ContainerInfo) (k : Slot)
      → Memᴰ c cs
      → slot_of c ≡ some k
      → keeps_slot u c ≡ false
      → Memᴰ (removal k c) (scan_actual u cs (m, acts)).1
  unfolding scan_actual
  scan_of_dropped [] m acts c k h s f = elim h [ ]
  scan_of_dropped (x ∷ cs) m acts c k (Memᴰ.head p) s f =
      let (m', acts') = visit u x (slot_of x) (m, acts) in
      scan-keeps cs m' acts' (removal k c)
        (rw p (visit-drops x (slot_of x) k m acts (rw p at s) (rw p at f)))
  scan_of_dropped (x ∷ cs) m acts c k (Memᴰ.tail t) s f =
      let (m', acts') = visit u x (slot_of x) (m, acts) in scan_of_dropped cs m' acts' c k t s f

  holds-parts :
      (c : ContainerInfo) (k : Slot)
      → holds u c k ≡ true
      → (keeps_slot u c ≡ true) × (slot_of c ≡ some k)
  unfolding holds
  holds-parts c k h = by_slot (slot_of c) refl h
    where
      by_slot :
          (o : Option Slot)
          → slot_of c ≡ o
          → (keeps_slot u c && named k o) ≡ true
          → (keeps_slot u c ≡ true) × (slot_of c ≡ some k)
      by_slot none s e = absurd (ground arith)
      by_slot (some j) s e = (ground arith, s ∙ ap some ((slot_eq_iff j k).0 (ground arith)))

  -- The holder of a slot is one of the containers, keeps its slot, and names this slot.
  pub holder_sound :
      (cs : List ContainerInfo) (k : Slot) (c : ContainerInfo)
      → holder u cs k ≡ some c
      → Memᴰ c cs × (keeps_slot u c ≡ true) × (slot_of c ≡ some k)
  unfolding holder
  holder_sound [] k c h = cc
  holder_sound (x ∷ cs) k c h = elim (Option-cases (holder u cs k)) [
    | inl none_later ↦ elim (Bool-cases (holds u x k)) [
      | inl yes_here ↦
          let same : x ≡ c = some_inj.0 (rw (none_later, yes_here) at h) in
          let (keeps, slot) = holds-parts x k yes_here in rw (← same) (Memᴰ.head refl, keeps, slot)
      | inr not_here ↦ cc (rw (none_later, not_here) at h)
    ]
    | inr (d, at) ↦
        let same : d ≡ c = some_inj.0 (rw at at h) in
        let (m, keeps, slot) = holder_sound cs k c (at ∙ ap some same) in (Memᴰ.tail m, keeps, slot)
  ]
