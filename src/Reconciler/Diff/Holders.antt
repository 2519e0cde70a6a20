-- ===== src/Reconciler/Diff/Holders.antt =====
-- Who wants a slot, who holds it, and the slot of a container made for it.
use mathlib.Core.List.Memᴰ
use mathlib.Core.Option.{some_inj}
use proxa.Prelude.{
  ◌^◌, ◌≡◌, inl, inr, refl, sym, ◌∙◌, true, List, [], ◌∷◌, some, Bool-cases, Option-cases, arith,
  Memᴰ,
}
use proxa.Prelude.Int.{ℤ, pos, negsuc, leb_ℤ, ltb_ℤ}
use proxa.Prelude.Text.{Text, text_eq, text_eq_iff, atoi, show_ℤ}
use proxa.Prelude.Text.Decimal.{atoi-show_ℤ}
use proxa.Prelude.Maps.{lookup, text-Eq}
use proxa.Types.{Service, ContainerInfo}
use proxa.Docker.{label_project, label_spec_hash}
use proxa.Reconciler.Strategy.Calls.{made_labels}
use proxa.Reconciler.Diff.{Slot, slot_eq_iff, Unhealthy, keeps_slot, slot_of, label}
use proxa.Reconciler.Diff.Wanted.{wants, wanted, holds, holder}

-- The service that wants a slot is one of the list.
pub wanted_sound :
    (svcs : List Service) (k : Slot) (svc : Service)
    → wanted svcs k ≡ some svc
    → Memᴰ svc svcs × (wants svc k ≡ true)
unfolding wanted
wanted_sound [] k svc h = cc
wanted_sound (x ∷ rest) k svc h = elim (Option-cases (wanted rest k)) [
  | inl no_other ↦ elim (Bool-cases (wants x k)) [
    | inl wanted_here ↦
        let same = some_inj.0 (rw (no_other, wanted_here) at h) in
        (Memᴰ.head (sym same), rw (← same) wanted_here)
    | inr not_here ↦ cc (rw (no_other, not_here) at h)
  ]
  | inr (s, at) ↦ let (m, w) = wanted_sound rest k svc (at ∙ (rw at at h)) in (Memᴰ.tail m, w)
]

pub wants-project : (svc : Service) (k : Slot) → wants svc k ≡ true → svc.project ≡ k.project
unfolding wants
wants-project svc k h = (text_eq_iff svc.project k.project).0 (ground arith)

-- A wanted replica number is one that `strconv.Atoi` reads back.
pub wants-replica :
    (svc : Service) (k : Slot)
    → wants svc k ≡ true
    → ltb_ℤ svc.spec.replicas (pos (2 ^ 63)) ≡ true
    → atoi (show_ℤ k.replica) ≡ some k.replica
unfolding wants
wants-replica svc k h b = by_sign k.replica svc.spec.replicas (ground arith) (ground arith) b
  where
    by_sign :
        (r n : ℤ)
        → leb_ℤ (pos 0) r ≡ true
        → ltb_ℤ r n ≡ true
        → ltb_ℤ n (pos (2 ^ 63)) ≡ true
        → atoi (show_ℤ r) ≡ some r
    by_sign (pos r) (pos n) p q b = atoi-show_ℤ r (ground arith)
    by_sign (pos r) (negsuc n) p q b = absurd (ground arith)
    by_sign (negsuc r) n p q b = absurd (ground arith)

-- A container that keeps its slot is a holder of it, so the slot has one.
pub holder_complete :
    (u : Unhealthy) (cs : List ContainerInfo) (k : Slot) (c : ContainerInfo)
    → Memᴰ c cs
    → keeps_slot u c ≡ true
    → slot_of c ≡ some k
    → (d : ContainerInfo) × (holder u cs k ≡ some d)
unfolding holder holds
holder_complete u [] k c m h s = elim m [ ]
holder_complete u (x ∷ cs) k c m h s = elim (Option-cases (holder u cs k)) [
  | inr (d, at) ↦ (d, rw at refl)
  | inl none_later ↦ elim (Memᴰ.cases_cons m) [
    | inl here ↦ (x, rw none_later (rw (← here) (rw (h, s, (slot_eq_iff k k).1 refl) refl)))
    | inr there ↦ let (d, at) = holder_complete u cs k c there h s in (d, rw at refl)
  ]
]

-- The slot read back from the labels of a container that was made for it.
pub slot_of-made :
    (c : ContainerInfo) (k : Slot) (h : Text)
    → c.labels ≡ made_labels k h
    → atoi (show_ℤ k.replica) ≡ some k.replica
    → slot_of c ≡ some k
unfolding slot_of label lookup text_eq
slot_of-made c k h e r = rw (e, r) refl

pub hash-made : (k : Slot) (h : Text) → label label_spec_hash (made_labels k h) ≡ h
unfolding label lookup text_eq
hash-made k h = refl

pub project-made : (k : Slot) (h : Text) → label label_project (made_labels k h) ≡ k.project
unfolding label lookup text_eq
project-made k h = refl
