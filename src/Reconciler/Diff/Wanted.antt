-- ===== src/Reconciler/Diff/Wanted.antt =====
-- Which service wants a slot, the last that does; which container holds one; and the map of the former that
-- `Compute` builds.
use proxa.Prelude.{
  ℕ, zero, suc, ◌+◌, ◌≡◌, refl, ◌∙◌, Bool, false, ◌&&◌, List, [], ◌∷◌, Option, none, some,
  if◌then◌else◌, arith,
}
use proxa.Prelude.Int.{pos, leb_ℤ, ltb_ℤ}
use proxa.Prelude.Text.{text_eq}
use proxa.Prelude.Maps.{lookup, put, lookup-put}
use proxa.Prelude.Maps.Keys.{IsDistinct, put-IsDistinct}
use proxa.Types.{Service, ContainerInfo}
use proxa.Reconciler.Diff.{
  Slot, slot_eq, slot-Eq, Unhealthy, keeps_slot, slot_of, Desired, fill, slot_at, rounds,
  desired_set,
}

abbrev pub later {ℓ} : {A : Type ℓ} → Option A → Option A → Option A
later none o = o
later (some a) o = some a

-- A service wants the slots of its project and name with 0 ≤ replica < replicas.
unfoldable pub wants : Service → Slot → Bool
wants svc k =
    text_eq svc.project k.project
    && (text_eq svc.name k.service
        && (leb_ℤ (pos 0) k.replica && ltb_ℤ k.replica svc.spec.replicas))

unfoldable pub wanted : List Service → Slot → Option Service
wanted [] k = none
wanted (svc ∷ rest) k = later (wanted rest k) (if wants svc k then some svc else none)

abbrev pub named : Slot → Option Slot → Bool
named k none = false
named k (some j) = slot_eq j k

-- A container holds a slot that its labels name, if it is active and not unhealthy.
unfoldable pub holds : Unhealthy → ContainerInfo → Slot → Bool
holds u c k = keeps_slot u c && named k (slot_of c)

unfoldable pub holder : Unhealthy → List ContainerInfo → Slot → Option ContainerInfo
holder u [] k = none
holder u (c ∷ cs) k = later (holder u cs k) (if holds u c k then some c else none)

abbrev covers : Service → ℕ → ℕ → Slot → Bool
covers svc left r k =
    text_eq svc.project k.project
    && (text_eq svc.name k.service && (leb_ℤ (pos r) k.replica && ltb_ℤ k.replica (pos (r + left))))

lookup-fill :
    (svc : Service) (left r : ℕ) (m : Desired) (k : Slot)
    → lookup k (fill svc left r m) ≡ (if covers svc left r k then some svc else lookup k m)
unfolding fill
lookup-fill svc zero r m k = ground arith
lookup-fill svc (suc left) r m k =
    rw
      (
        lookup-fill svc left (suc r) (put (slot_at svc r) svc m) k,
        lookup-put (slot_at svc r) k svc m,
      )
      (unfold slot_at slot_eq in ground arith)

lookup-rounds :
    (svc : Service) (m : Desired) (k : Slot)
    → lookup k (fill svc (rounds svc.spec.replicas) 0 m)
      ≡ (if wants svc k then some svc else lookup k m)
unfolding wants
lookup-rounds svc m k = rw (lookup-fill svc (rounds svc.spec.replicas) 0 m k) (ground arith)

lookup-desired_set-from :
    (svcs : List Service) (m : Desired) (k : Slot)
    → lookup k (desired_set svcs m) ≡ later (wanted svcs k) (lookup k m)
unfolding desired_set wanted
lookup-desired_set-from [] m k = refl
lookup-desired_set-from (svc ∷ rest) m k =
    rw
      (
        lookup-desired_set-from rest (fill svc (rounds svc.spec.replicas) 0 m) k,
        lookup-rounds svc m k,
      )
      (ground arith)

pub lookup-desired_set :
    (svcs : List Service) (k : Slot) → lookup k (desired_set svcs []) ≡ wanted svcs k
unfolding lookup
lookup-desired_set svcs k = lookup-desired_set-from svcs [] k ∙ ground arith

fill-IsDistinct :
    (svc : Service) (left r : ℕ) (m : Desired) → IsDistinct m → IsDistinct (fill svc left r m)
unfolding fill
fill-IsDistinct svc zero r m d = d
fill-IsDistinct svc (suc left) r m d =
    fill-IsDistinct svc left (suc r) (put (slot_at svc r) svc m)
      (put-IsDistinct (slot_at svc r) svc m d)

pub desired_set-IsDistinct :
    (svcs : List Service) (m : Desired) → IsDistinct m → IsDistinct (desired_set svcs m)
unfolding desired_set
desired_set-IsDistinct [] m d = d
desired_set-IsDistinct (svc ∷ rest) m d =
    desired_set-IsDistinct rest (fill svc (rounds svc.spec.replicas) 0 m)
      (fill-IsDistinct svc (rounds svc.spec.replicas) 0 m d)
