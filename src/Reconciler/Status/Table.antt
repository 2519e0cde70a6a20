-- ===== src/Reconciler/Status/Table.antt =====
-- The truth table of the status.
use proxa.Prelude.{
  ℕ, ◌<◌, ◌≡◌, ◌↔◌, ◌⊎◌, List, [], ◌∷◌, is_nil, false, arith, length, count, count-le-length,
}
use proxa.Prelude.Int.{ℤ, pos, ◌<ℤ◌}
use proxa.Probe.{Snapshot}
use proxa.Types.Status
use proxa.Reconciler.Status.{aggregate, classify}

abbrev pub healthy_of : List Snapshot → ℕ
healthy_of s = count (λ x. x.health_ok) s

stopped_iff :
    (d : ℤ) (s : List Snapshot) → (aggregate d s ≡ Status.stopped) ↔ ((d ≡ pos 0) × (length s ≡ 0))
unfolding aggregate
stopped_iff d [] = ((λ h. ground arith), (λ h. ground arith))
stopped_iff d (x ∷ s) =
    let bound = count-le-length (λ (y : Snapshot). y.health_ok) (x ∷ s) in
    ((λ h. ground (arith, bound)), (λ h. ground (arith, bound)))

healthy_iff :
    (d : ℤ) (s : List Snapshot)
    → (aggregate d s ≡ Status.healthy)
      ↔ ((d ≡ pos (length s)) × (healthy_of s ≡ length s) × (0 < length s))
unfolding aggregate
healthy_iff d [] = ((λ h. ground arith), (λ h. ground arith))
healthy_iff d (x ∷ s) =
    let bound = count-le-length (λ (y : Snapshot). y.health_ok) (x ∷ s) in
    ((λ h. ground (arith, bound)), (λ h. ground (arith, bound)))

failed_iff :
    (d : ℤ) (s : List Snapshot)
    → (aggregate d s ≡ Status.failed) ↔ ((healthy_of s ≡ 0) × ¬ ((d ≡ pos 0) × (length s ≡ 0)))
unfolding aggregate
failed_iff d [] = ((λ h. ground arith), (λ h. ground arith))
failed_iff d (x ∷ s) =
    let bound = count-le-length (λ (y : Snapshot). y.health_ok) (x ∷ s) in
    ((λ h. ground (arith, bound)), (λ h. ground (arith, bound)))

degraded_iff :
    (d : ℤ) (s : List Snapshot)
    → (aggregate d s ≡ Status.degraded)
      ↔ ((0 < healthy_of s) × ((healthy_of s < length s) ⊎ (pos (healthy_of s) <ℤ d)))
unfolding aggregate
degraded_iff d [] = ((λ h. ground arith), (λ h. ground arith))
degraded_iff d (x ∷ s) =
    let bound = count-le-length (λ (y : Snapshot). y.health_ok) (x ∷ s) in
    ((λ h. ground (arith, bound)), (λ h. ground (arith, bound)))

reconciling_iff :
    (d : ℤ) (s : List Snapshot)
    → (aggregate d s ≡ Status.reconciling)
      ↔ ((0 < healthy_of s) × (healthy_of s ≡ length s) × (d <ℤ pos (healthy_of s)))
unfolding aggregate
reconciling_iff d [] = ((λ h. ground arith), (λ h. ground arith))
reconciling_iff d (x ∷ s) =
    let bound = count-le-length (λ (y : Snapshot). y.health_ok) (x ∷ s) in
    ((λ h. ground (arith, bound)), (λ h. ground (arith, bound)))

-- The five statuses, exactly: stopped when nothing is desired and nothing is tracked; healthy when the
-- replicas are as many as desired, at least one, and all healthy; failed when no replica is healthy
-- and it is not stopped; degraded when some replica is healthy and the healthy are fewer than the
-- replicas or than desired; reconciling when all replicas are healthy, at least one, and more than
-- desired.
pub aggregate-table :
    (d : ℤ) (s : List Snapshot)
    → ((aggregate d s ≡ Status.stopped) ↔ ((d ≡ pos 0) × (length s ≡ 0)))
      × ((aggregate d s ≡ Status.healthy)
          ↔ ((d ≡ pos (length s)) × (healthy_of s ≡ length s) × (0 < length s)))
      × ((aggregate d s ≡ Status.failed) ↔ ((healthy_of s ≡ 0) × ¬ ((d ≡ pos 0) × (length s ≡ 0))))
      × ((aggregate d s ≡ Status.degraded)
          ↔ ((0 < healthy_of s) × ((healthy_of s < length s) ⊎ (pos (healthy_of s) <ℤ d))))
      × ((aggregate d s ≡ Status.reconciling)
          ↔ ((0 < healthy_of s) × (healthy_of s ≡ length s) × (d <ℤ pos (healthy_of s))))
aggregate-table d s =
    (stopped_iff d s, healthy_iff d s, failed_iff d s, degraded_iff d s, reconciling_iff d s)

-- The status of a service is never empty.
pub aggregate-not_nil : (desired : ℤ) (l : List Snapshot) → is_nil (aggregate desired l) ≡ false
unfolding aggregate classify
aggregate-not_nil desired l = ground arith
