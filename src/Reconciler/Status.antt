-- ===== src/Reconciler/Status.antt =====
-- internal/reconciler/status.go: the status of a service from its desired replicas and the snapshots.
pub mod Table
use proxa.Prelude.{ℕ, Bool, ◌&&◌, ◌||◌, List, if◌then◌else◌, length, count, is_nil}
use proxa.Prelude.Int.{ℤ, pos, eqb_ℤ, ltb_ℤ}
use proxa.Prelude.Text.{Text}
use proxa.Probe.{Snapshot}
use proxa.Types.Status

healthy_count : List Snapshot → ℕ
healthy_count = count (λ s. s.health_ok)

-- The `switch` of `Aggregate`, over the number of healthy snapshots and the number of all.
pub classify : (desired : ℤ) (healthy total : ℕ) → Text
classify desired healthy total =
    if eqb_ℤ (pos healthy) desired && eqb_ℤ (pos healthy) (pos total)
    then Status.healthy
    else if eqb_ℤ (pos healthy) (pos 0)
    then Status.failed
    else if ltb_ℤ (pos healthy) desired || ltb_ℤ (pos healthy) (pos total)
    then Status.degraded
    else Status.reconciling

-- `Aggregate`
unfoldable pub aggregate : ℤ → List Snapshot → Text
unfolding classify healthy_count
aggregate desired snapshots =
    if eqb_ℤ desired (pos 0) && is_nil snapshots
    then Status.stopped
    else classify desired (healthy_count snapshots) (length snapshots)
