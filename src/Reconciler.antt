-- ===== src/Reconciler.antt =====
-- internal/reconciler: the diff of desired and actual state, the status of a service, the
-- replacement of one replica, and the runtime they act on.
pub mod Backend
pub mod Diff
pub mod Status
pub mod Strategy
pub mod Tick
pub mod Push
pub mod Cycle
