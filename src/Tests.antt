-- ===== src/Tests.antt =====
-- Examples: each property at a concrete input.
pub mod Fixtures
mod Reconcile
mod Rollover
mod Access
mod Probes
mod Routing
mod Parsing
mod Ticks
pub mod ListBackend
mod Convergence
pub mod Flat
pub mod TaskCodec
mod Serving
pub mod Reporting
mod WholeTick
mod Network
mod Guards
mod Files
