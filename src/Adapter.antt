-- ===== src/Adapter.antt =====
-- The core adapter (crates/adapter): the supervisor of the proxy core's process, and the
-- targets and the report of an egress trial.
pub mod Targets
pub mod Scatter
pub mod Sampling
pub mod Reports
pub mod Supervisor
pub mod Steps
pub mod Swaps
mod Tests
mod EgressTests
