-- ===== src/Controller.antt =====
-- The controller (crates/controller): how auto mode chooses a node, how the session switches to it,
-- and the failover cycle.
pub mod Tracks
pub mod AutoSelect
pub mod Costs
pub mod Choice
pub mod Scoring
pub mod Shortlist
pub mod Finalists
pub mod Medians
pub mod Trials
pub mod Session
pub mod Routing
pub mod Switching
pub mod Rollback
pub mod Failover
pub mod Cycle
pub mod Adopt
pub mod Watchdog
pub mod Earned
pub mod Escalation
pub mod Healing
pub mod Adoption
pub mod Justified
pub mod Warranted
pub mod Conduct
pub mod Real
pub mod Service
pub mod Search
pub mod Recovery
mod Tests
mod FailoverTests
