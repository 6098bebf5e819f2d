-- ===== src/Probe.antt =====
-- The probe (crates/probe): the grade of a connection, and the walk over what the kernel says of it.
pub mod Health
pub mod Grades
pub mod Attributes
pub mod Rounds
mod Tests
