-- ===== src/Storage.antt =====
-- The storage crate's in-memory side (crates/storage): the dense node store, the metric arena, the
-- snapshot that publishes both, and the query engine.
pub mod Store
pub mod Represents
pub mod Metrics
pub mod Publishing
pub mod Query
pub mod Projection
pub mod Order
pub mod Aligned
mod Tests
