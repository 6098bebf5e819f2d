-- ===== src/Ir.antt =====
-- The representation of a proxy node (crates/ir) that the parser, the storage and the core adapter
-- share.
pub mod Protocol
pub mod Transport
pub mod Hosts
pub mod Node
pub mod Identity
mod Tests
