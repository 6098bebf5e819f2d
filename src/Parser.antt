-- ===== src/Parser.antt =====
-- The subscription parser (crates/parser): the country code of a label, the formats, and the report
-- of an import.
pub mod Country
pub mod Format
pub mod Metadata
pub mod Ingest
pub mod Import
pub mod Accounts
pub mod Kept
pub mod Report
pub mod Bounds
mod Tests
