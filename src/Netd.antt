-- ===== src/Netd.antt =====
-- The privileged routing daemon (crates/netd and crates/netd-proto): the messages, the checks of
-- a routing request, the daemon's state with its handlers, and the nftables backend.
pub mod Proto
pub mod Config
pub mod Daemon
pub mod Admission
pub mod Handlers
pub mod Netfilter
pub mod Ruleset
pub mod Rules
pub mod Backend
pub mod Owners
pub mod Sections
pub mod Watchdog
mod Tests
mod BackendTests
