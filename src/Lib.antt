-- ===== src/Lib.antt =====
-- Verification of Yarisugi, a proxy client with a privileged routing daemon.
--
-- The program's parts, and the files that model them.
--
-- Netd is the daemon that owns the host's routing. Netd/Proto is crates/netd-proto/src/lib.rs, the
-- requests and responses. Netd/Config is `RoutingConfig`, `validate_config` and `TProxySettings`;
-- Netd/Daemon is the rest of crates/netd/src/main.rs: `DaemonState`, `process_request`,
-- `rollback`, the watchdog's loop body and `handle_client`. A handler is an action on the state
-- that gives a result; an error that leaves by `?` or `bail!` is the result's second case, and the
-- state that it leaves is the state at that point. Netd/Admission, Netd/Handlers and Netd/Watchdog
-- have the theorems on these. Netd/Owners has the controller as a lock that sessions hold in turn.
-- Netd/Sections has the code between a lock and its release as one step, and any sequence of such
-- steps, which is what tasks that run at once can do. Netd/Netfilter, Netd/Ruleset and
-- Netd/Backend are crates/netd/src/netfilter.rs: the command lines, the text of the rule set, and
-- `enable` and `disable` of the nftables backend. Netd/Rules has the laws of the commands.
--
-- Storage is the node list in memory. Storage/Store is crates/storage/src/soa_store.rs, one list
-- for each column; Storage/Represents relates the columns to the rows that they stand for.
-- Storage/Metrics is `MetricsArena` and crates/storage/src/snapshot.rs, with the theorems in
-- Storage/Publishing and Storage/Aligned. Storage/Query is crates/storage/src/query_engine.rs,
-- with the theorems in Storage/Projection and Storage/Order.
--
-- Adapter/Supervisor is crates/adapter/src/supervisor.rs, the life of the core's process, with the
-- theorems on its swaps of configuration in Adapter/Steps and Adapter/Swaps. Adapter/Targets and
-- Adapter/Scatter are the part of crates/adapter/src/egress.rs that chooses the targets of a trial
-- and makes its report, with the theorems in Adapter/Sampling and Adapter/Reports. Ir is
-- crates/ir: Ir/Protocol and Ir/Transport are protocol.rs and transport.rs; Ir/Hosts and Ir/Node
-- are lib.rs, with the theorems on a node's hash in Ir/Identity. Gui/ViewState, Gui/Display and
-- Gui/VirtualModel are view_state.rs and virtual_model.rs of crates/gui/src, with theorems in
-- Gui/Reverse and Gui/Rows; the view calls the query of Storage.
--
-- Controller is crates/controller. Controller/Tracks and Controller/AutoSelect are
-- src/auto_select.rs, with the order of its costs in Controller/Costs and the theorems on its
-- choice in Controller/Choice. The other files there are src/proxy_controller.rs.
-- Controller/Scoring and Controller/Shortlist are the scores of the egress trials and the
-- shortlist in two tiers, with the theorems in Controller/Finalists, Controller/Medians and
-- Controller/Trials. Controller/Session is `ProxyController`, its settings, switches and stops,
-- with the theorems in Controller/Switching and Controller/Rollback (Controller/Routing has the
-- routes that a switch asks the daemon for). Controller/Failover has the hooks and the status of
-- the failover loop, Controller/Cycle and Controller/Adopt its steps, and Controller/Watchdog
-- `run_failover_cycle` with the round of its thread. What a cycle may do is in Controller/Earned,
-- Controller/Escalation, Controller/Healing, Controller/Adoption, Controller/Justified and
-- Controller/Warranted, and put together in Controller/Conduct. Controller/Real is
-- `FailoverHooks::real`, the hooks that act on the session, and Controller/Service,
-- Controller/Search and Controller/Recovery have the theorems on cycles with them and on the way
-- back from a degraded state. The controller calls the supervisor of Adapter, the trials of
-- Adapter/Scatter and the protocol of Netd/Proto.
--
-- Parser is crates/parser. Parser/Country is src/metadata.rs and Parser/Format is src/format.rs;
-- Parser/Ingest and Parser/Import are src/error.rs and src/lib.rs, with theorems in
-- Parser/Metadata, on one result after another in Parser/Accounts, Parser/Kept and Parser/Report,
-- and on whole imports in Parser/Bounds.
--
-- Probe is crates/probe/src/socket_health.rs: Probe/Health has the sample of a connection and its
-- grade, with the theorem in Probe/Grades; Probe/Attributes has the walk over the attributes of a
-- reply of the kernel, with the theorem in Probe/Rounds.
--
-- Prelude has the helpers that these share. Prelude/Results, Prelude/Panics and Prelude/Effects
-- chain results, computations that can panic, and actions on a state; Prelude/Sorting stands for
-- `slice::sort_by`; Prelude/Ordered has the laws of the orders and the shortened lists that
-- sorting meets; Prelude/Text prints numbers.
--
-- Numbers are natural numbers; a cast to `u32`, and a product or a counter that a release build
-- wraps, is written as a remainder. An index out of bounds is `none`, which stands for a panic.
-- The sessions are inputs; time is a number of nanoseconds that each action is given. Each loop
-- goes over a list or a number, but for the walk in Probe/Attributes, which need not end: it takes
-- the number of rounds, and one round more than there are bytes is enough wherever it ends. In the
-- controller and the parser a text is a `String` or the list of its code points.
--
-- Parameters, for code that is not the repository's: the text forms of networks (crate ipnet), the
-- programs `ip` and `nft` (record `Shell`, with the laws of `IpLaws`; `CanDelete` says that a rule
-- that is there can be deleted), the files and processes of the supervisor (record `Host`, with
-- the laws of `FileLaws`), bincode and SHA-256, the parser of IP addresses, `f64` (record
-- `Floats`; `FloatLaws` says that no value is NaN, so that the comparison is a total order, as
-- `sort_by` needs), `str::to_lowercase`, and UTF-8, Base64 and JSON for an import.
--
-- Parameters, for code of the repository that is not modelled: the routing backend where the
-- daemon calls it; the clocks, the table of nodes, the compilation of a configuration and the
-- daemon's answers for the controller (record `Environment`, with the laws of `MachineLaws`); the
-- cheap sweep and the trial of a node (record `Trials`; `SweepLaw` says that a sweep gives at most
-- one row for each candidate); the hooks of the failover cycle (record `FailoverHooks`, with the
-- contract of a rescore in `RescoreLaws`, which the real hooks are proved to keep); the parsers of
-- one URI and of a Clash document (record `Formats`).
--
-- Not modelled: sockets, frames and their codecs, permissions and environment variables of the
-- daemon; SQL; the compilation of outbounds (crates/adapter/src/lib.rs), and the check of one
-- target and the testbed of crates/adapter/src/egress.rs; the sockets of the daemon's client, the
-- queries of `tunnel_health` and the import of a subscription into the database in
-- crates/controller; uri.rs and clash.rs of crates/parser; the netlink socket, the descriptors of
-- other processes and the worker pool of crates/probe; the window in crates/gui. These are input
-- and output, or read and write formats through other libraries.
pub mod Parser
pub mod Probe
pub mod Prelude
pub mod Netd
pub mod Storage
pub mod Adapter
pub mod Ir
pub mod Gui
pub mod Controller
