-- ===== src/Netd/Proto.antt =====
-- crates/netd-proto/src/lib.rs: the constants and messages of the control socket. An
-- `Ipv4Addr` is its four octets.
use yarisugi.Prelude.{ℕ, Bool, List, Option, String}

abbrev pub protocol_version : ℕ
protocol_version = 1

abbrev pub watchdog_timeout_secs : ℕ
watchdog_timeout_secs = 5

pub record Ipv4Addr : Type 0 where
  pub a : ℕ
  pub b : ℕ
  pub c : ℕ
  pub d : ℕ

-- The fields of `NetdRequest::EnableRouting` behind its session id.
pub record EnableArgs : Type 0 where
  pub tproxy_port : ℕ
  pub proxy_fwmark : ℕ
  pub table_id : ℕ
  pub dns_ipv4 : Option Ipv4Addr
  pub bypass_subnets : List String
  pub bypass_subnets_v6 : List String
  pub core_uid : Option ℕ

pub data NetdRequest : Type 0 where
  handshake : ℕ → NetdRequest
  enable_routing : ℕ → EnableArgs → NetdRequest
  disable_routing : ℕ → NetdRequest
  heartbeat : ℕ → ℕ → NetdRequest

pub data NetdResponse : Type 0 where
  handshake_ok : ℕ → ℕ → NetdResponse
  routing_enabled : NetdResponse
  routing_disabled : NetdResponse
  heartbeat_ack : ℕ → NetdResponse
  state : Bool → NetdResponse
  error : String → NetdResponse
