-- ===== src/Ir/Transport.antt =====
-- crates/ir/src/transport.rs: what a node says of its transport, its security and its multiplexing.
use yarisugi.Prelude.{ℕ, Bool, List, Option, String}

pub record WebSocketConfig : Type 0 where
  pub path : String
  pub host : Option String
  pub max_early_data : ℕ
  pub early_data_header : Option String

pub record GrpcConfig : Type 0 where
  pub service_name : String
  pub multi_mode : Bool

pub record HttpUpgradeConfig : Type 0 where
  pub path : String
  pub host : Option String

pub data XHttpMode : Type 0 where
  stream_one stream_up packet_up : XHttpMode

pub record XHttpConfig : Type 0 where
  pub mode : XHttpMode
  pub path : String
  pub host : Option String

pub data TransportSpec : Type 0 where
  tcp : TransportSpec
  web_socket : WebSocketConfig → TransportSpec
  grpc : GrpcConfig → TransportSpec
  http_upgrade : HttpUpgradeConfig → TransportSpec
  x_http : XHttpConfig → TransportSpec

pub data UtlsFingerprint : Type 0 where
  chrome firefox safari edge randomized no_fingerprint : UtlsFingerprint

pub record StandardTlsConfig : Type 0 where
  pub server_name : String
  pub alpn : List String
  pub fingerprint : UtlsFingerprint
  pub allow_insecure : Bool

pub record RealityConfig : Type 0 where
  pub server_name : String
  pub public_key : String
  pub short_id : String
  pub spider_x : Option String
  pub fingerprint : UtlsFingerprint

pub data SecuritySpec : Type 0 where
  no_security : SecuritySpec
  tls : StandardTlsConfig → SecuritySpec
  reality : RealityConfig → SecuritySpec

pub data MuxProtocol : Type 0 where
  smux yamux h2_mux : MuxProtocol

pub record MuxSpec : Type 0 where
  pub enabled : Bool
  pub concurrency : ℕ
  pub protocol : MuxProtocol
