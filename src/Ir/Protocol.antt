-- ===== src/Ir/Protocol.antt =====
-- crates/ir/src/protocol.rs: what a node says of its protocol. A `Uuid` is a number of 128 bits; an
-- address is the number that its bytes make.
use yarisugi.Prelude.{ℕ, Bool, List, Option, String}

abbrev pub Uuid : Type 0
Uuid = ℕ

pub data IpAddr : Type 0 where
  v4 v6 : ℕ → IpAddr

pub data VlessFlow : Type 0 where
  xtls_rprx_vision xtls_rprx_vision_udp443 : VlessFlow

pub record VlessConfig : Type 0 where
  pub uuid : Uuid
  pub flow : Option VlessFlow

pub data VmessCipher : Type 0 where
  auto aes128_gcm chacha20_poly1305 no_cipher : VmessCipher

pub record VmessConfig : Type 0 where
  pub uuid : Uuid
  pub alter_id : ℕ
  pub cipher : VmessCipher

pub record TrojanConfig : Type 0 where
  pub password : String

pub data ShadowsocksCipher : Type 0 where
  ss_aes128_gcm ss_aes256_gcm ss_chacha20_ietf_poly1305 : ShadowsocksCipher
  ss2022_blake3_aes128_gcm ss2022_blake3_aes256_gcm : ShadowsocksCipher
  ss2022_blake3_chacha20_poly1305 : ShadowsocksCipher

pub record ShadowsocksConfig : Type 0 where
  pub method : ShadowsocksCipher
  pub password : String
  pub plugin : Option String
  pub plugin_opts : Option String

pub record Hysteria2Obfs : Type 0 where
  pub obfs_type : String
  pub password : String

pub record Hysteria2Config : Type 0 where
  pub password : String
  pub up_mbps : Option ℕ
  pub down_mbps : Option ℕ
  pub obfs : Option Hysteria2Obfs
  pub port_hopping : Option String

pub data TuicCongestion : Type 0 where
  bbr cubic new_reno : TuicCongestion

pub data TuicUdpRelay : Type 0 where
  native quic : TuicUdpRelay

pub record TuicConfig : Type 0 where
  pub uuid : Uuid
  pub password : String
  pub congestion_control : TuicCongestion
  pub udp_relay_mode : TuicUdpRelay
  pub zero_rtt_handshake : Bool

pub record WireGuardConfig : Type 0 where
  pub private_key : String
  pub peer_public_key : String
  pub preshared_key : Option String
  pub local_address : List IpAddr
  pub reserved : Option (ℕ × ℕ × ℕ)
  pub mtu : Option ℕ

pub data ProtocolSpec : Type 0 where
  vless : VlessConfig → ProtocolSpec
  vmess : VmessConfig → ProtocolSpec
  trojan : TrojanConfig → ProtocolSpec
  shadowsocks : ShadowsocksConfig → ProtocolSpec
  hysteria2 : Hysteria2Config → ProtocolSpec
  tuic : TuicConfig → ProtocolSpec
  wire_guard : WireGuardConfig → ProtocolSpec
