-- ===== src/Netd/Config.antt =====
-- crates/netd/src/main.rs, `validate_config`: the checks that a routing request passes before it
-- reaches the kernel. `Ipv4Net` and `Ipv6Net` of the ipnet crate are a parameter.
use Prim.Native.String.{◌++◌ as str_append}
use yarisugi.Prelude.{
  ℕ, Bool, ◌&&◌, ◌||◌, not, List, [], ◌∷◌, map, Option, none, some, String, ltb, leb, ◌==◌,
  if◌then◌else◌, length, Result, ok, err, bail_if,
}
use yarisugi.Prelude.Results.{◌>>=◌, ◌>>◌}
use yarisugi.Netd.Proto.{Ipv4Addr, EnableArgs}

-- A network type of the ipnet crate: `str::parse`, `prefix_len` and `to_string`.
pub record NetType : Type 1 where
  pub Net : Type 0
  pub parse : String → Option Net
  pub prefix_len : Net → ℕ
  pub to_string : Net → String

abbrev pub u32_max : ℕ
u32_max = 4294967295

unfoldable pub is_unspecified : Ipv4Addr → Bool
is_unspecified x = (x.a == 0) && ((x.b == 0) && ((x.c == 0) && (x.d == 0)))

unfoldable pub is_broadcast : Ipv4Addr → Bool
is_broadcast x = (x.a == 255) && ((x.b == 255) && ((x.c == 255) && (x.d == 255)))

unfoldable pub is_multicast : Ipv4Addr → Bool
is_multicast x = leb 224 x.a && leb x.a 239

unfoldable pub check_port : ℕ → Result (Unit {0})
check_port port =
    bail_if (not (leb 1024 port && leb port 65535)) "tproxy port must be between 1024 and 65535"

unfoldable pub check_mark : ℕ → Result (Unit {0})
check_mark mark =
    bail_if ((mark == 0) || (mark == u32_max)) "proxy firewall mark is outside the supported range"

unfoldable pub check_table : ℕ → Result (Unit {0})
check_table table =
    bail_if (not (leb 1 table && leb table 252)) "routing table must be between 1 and 252"

unfoldable pub check_dns : Option Ipv4Addr → Result (Unit {0})
unfolding is_unspecified is_broadcast is_multicast
check_dns none = ok tt
check_dns (some x) =
    bail_if (is_unspecified x || (is_multicast x || is_broadcast x)) "DNS address is not routable"

unfoldable pub check_uid : Option ℕ → Result (Unit {0})
check_uid none = ok tt
check_uid (some uid) =
    bail_if ((uid == 0) || (uid == u32_max)) "proxy core UID must be a real user id"

module _ (net : NetType) where
  open net use {Net, parse, prefix_len}

  unfoldable pub parse_subnet : String → String → Result Net
  parse_subnet context subnet = elim (parse subnet) [
    | none ↦ err (str_append context subnet)
    | some network ↦
        if prefix_len network == 0
        then err "the default route cannot be a bypass subnet"
        else ok network
  ]

  -- The loop over the requested subnets: the first that is refused ends it.
  unfoldable pub parse_subnets : String → List String → Result (List Net)
  parse_subnets context [] = ok []
  parse_subnets context (subnet ∷ rest) = do
    network ← parse_subnet context subnet
    parsed ← parse_subnets context rest
    ok (network ∷ parsed)

module _ (v4 v6 : NetType) where
  pub record RoutingConfig : Type 0 where
    pub tproxy_port : ℕ
    pub proxy_fwmark : ℕ
    pub table_id : ℕ
    pub dns_ipv4 : Option Ipv4Addr
    pub bypass_subnets : List v4.Net
    pub bypass_subnets_v6 : List v6.Net
    pub core_uid : Option ℕ

  unfoldable pub validate_config : EnableArgs → Result RoutingConfig
  validate_config r = do
    check_port r.tproxy_port
    check_mark r.proxy_fwmark
    check_table r.table_id
    check_dns r.dns_ipv4
    check_uid r.core_uid
    bail_if (ltb 256 (length r.bypass_subnets)) "too many bypass subnets"
    bail_if (ltb 256 (length r.bypass_subnets_v6)) "too many IPv6 bypass subnets"
    parsed ← parse_subnets v4 "invalid IPv4 subnet: " r.bypass_subnets
    parsed_v6 ← parse_subnets v6 "invalid IPv6 subnet: " r.bypass_subnets_v6
    ok (record {
      tproxy_port = r.tproxy_port;
      proxy_fwmark = r.proxy_fwmark;
      table_id = r.table_id;
      dns_ipv4 = r.dns_ipv4;
      bypass_subnets = parsed;
      bypass_subnets_v6 = parsed_v6;
      core_uid = r.core_uid;
    })

-- `netfilter::TProxySettings`: the configuration with its networks rendered.
pub record TProxySettings : Type 0 where
  pub tproxy_port : ℕ
  pub proxy_fwmark : ℕ
  pub table_id : ℕ
  pub dns_ipv4 : Option Ipv4Addr
  pub bypass_subnets : List String
  pub bypass_subnets_v6 : List String
  pub core_uid : Option ℕ

unfoldable pub from_config : {v4 v6 : NetType} → RoutingConfig v4 v6 → TProxySettings
from_config {v4 = v4} {v6 = v6} config = record {
  tproxy_port = config.tproxy_port;
  proxy_fwmark = config.proxy_fwmark;
  table_id = config.table_id;
  dns_ipv4 = config.dns_ipv4;
  bypass_subnets = map v4.to_string config.bypass_subnets;
  bypass_subnets_v6 = map v6.to_string config.bypass_subnets_v6;
  core_uid = config.core_uid;
}
