-- ===== src/Netd/Admission.antt =====
-- What `validate_config` lets through: exactly the requests that meet the independent description
-- `IsAdmissible`.
use yarisugi.Prelude.{
  ℕ, ◌≤◌, ◌<◌, ◌≡◌, refl, ◌≢◌, ◌↔◌, ◌⊎◌, List, [], ◌∷◌, Option, none, some, String, arith, length,
  ok,
}
use yarisugi.Prelude.Results.{>>=-eq-ok}
use yarisugi.Netd.Proto.{Ipv4Addr, EnableArgs}
use yarisugi.Netd.Config.{
  NetType, RoutingConfig, validate_config, parse_subnet, parse_subnets, check_port, check_mark,
  check_table, check_dns, check_uid, u32_max,
}

-- An address that no resolver can have: 0.0.0.0, 255.255.255.255 or 224.0.0.0/4.
abbrev pub IsUnroutable : Ipv4Addr → Type 0
IsUnroutable x =
    ((x.a ≡ 0) × (x.b ≡ 0) × (x.c ≡ 0) × (x.d ≡ 0))
    ⊎ (((224 ≤ x.a) × (x.a ≤ 239)) ⊎ ((x.a ≡ 255) × (x.b ≡ 255) × (x.c ≡ 255) × (x.d ≡ 255)))

abbrev pub DnsFits : Option Ipv4Addr → Type 0
DnsFits none = Unit {0}
DnsFits (some x) = ¬ IsUnroutable x

abbrev pub UidFits : Option ℕ → Type 0
UidFits none = Unit {0}
UidFits (some uid) = (uid ≢ 0) × (uid ≢ u32_max)

-- Each text is a network other than the default route, in order.
abbrev pub Parses : (net : NetType) → List String → List net.Net → Type 0
Parses net [] [] = Unit {0}
Parses net [] (n ∷ ns) = ⊥
Parses net (s ∷ ss) [] = ⊥
Parses net (s ∷ ss) (n ∷ ns) = (net.parse s ≡ some n) × (0 < net.prefix_len n) × Parses net ss ns

pub record IsAdmissible (v4 v6 : NetType) (r : EnableArgs) (c : RoutingConfig v4 v6) : Type 0 where
  pub port : (1024 ≤ r.tproxy_port) × (r.tproxy_port ≤ 65535)
  pub mark : (r.proxy_fwmark ≢ 0) × (r.proxy_fwmark ≢ u32_max)
  pub table : (1 ≤ r.table_id) × (r.table_id ≤ 252)
  pub dns : DnsFits r.dns_ipv4
  pub uid : UidFits r.core_uid
  pub few : length r.bypass_subnets ≤ 256
  pub few_v6 : length r.bypass_subnets_v6 ≤ 256
  pub subnets : Parses v4 r.bypass_subnets c.bypass_subnets
  pub subnets_v6 : Parses v6 r.bypass_subnets_v6 c.bypass_subnets_v6
  pub same_port : c.tproxy_port ≡ r.tproxy_port
  pub same_mark : c.proxy_fwmark ≡ r.proxy_fwmark
  pub same_table : c.table_id ≡ r.table_id
  pub same_dns : c.dns_ipv4 ≡ r.dns_ipv4
  pub same_uid : c.core_uid ≡ r.core_uid

check_port_iff : (port : ℕ) → (check_port port ≡ ok tt) ↔ ((1024 ≤ port) × (port ≤ 65535))
unfolding check_port
check_port_iff port = ground arith

check_mark_iff : (mark : ℕ) → (check_mark mark ≡ ok tt) ↔ ((mark ≢ 0) × (mark ≢ u32_max))
unfolding check_mark
check_mark_iff mark = ground arith

check_table_iff : (table : ℕ) → (check_table table ≡ ok tt) ↔ ((1 ≤ table) × (table ≤ 252))
unfolding check_table
check_table_iff table = ground arith

check_dns_iff : (dns : Option Ipv4Addr) → (check_dns dns ≡ ok tt) ↔ DnsFits dns
unfolding check_dns
check_dns_iff none = (λ _. tt, λ _. refl)
check_dns_iff (some x) = ground arith

check_uid_iff : (uid : Option ℕ) → (check_uid uid ≡ ok tt) ↔ UidFits uid
unfolding check_uid
check_uid_iff none = (λ _. tt, λ _. refl)
check_uid_iff (some uid) = ground arith

module _ (net : NetType) (context : String) where
  parse_subnet_iff :
      (s : String) (n : net.Net)
      → (parse_subnet net context s ≡ ok n) ↔ ((net.parse s ≡ some n) × (0 < net.prefix_len n))
  unfolding parse_subnet
  parse_subnet_iff s n = ground arith

  parse_subnets-Parses :
      (ss : List String) (ns : List net.Net)
      → parse_subnets net context ss ≡ ok ns
      → Parses net ss ns
  unfolding parse_subnets
  parse_subnets-Parses [] [] h = tt
  parse_subnets-Parses [] (n ∷ ns) h = cc
  parse_subnets-Parses (s ∷ ss) [] h =
      let (m, e, h') = >>=-eq-ok (parse_subnet net context s) _ h in
      let (ms, e', h'') = >>=-eq-ok (parse_subnets net context ss) _ h' in absurd (cc)
  parse_subnets-Parses (s ∷ ss) (n ∷ ns) h =
      let (m, e, h') = >>=-eq-ok (parse_subnet net context s) _ h in
      let (ms, e', h'') = >>=-eq-ok (parse_subnets net context ss) _ h' in
      let (parsed, nonzero) = (parse_subnet_iff s n).0 (cc) in
      (parsed, nonzero, parse_subnets-Parses ss ns (cc))

  Parses-parse_subnets :
      (ss : List String) (ns : List net.Net)
      → Parses net ss ns
      → parse_subnets net context ss ≡ ok ns
  unfolding parse_subnets
  Parses-parse_subnets [] [] h = refl
  Parses-parse_subnets [] (n ∷ ns) h = absurd h
  Parses-parse_subnets (s ∷ ss) [] h = absurd h
  Parses-parse_subnets (s ∷ ss) (n ∷ ns) h =
      rw ((parse_subnet_iff s n).1 (h.0, h.1), Parses-parse_subnets ss ns h.2)

module _ (v4 v6 : NetType) where
  validate_config-IsAdmissible :
      (r : EnableArgs) (c : RoutingConfig v4 v6)
      → validate_config v4 v6 r ≡ ok c
      → IsAdmissible v4 v6 r c
  unfolding validate_config
  validate_config-IsAdmissible r c h = ground (
    arith,
    check_port_iff r.tproxy_port,
    check_mark_iff r.proxy_fwmark,
    check_table_iff r.table_id,
    check_dns_iff r.dns_ipv4,
    check_uid_iff r.core_uid,
    parse_subnets-Parses v4 "invalid IPv4 subnet: " r.bypass_subnets c.bypass_subnets,
    parse_subnets-Parses v6 "invalid IPv6 subnet: " r.bypass_subnets_v6 c.bypass_subnets_v6,
  )

  IsAdmissible-validate_config :
      (r : EnableArgs) (c : RoutingConfig v4 v6)
      → IsAdmissible v4 v6 r c
      → validate_config v4 v6 r ≡ ok c
  unfolding validate_config
  IsAdmissible-validate_config r c h = ground (
    arith,
    (check_port_iff r.tproxy_port).1 h.port,
    (check_mark_iff r.proxy_fwmark).1 h.mark,
    (check_table_iff r.table_id).1 h.table,
    (check_dns_iff r.dns_ipv4).1 h.dns,
    (check_uid_iff r.core_uid).1 h.uid,
    Parses-parse_subnets v4 "invalid IPv4 subnet: " r.bypass_subnets c.bypass_subnets h.subnets,
    Parses-parse_subnets v6 "invalid IPv6 subnet: " r.bypass_subnets_v6 c.bypass_subnets_v6
        h.subnets_v6,
  )

  -- A request is accepted with a configuration exactly when it meets every condition of
  -- `IsAdmissible` with it: port, mark and table in range, a routable resolver, a real user, at
  -- most 256 bypass networks of each family, each of them parsed and none the default route.
  pub validate_config_iff :
      (r : EnableArgs) (c : RoutingConfig v4 v6)
      → (validate_config v4 v6 r ≡ ok c) ↔ IsAdmissible v4 v6 r c
  validate_config_iff r c = (validate_config-IsAdmissible r c, IsAdmissible-validate_config r c)
