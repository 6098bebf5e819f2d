-- ===== src/Netd/BackendTests.antt =====
-- Runs of the nftables backend on a system that counts its policy rules.
use text.Mathlib.Text.{◌==◌ as str_eq}
use yarisugi.Prelude.{
  ℕ, zero, suc, ◌+◌, ◌≡◌, refl, Bool, true, false, List, [], none, some, String, arith, get_elem?,
  if◌then◌else◌, unwrap_or,
}
use yarisugi.Prelude.Text.{to_string, to_hex, join}
use yarisugi.Netd.Config.{TProxySettings}
use yarisugi.Netd.Netfilter.{
  Shell, Output, exited, not_started, finished, Op, add, del, rule_args, route_args, run_ip, ran,
  apply_ruleset, fed, ensure_prerequisites, install_policy_routing, remove_policy_routing, run_all,
  run_each,
}
use yarisugi.Netd.Rules.{IpLaws, CanDelete, same}
use yarisugi.Netd.Backend.{nft_enable, nft_disable, apply_or_remove}
use yarisugi.Netd.Backend

-- The numbers of IPv4 and IPv6 rules.
abbrev Counts : Type 0
Counts = ℕ × ℕ

abbrev word : ℕ → List String → String
word i xs = unwrap_or (get_elem? xs i) ""

-- A rule is added, or deleted if there is one.
abbrev added : ℕ → Bool × ℕ
added n = (true, n + 1)

abbrev taken : ℕ → Bool × ℕ
taken zero = (false, 0)
taken (suc n) = (true, n)

abbrev on_v4 : Bool × ℕ → ℕ → Bool × Counts
on_v4 (success, a) b = (success, (a, b))

abbrev on_v6 : ℕ → Bool × ℕ → Bool × Counts
on_v6 a (success, b) = (success, (a, b))

-- `routes` says whether IPv4 routes can be changed.
abbrev step : Bool → List String → Counts → Bool × Counts
step routes xs (a, b) =
    if str_eq (word 1 xs) "rule"
    then on_v4 (if str_eq (word 2 xs) "add" then added a else taken a) b
    else if str_eq (word 1 xs) "-6"
    then if str_eq (word 2 xs) "rule"
      then on_v6 a (if str_eq (word 3 xs) "add" then added b else taken b)
      else (true, (a, b))
    else (routes, (a, b))

abbrev answered : Bool × Counts → Output × Counts
answered (success, s) = (exited success "no", s)

-- `nft` says whether a ruleset is accepted.
abbrev counter : Bool → Bool → Shell
counter routes nft = record {
  State = Counts;
  is_root = λ s. true;
  has_binary = λ name s. true;
  run = λ xs s. answered (step routes xs s);
  feed_nft = λ text s. (finished nft "no", s);
}

abbrev count : Counts → Bool → TProxySettings → ℕ
count (a, b) true settings = a
count (a, b) false settings = b

module _ (routes nft : Bool) where
  count_add :
      (v4 f : Bool) (settings : TProxySettings) (s s' : Counts) (success : Bool) (e : String)
      → (counter routes nft).run (rule_args v4 add settings) s ≡ (exited success e, s')
      → count s' f settings ≡ count s f settings + (if success then same v4 f else 0)
  unfolding rule_args
  count_add true true settings (a, b) s' success e h = ground arith
  count_add true false settings (a, b) s' success e h = ground arith
  count_add false true settings (a, b) s' success e h = ground arith
  count_add false false settings (a, b) s' success e h = ground arith

  count_del :
      (v4 f : Bool) (settings : TProxySettings) (s s' : Counts) (success : Bool) (e : String)
      → (counter routes nft).run (rule_args v4 del settings) s ≡ (exited success e, s')
      → count s f settings ≡ count s' f settings + (if success then same v4 f else 0)
  unfolding rule_args
  count_del true true settings (zero, b) s' success e h = ground arith
  count_del true true settings (suc a, b) s' success e h = ground arith
  count_del true false settings (zero, b) s' success e h = ground arith
  count_del true false settings (suc a, b) s' success e h = ground arith
  count_del false true settings (a, zero) s' success e h = ground arith
  count_del false true settings (a, suc b) s' success e h = ground arith
  count_del false false settings (a, zero) s' success e h = ground arith
  count_del false false settings (a, suc b) s' success e h = ground arith

  count_not_started :
      (v4 f : Bool) (op : Op) (settings : TProxySettings) (s s' : Counts)
      → (counter routes nft).run (rule_args v4 op settings) s ≡ (not_started, s')
      → count s' f settings ≡ count s f settings
  unfolding rule_args
  count_not_started true f add settings s s' h = cc
  count_not_started true f del settings (zero, b) s' h = cc
  count_not_started true f del settings (suc a, b) s' h = cc
  count_not_started false f add settings s s' h = cc
  count_not_started false f del settings (a, zero) s' h = cc
  count_not_started false f del settings (a, suc b) s' h = cc

  count_route :
      (v4 f : Bool) (op : Op) (settings : TProxySettings) (s : Counts)
      → count ((counter routes nft).run (route_args v4 op settings) s).1 f settings
        ≡ count s f settings
  unfolding route_args
  count_route true f add settings (a, b) = refl
  count_route true f del settings (a, b) = refl
  count_route false f add settings (a, b) = refl
  count_route false f del settings (a, b) = refl

  abbrev counter_laws : IpLaws (counter routes nft)
  counter_laws = record {
    rules = count;
    rule_add = count_add;
    rule_del = count_del;
    rule_not_started = count_not_started;
    route_keeps = count_route;
    nft_keeps = λ text f settings s. refl;
  }

  counter-CanDelete :
      (settings : TProxySettings) → CanDelete (counter routes nft) counter_laws settings
  unfolding rule_args
  counter-CanDelete settings true (zero, b) some_rule = ground arith
  counter-CanDelete settings true (suc a, b) some_rule = ("no", (a, b), refl)
  counter-CanDelete settings false (a, zero) some_rule = ground arith
  counter-CanDelete settings false (a, suc b) some_rule = ("no", (a, b), refl)

abbrev settings : TProxySettings
settings = record {
  tproxy_port = 12345;
  proxy_fwmark = 1;
  table_id = 100;
  dns_ipv4 = none;
  bypass_subnets = [];
  bypass_subnets_v6 = [];
  core_uid = none;
}

backend : Unit {0}
unfolding rule_args route_args run_ip ran apply_ruleset fed ensure_prerequisites run_all run_each
    install_policy_routing remove_policy_routing apply_or_remove nft_enable nft_disable
backend = tt

rule_add_text : join " " (rule_args false add settings) ≡ "ip -6 rule add fwmark 0x1 lookup 100"
unfolding rule_args to_hex to_string join
rule_add_text = refl

route_add_text :
    join " " (route_args true add settings) ≡ "ip route add local 0.0.0.0/0 dev lo table 100"
unfolding route_args to_string join
route_add_text = refl

abbrev start : Counts
start = (3, 4)

nft_enable-err_example : count start false settings ≡ count start false settings
unfolding backend
nft_enable-err_example =
    Backend.nft_enable-err (counter true false) (counter_laws true false) settings false start start
      (4, 5) "nftables ruleset failed; policy routing was rolled back"
      (counter-CanDelete true false settings) refl refl

nft_disable-nft_enable_example :
    count (nft_disable (counter true true) (some settings) (4, 5)).1 true settings
    ≡ count start true settings
unfolding backend
nft_disable-nft_enable_example =
    Backend.nft_disable-nft_enable (counter true true) (counter_laws true true) settings true start
      (4, 5) (counter-CanDelete true true settings) refl
