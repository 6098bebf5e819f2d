-- ===== src/Netd/Netfilter.antt =====
-- crates/netd/src/netfilter.rs: the backend that installs policy routing with `ip` and an
-- nftables ruleset with `nft`. The two programs are a parameter: what each run of them reports,
-- and what it makes of the state of the system.
use Prim.Native.String.{◌++◌ as str_append}
use text.Mathlib.Text.{◌==◌ as str_eq}
use yarisugi.Prelude.{
  Bool, true, false, List, [], ◌∷◌, ◌++◌, String, Result, ok, err, if◌then◌else◌,
}
use yarisugi.Prelude.Effects.{Action, continue}
use yarisugi.Prelude.Text.{to_string, to_hex, join}
use yarisugi.Netd.Config.{TProxySettings}

-- How a run of `ip` ends: it cannot be started, or it exits, with success or with a message.
pub data Output : Type 0 where
  not_started : Output
  exited : Bool → String → Output

-- How a run of `nft -f -` ends, with the steps before it that can fail.
pub data Fed : Type 0 where
  not_spawned : Fed
  no_stdin : Fed
  not_written : Fed
  not_waited : String → Fed
  finished : Bool → String → Fed

pub record Shell : Type 1 where
  pub State : Type 0
  pub is_root : State → Bool
  pub has_binary : String → State → Bool
  pub run : List String → State → Output × State
  pub feed_nft : String → State → Fed × State

abbrev pub local_bypass_v4 : List String
local_bypass_v4 = "127.0.0.0/8" ∷ "169.254.0.0/16" ∷ []

abbrev pub local_bypass_v6 : List String
local_bypass_v6 = "::1/128" ∷ "fe80::/10" ∷ "fc00::/7" ∷ []

pub data Op : Type 0 where
  add del : Op

unfoldable pub family : Bool → List String
family true = []
family false = "-6" ∷ []

unfoldable pub rule_op : Op → String
rule_op add = "add"
rule_op del = "del"

unfoldable pub rule_args : Bool → Op → TProxySettings → List String
unfolding family rule_op
rule_args v4 op settings =
    "ip"
    ∷ (family v4
        ++ ("rule"
            ∷ rule_op op
            ∷ "fwmark"
            ∷ to_hex settings.proxy_fwmark
            ∷ "lookup"
            ∷ to_string settings.table_id
            ∷ []))

unfoldable pub default_route : Bool → String
default_route true = "0.0.0.0/0"
default_route false = "::/0"

unfoldable pub route_op : Bool → Op → List String
unfolding default_route
route_op v4 add = "add" ∷ "local" ∷ default_route v4 ∷ "dev" ∷ "lo" ∷ []
route_op v4 del = "flush" ∷ []

unfoldable pub route_args : Bool → Op → TProxySettings → List String
unfolding family route_op
route_args v4 op settings =
    "ip"
    ∷ (family v4 ++ ("route" ∷ (route_op v4 op ++ ("table" ∷ to_string settings.table_id ∷ []))))

unfoldable pub contains : List String → String → Bool
contains [] cidr = false
contains (x ∷ xs) cidr = let rest = contains xs cidr in if str_eq x cidr then true else rest

-- The loop of `cidr_set`: a configured network is pushed unless it is there already.
unfoldable pub push_missing : List String → List String → List String
unfolding contains
push_missing cidrs [] = cidrs
push_missing cidrs (cidr ∷ configured) =
    push_missing (if contains cidrs cidr then cidrs else cidrs ++ (cidr ∷ [])) configured

unfoldable pub cidr_set : List String → List String → String
unfolding push_missing
cidr_set configured defaults = join ", " (push_missing defaults configured)

module _ (shell : Shell) where
  open shell use {State, is_root, has_binary, run, feed_nft}

  unfoldable pub ran : List String → Output × State → Result (Unit {0}) × State
  ran args (not_started, s) =
      (err (str_append "failed to run `" (str_append (join " " args) "`")), s)
  ran args (exited true _, s) = (ok tt, s)
  ran args (exited false stderr, s) = (
    err (
        str_append "`ip` rejected arguments `"
          (str_append (join " " args) (str_append "`: " stderr))),
    s,
  )

  unfoldable pub run_ip : List String → Action State (Unit {0})
  unfolding ran
  run_ip args s = ran args (run args s)

  unfoldable pub fed : Fed × State → Result (Unit {0}) × State
  fed (not_spawned, s) = (err "failed to run `nft -f -`", s)
  fed (no_stdin, s) = (err "nft stdin is unavailable", s)
  fed (not_written, s) = (err "failed to write ruleset to nft", s)
  fed (not_waited e, s) = (err e, s)
  fed (finished true _, s) = (ok tt, s)
  fed (finished false stderr, s) = (err (str_append "nft rejected the ruleset: " stderr), s)

  unfoldable pub apply_ruleset : String → Action State (Unit {0})
  unfolding fed
  apply_ruleset rules s = fed (feed_nft rules s)

  unfoldable pub ensure_prerequisites : Action State (Unit {0})
  ensure_prerequisites s =
      if is_root s
      then if has_binary "nft" s
        then if has_binary "ip" s
          then (ok tt, s)
          else (err "required binary `ip` is not available", s)
        else (err "required binary `nft` is not available", s)
      else (err "nftables backend requires root privileges", s)

  -- What `install_policy_routing` and `remove_policy_routing` run, in order.
  abbrev pub routing_commands : Op → TProxySettings → List (List String)
  routing_commands op settings =
      rule_args true op settings
      ∷ route_args true op settings
      ∷ rule_args false op settings
      ∷ route_args false op settings
      ∷ []

  -- Commands of which the first that fails ends the sequence.
  unfoldable pub run_all : List (List String) → Action State (Unit {0})
  run_all [] s = (ok tt, s)
  run_all (args ∷ rest) s = continue (run_ip args s) (λ _. run_all rest) (λ e s'. (err e, s'))

  unfoldable pub install_policy_routing : TProxySettings → Action State (Unit {0})
  unfolding run_all
  install_policy_routing settings = run_all (routing_commands add settings)

  -- Commands whose failures are ignored.
  unfoldable pub run_each : List (List String) → State → State
  run_each [] s = s
  run_each (args ∷ rest) s = run_each rest (run_ip args s).1

  unfoldable pub remove_policy_routing : TProxySettings → Action State (Unit {0})
  unfolding run_each
  remove_policy_routing settings s = (ok tt, run_each (routing_commands del settings) s)
