-- ===== src/Netd/Tests.antt =====
-- Runs of the daemon on small inputs, and its theorems at inputs that meet their hypotheses.
use yarisugi.Prelude.{
  ℕ, ◌+◌, ◌≡◌, refl, ◌≢◌, ◌↔◌, ◌⊎◌, inl, Bool, true, false, [], ◌∷◌, Option, none, some, arith,
  Result, ok, err, ◌==◌,
}
use yarisugi.Netd.Proto.{
  EnableArgs, enable_routing, disable_routing, heartbeat, routing_enabled, routing_disabled,
  heartbeat_ack,
}
use yarisugi.Netd.Config.{
  NetType, RoutingConfig, validate_config, TProxySettings, from_config, check_port, check_mark,
  check_table, check_dns, check_uid, parse_subnets, parse_subnet,
}
use yarisugi.Netd.Daemon.{
  Environment, App, noop, handle_enable, process_request, require_controller, claim_controller,
  claim, release_session, commit, backend_enable, backend_disable, rollback, rollback_settings,
  clear, disconnect, handle_heartbeat, heartbeat_allowed, beat, watchdog_round, watchdog_expired,
  initial,
}
use yarisugi.Netd.Admission.{IsAdmissible, validate_config_iff}
use yarisugi.Netd.Handlers
use yarisugi.Netd.Owners.{MayHold, process_request-MayHold}
use yarisugi.Netd.Sections
use yarisugi.Netd.Watchdog

-- Networks that parse as their prefix length, the length of the text.
abbrev toy_net : NetType
toy_net = record {
  Net = ℕ;
  parse = λ s. some 8;
  prefix_len = λ n. n;
  to_string = λ n. "10.0.0.0/8";
}

-- A backend that counts its calls, and fails to enable when the count is 7.
abbrev toy_enable : TProxySettings → ℕ → Result (Unit {0}) × ℕ
toy_enable settings n = elim (n == 7) [ true ↦ (err "busy", n) | false ↦ (ok tt, n + 1) ]

abbrev toy : Environment
toy = record { v4 = toy_net; v6 = toy_net; Os = ℕ; enable = toy_enable; disable = noop }

abbrev args : EnableArgs
args = record {
  tproxy_port = 12345;
  proxy_fwmark = 1;
  table_id = 100;
  dns_ipv4 = none;
  bypass_subnets = "10.0.0.0/8" ∷ [];
  bypass_subnets_v6 = [];
  core_uid = some 1000;
}

abbrev config : RoutingConfig toy_net toy_net
config = record {
  tproxy_port = 12345;
  proxy_fwmark = 1;
  table_id = 100;
  dns_ipv4 = none;
  bypass_subnets = 8 ∷ [];
  bypass_subnets_v6 = [];
  core_uid = some 1000;
}

abbrev idle : App toy
idle = record {
  daemon = record {
    active_session = none;
    routing_active = false;
    last_heartbeat = 0;
    routing_config = none;
  };
  os = 0;
}

-- Session 1 controls active routing since time 5, after `n` calls of the backend.
abbrev running : ℕ → App toy
running n = record {
  daemon = record {
    active_session = some 1;
    routing_active = true;
    last_heartbeat = 5;
    routing_config = some config;
  };
  os = n;
}

handlers : Unit {0}
unfolding validate_config check_port check_mark check_table check_dns check_uid parse_subnets
    parse_subnet from_config noop require_controller heartbeat_allowed claim claim_controller
    release_session commit backend_enable backend_disable rollback_settings clear rollback beat
    handle_heartbeat handle_enable process_request watchdog_expired watchdog_round disconnect
handlers = tt

args_valid : validate_config toy_net toy_net args ≡ ok config
unfolding handlers
args_valid = refl

enable_run :
    process_request toy 1 (enable_routing 1 args) 3 5 idle ≡ (ok routing_enabled, running 1)
unfolding handlers
enable_run = refl

watchdog_run : (watchdog_round toy 5000000006 (running 1)).daemon.routing_active ≡ false
unfolding handlers
watchdog_run = refl

validate_config_iff_example :
    (validate_config toy_net toy_net args ≡ ok config) ↔ IsAdmissible toy_net toy_net args config
validate_config_iff_example = validate_config_iff toy_net toy_net args config

handle_enable-contended_example :
    handle_enable toy 2 args 3 5 (running 1)
    ≡ (Handlers.refusal toy (validate_config toy_net toy_net args), running 1)
handle_enable-contended_example =
    Handlers.handle_enable-contended toy 2 1 3 5 args (running 1) refl (omega arith)

handle_enable-enabled_example :
    handle_enable toy 1 args 3 5 idle
    ≡ Handlers.enabled toy 1 3 5 config idle (toy_enable (from_config config) 0)
handle_enable-enabled_example =
    Handlers.handle_enable-enabled toy 1 3 5 args config idle args_valid (inl refl)

reenable_failure_orphans_example :
    let app' = (handle_enable toy 1 args 8 9 (running 7)).1 in
    (app'.daemon.routing_active ≡ true)
    × (app'.daemon.active_session ≡ none)
    × (handle_heartbeat toy 1 4 10 app' ≡ (err "session does not own the active controller", app'))
unfolding handlers
reenable_failure_orphans_example =
    Handlers.reenable_failure_orphans toy 1 8 9 10 4 args (running 7) config 7 "busy" args_valid
      refl refl refl

handle_heartbeat_iff_example :
    ((handle_heartbeat toy 1 4 10 (running 1)).0 ≡ ok (heartbeat_ack 4))
    ↔ (◌≡◌ {A = Option ℕ} (some 1) (some 1) × ◌≡◌ {A = Bool} true true)
handle_heartbeat_iff_example = Handlers.handle_heartbeat_iff toy 1 4 10 (running 1)

process_request-disable_example :
    let (answer, after) = process_request toy 2 (disable_routing 2) 3 5 (running 1) in
    (answer ≡ ok routing_disabled)
    × (after.daemon.active_session ≡ none)
    × (after.daemon.routing_active ≡ false)
    × (after.daemon.routing_config ≡ none)
    × (after.os ≡ 1)
unfolding handlers
process_request-disable_example = Handlers.process_request-disable toy 2 3 5 (running 1) 1 refl

disconnect-releases_example : (disconnect toy 1 (running 1)).1.daemon.active_session ≢ some 1
unfolding handlers
disconnect-releases_example = Handlers.disconnect-releases toy 1 (running 1) refl

interleave-initial-IsConsistent_example : Sections.IsConsistent toy (
    Sections.interleave toy
      (Sections.claims 1 3 ∷ Sections.commits 5 config ∷ [])
      (initial toy 0 0))
interleave-initial-IsConsistent_example =
    Sections.interleave-initial-IsConsistent toy 0 0
      (Sections.claims 1 3 ∷ Sections.commits 5 config ∷ [])

section-owner_example :
    ((Sections.section toy (Sections.claims 2 9) (running 1)).daemon.active_session ≡ some 1)
    ⊎ ((Sections.section toy (Sections.claims 2 9) (running 1)).daemon.active_session ≡ none)
section-owner_example = Sections.section-owner toy (Sections.claims 2 9) (running 1) 1 refl

process_request-MayHold_example :
    MayHold 2
      (enable_routing 2 args)
      (running 1).daemon.active_session
      (process_request toy 2 (enable_routing 2 args) 3 5 (running 1)).1.daemon.active_session
process_request-MayHold_example =
    process_request-MayHold toy 2 3 5 (enable_routing 2 args) (running 1)

heartbeat-watchdog_round_example :
    let app' = (process_request toy 1 (heartbeat 1 4) 9 9 (running 1)).1 in
    (watchdog_round toy 5000000009 app' ≡ app')
    × (app'.daemon.active_session ≡ some 1)
    × (app'.daemon.routing_active ≡ true)
heartbeat-watchdog_round_example =
    Watchdog.heartbeat-watchdog_round toy 1 4 9 9 5000000009 (running 1) refl refl (omega arith)
