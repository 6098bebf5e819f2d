-- ===== src/Controller/Failover.antt =====
-- crates/controller/src/proxy_controller.rs: what the failover cycle is told, what it keeps and what
-- it calls. Durations and instants are numbers of nanoseconds.
use yarisugi.Prelude.{
  ℕ, ◌+◌, ◌-◌, ◌/◌, ◌%◌, ◌^◌, Bool, true, false, ◌&&◌, ◌||◌, List, [], map, Option, none, some,
  String, Result, ok, err, ltb, leb, if◌then◌else◌, length,
}
use yarisugi.Prelude.Effects.{Action}
use yarisugi.Prelude.Panics.{◌>>=◌}
use yarisugi.Prelude.Results.{◌>>=◌ as and_then}
use yarisugi.Ir.Node.{CanonicalNode}
use yarisugi.Adapter.Targets.{ScatterConfig, ScatterReport}
use yarisugi.Controller.Tracks.{Floats, CandidateScore, default_config}
use yarisugi.Controller.AutoSelect.{AutoSelector}
use yarisugi.Controller.Session.{Environment, ProxyController, load_probe_targets}

pub record FailoverConfig : Type 0 where
  pub interval : ℕ
  pub required_consecutive_failures : ℕ
  pub min_time_since_manual_switch : ℕ
  pub cooldown_after_auto_switch : ℕ
  pub rescore_limit : ℕ
  pub background_rescore_cycles : ℕ
  pub quiet_hours_utc : Option (ℕ × ℕ)
  pub tunnel_health_floor : Option ℕ
  pub auto_select_on_idle : Bool

unfoldable pub default_failover : FailoverConfig
default_failover = record {
  interval = 180000000000;
  required_consecutive_failures = 2;
  min_time_since_manual_switch = 300000000000;
  cooldown_after_auto_switch = 300000000000;
  rescore_limit = 8;
  background_rescore_cycles = 4;
  quiet_hours_utc = none;
  tunnel_health_floor = some 35;
  auto_select_on_idle = true;
}

pub data FailoverAction : Type 0 where
  healthy : FailoverAction
  inspecting : ℕ → FailoverAction
  rearmed : ℕ → FailoverAction
  switched : String → FailoverAction
  adopted : String → FailoverAction
  unconfirmed : FailoverAction
  degraded : FailoverAction
  healed : String → FailoverAction
  manual_window : FailoverAction
  cooldown : FailoverAction
  idle : FailoverAction
  error : String → FailoverAction

unfoldable pub is_intervention : FailoverAction → Bool
is_intervention (switched label) = true
is_intervention (adopted label) = true
is_intervention degraded = true
is_intervention (healed label) = true
is_intervention _ = false

pub record FailoverStatus (floats : Floats) : Type 0 where
  pub active_node : Option String
  pub degraded : Bool
  pub consecutive_failures : ℕ
  pub last_action : Option FailoverAction
  pub last_action_at : Option ℕ
  pub shortlist : List CandidateScore
  pub cycles_since_rescore : ℕ
  pub selector : AutoSelector floats

unfoldable pub default_status : (floats : Floats) → FailoverStatus floats
default_status floats = record {
  active_node = none;
  degraded = false;
  consecutive_failures = 0;
  last_action = none;
  last_action_at = none;
  shortlist = [];
  cycles_since_rescore = 0;
  selector = record { config = default_config floats; tracks = λ id. none };
}

pub record TunnelHealth : Type 0 where
  pub grade : ℕ
  pub rtt_ms : ℕ
  pub spread_ms : ℕ
  pub retransmits : ℕ
  pub connections : ℕ

-- A hook may change the controller, which locks its fields itself. A rescore that panics is `none`.
pub record FailoverHooks (env : Environment) : Type 0 where
  pub probe : CanonicalNode → ScatterConfig → Action (ProxyController env) ScatterReport
  pub rescore :
      List CanonicalNode
      → ScatterConfig
      → ℕ
      → ProxyController env
      → Option (Result (List CandidateScore) × ProxyController env)
  pub switch_node : CanonicalNode → Bool → Action (ProxyController env) String
  pub degrade : ProxyController env → ProxyController env
  pub tunnel_health :
      Option (CanonicalNode → ProxyController env → Option TunnelHealth × ProxyController env)

-- `Ok(report) if report.passes`
abbrev pub passed : Result ScatterReport → Bool
passed (err e) = false
passed (ok report) = report.passes

-- `instant.elapsed() < window`, where there is an instant.
abbrev pub within : Option ℕ → ℕ → ℕ → Bool
within none window now = false
within (some at) window now = ltb (now - at) window

module _ (env : Environment) where
  open env use {now, unix_time}

  unfoldable pub candidate_pairs : ProxyController env → Result (List ℕ × List CanonicalNode)
  unfolding load_probe_targets
  candidate_pairs c =
      and_then (load_probe_targets env c)
        (λ targets. ok (map (λ t. t.0) targets, map (λ t. t.1) targets))

  unfoldable pub candidate_nodes : ProxyController env → Result (List CanonicalNode)
  unfolding candidate_pairs
  candidate_nodes c = and_then (candidate_pairs c) (λ pairs. ok pairs.1)

  unfoldable pub utc_hour : ProxyController env → ℕ
  utc_hour c = unix_time c.session.world / 3600 % 24

  -- A window whose start is after its end goes over midnight.
  unfoldable pub in_quiet_hours : FailoverConfig → ProxyController env → Bool
  unfolding utc_hour
  in_quiet_hours config c = elim config.quiet_hours_utc [
    | none ↦ false
    | some (start, end) ↦
        let hour = utc_hour c in
        if leb start end then leb start hour && ltb hour end else leb start hour || ltb hour end
  ]

  -- Whether the tunnel's sockets are below the floor, by a hook that is asked only if there is one.
  unfoldable pub ask_tunnel :
      Option ℕ
      → Option (CanonicalNode → ProxyController env → Option TunnelHealth × ProxyController env)
      → CanonicalNode
      → ProxyController env
      → Bool × ProxyController env
  ask_tunnel none hook active c = (false, c)
  ask_tunnel (some floor) none active c = (false, c)
  ask_tunnel (some floor) (some hook) active c =
      let answer = hook active c in
      (elim answer.0 [ none ↦ false | some health ↦ ltb health.grade floor ], answer.1)

  unfoldable pub tunnel_confirms_trouble :
      FailoverConfig
      → FailoverHooks env
      → CanonicalNode
      → ProxyController env
      → Bool × ProxyController env
  unfolding ask_tunnel
  tunnel_confirms_trouble config hooks active c =
      ask_tunnel config.tunnel_health_floor hooks.tunnel_health active c

  module _ (floats : Floats) where
    -- The counter is one of 32 bits.
    unfoldable pub should_refresh_shortlist :
        FailoverConfig → ProxyController env → FailoverStatus floats → Bool × FailoverStatus floats
    unfolding in_quiet_hours
    should_refresh_shortlist config c status =
        let cycles = (status.cycles_since_rescore + 1) % 2 ^ 32 in
        let by_cadence =
          ltb 0 config.background_rescore_cycles && leb config.background_rescore_cycles cycles in
        (by_cadence || in_quiet_hours config c, record status { cycles_since_rescore = cycles })

    -- The length of the new shortlist, or none where there is no new one.
    unfoldable pub rescored :
        Result (List CandidateScore) × ProxyController env
        → FailoverStatus floats
        → Option ℕ × (ProxyController env × FailoverStatus floats)
    rescored (err e, c) status = (none, (c, status))
    rescored (ok shortlist, c) status =
        (some (length shortlist), (c, record status { shortlist = shortlist }))

    unfoldable pub rescore_among :
        FailoverHooks env
        → FailoverConfig
        → ScatterConfig
        → Result (List CanonicalNode)
        → ProxyController env
        → FailoverStatus floats
        → Option (Option ℕ × (ProxyController env × FailoverStatus floats))
    unfolding rescored
    rescore_among hooks config cfg (err e) c status = some (none, (c, status))
    rescore_among hooks config cfg (ok candidates) c status = do
      answer ← hooks.rescore candidates cfg config.rescore_limit c
      some (rescored answer status)

    unfoldable pub rescore :
        FailoverHooks env
        → FailoverConfig
        → ScatterConfig
        → ProxyController env
        → FailoverStatus floats
        → Option (Option ℕ × (ProxyController env × FailoverStatus floats))
    unfolding candidate_nodes rescore_among
    rescore hooks config cfg c status = rescore_among hooks config cfg (candidate_nodes c) c status
