-- ===== src/Controller/Watchdog.antt =====
-- crates/controller/src/proxy_controller.rs: the whole failover cycle, and the body of the watchdog's
-- loop.
use yarisugi.Prelude.{
  ℕ, ◌+◌, ◌%◌, ◌^◌, Bool, true, false, [], Option, none, some, String, ltb, if◌then◌else◌,
  unwrap_or,
}
use yarisugi.Prelude.Panics.{◌>>=◌}
use yarisugi.Ir.Node.{CanonicalNode}
use yarisugi.Adapter.Targets.{ScatterConfig}
use yarisugi.Controller.Tracks.{Floats}
use yarisugi.Controller.Session.{Environment, ProxyController, scatter_config}
use yarisugi.Controller.Failover.{
  FailoverConfig, FailoverAction, healthy, inspecting, rearmed, manual_window, cooldown, idle,
  FailoverStatus, FailoverHooks, passed, within, tunnel_confirms_trouble, should_refresh_shortlist,
  rescore,
}
use yarisugi.Controller.Cycle.{no_failures, escalate, heal_or_stay_degraded}
use yarisugi.Controller.Adopt.{auto_adopt}

module _ (env : Environment) (floats : Floats) (config : FailoverConfig)
    (hooks : FailoverHooks env) where
  abbrev pub State : Type 0
  State = ProxyController env × FailoverStatus floats

  -- A cycle with no active node: `match config.auto_select_on_idle`.
  unfoldable pub idle_if :
      Bool
      → ScatterConfig
      → ProxyController env
      → FailoverStatus floats
      → Option (FailoverAction × State)
  unfolding auto_adopt
  idle_if false cfg c status = some (idle, (c, record status { shortlist = [] }))
  idle_if true cfg c status = do
    result ← auto_adopt env floats config hooks cfg c status
    some (unwrap_or result.0 idle, result.1)

  unfoldable pub idle_cycle :
      ScatterConfig → ProxyController env → FailoverStatus floats → Option (FailoverAction × State)
  unfolding idle_if
  idle_cycle cfg c status = idle_if config.auto_select_on_idle cfg c status

  -- What follows the rescore of a healthy cycle.
  abbrev pub rearm : Option ℕ → State → FailoverAction × State
  rearm none state = (healthy, state)
  rearm (some len) (c, status) = (rearmed len, (c, record status { cycles_since_rescore = 0 }))

  unfoldable pub refresh_if :
      Bool
      → ScatterConfig
      → ProxyController env
      → FailoverStatus floats
      → Option (FailoverAction × State)
  unfolding rescore
  refresh_if false cfg c status = some (healthy, (c, status))
  refresh_if true cfg c status = do
    result ← rescore env floats hooks config cfg c status
    some (rearm result.0 result.1)

  -- The active node has passed.
  unfoldable pub healthy_cycle :
      ScatterConfig → ProxyController env → FailoverStatus floats → Option (FailoverAction × State)
  unfolding should_refresh_shortlist refresh_if
  healthy_cycle cfg c status =
      let due =
        should_refresh_shortlist env floats config c (no_failures env floats config hooks status) in
      refresh_if due.0 cfg c due.1

  -- It has failed often enough: `auto.elapsed() < config.cooldown_after_auto_switch`.
  unfoldable pub cool_if :
      Bool
      → ScatterConfig
      → CanonicalNode
      → ProxyController env
      → FailoverStatus floats
      → Option (FailoverAction × State)
  unfolding escalate
  cool_if true cfg active c status = some (cooldown, (c, status))
  cool_if false cfg active c status = escalate env floats config hooks cfg active c status

  -- `failures < required`
  unfoldable pub inspect_if :
      Bool
      → ScatterConfig
      → CanonicalNode
      → ProxyController env
      → FailoverStatus floats
      → Option (FailoverAction × State)
  unfolding rescore cool_if
  inspect_if true cfg active c status = do
    result ← rescore env floats hooks config cfg c status
    some (inspecting status.consecutive_failures, result.1)
  inspect_if false cfg active c status =
      cool_if
        (within c.last_auto_switch config.cooldown_after_auto_switch (env.now c.session.world)) cfg
        active c status

  -- The active node has failed, for the time that the status now says.
  unfoldable pub failing_cycle :
      ScatterConfig
      → CanonicalNode
      → ProxyController env
      → FailoverStatus floats
      → Option (FailoverAction × State)
  unfolding tunnel_confirms_trouble inspect_if
  failing_cycle cfg active c status =
      let corroborated = tunnel_confirms_trouble env config hooks active c in
      let required = if corroborated.0 then 1 else config.required_consecutive_failures in
      inspect_if (ltb status.consecutive_failures required) cfg active corroborated.1 status

  -- Whether the probe passed. The counter is one of 64 bits.
  unfoldable pub judge_if :
      Bool
      → ScatterConfig
      → CanonicalNode
      → ProxyController env
      → FailoverStatus floats
      → Option (FailoverAction × State)
  unfolding healthy_cycle failing_cycle
  judge_if true cfg active c status = healthy_cycle cfg c status
  judge_if false cfg active c status =
      failing_cycle cfg active c
        (record status { consecutive_failures = (status.consecutive_failures + 1) % 2 ^ 64 })

  -- `manual.elapsed() < config.min_time_since_manual_switch`, and then the probe.
  unfoldable pub window_if :
      Bool
      → ScatterConfig
      → CanonicalNode
      → ProxyController env
      → FailoverStatus floats
      → Option (FailoverAction × State)
  unfolding judge_if
  window_if true cfg active c status = some (manual_window, (c, status))
  window_if false cfg active c status =
      let trial = hooks.probe active cfg c in judge_if (passed trial.0) cfg active trial.1 status

  -- The cycle of a controller that is not degraded.
  unfoldable pub monitored_cycle :
      ScatterConfig
      → Option CanonicalNode
      → ProxyController env
      → FailoverStatus floats
      → Option (FailoverAction × State)
  unfolding idle_cycle window_if
  monitored_cycle cfg none c status = idle_cycle cfg c status
  monitored_cycle cfg (some active) c status =
      window_if
        (within c.last_manual_switch config.min_time_since_manual_switch (env.now c.session.world))
        cfg active c status

  -- `active.as_ref().map(|node| node.meta.label.to_string())`
  abbrev pub label_of_active : Option CanonicalNode → Option String
  label_of_active none = none
  label_of_active (some node) = some node.meta.label

  -- The cycle behind the update of the status.
  unfoldable pub cycle_if :
      Bool
      → ScatterConfig
      → ProxyController env
      → FailoverStatus floats
      → Option (FailoverAction × State)
  unfolding heal_or_stay_degraded monitored_cycle
  cycle_if true cfg c status = heal_or_stay_degraded env floats config hooks cfg c status
  cycle_if false cfg c status = monitored_cycle cfg c.active_node c status

  unfoldable pub run_failover_cycle :
      ProxyController env → FailoverStatus floats → Option (FailoverAction × State)
  unfolding cycle_if
  run_failover_cycle c status =
      cycle_if c.degraded (scatter_config c.settings) c
        (record status { active_node = label_of_active c.active_node; degraded = c.degraded })

  -- One round of the watchdog's thread, which ends where it was told to stop.
  unfoldable pub watchdog_thread_round : Bool → State → Option (Option State)
  unfolding run_failover_cycle
  watchdog_thread_round true state = some none
  watchdog_thread_round false (c, status) = do
    (action, (c, status)) ← run_failover_cycle c status
    some (
        some (
          c,
          record status {
            last_action = some action;
            last_action_at = some (env.now c.session.world);
          },
        ))
