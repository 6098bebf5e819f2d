-- ===== src/Controller/Conduct.antt =====
-- crates/controller/src/proxy_controller.rs, `run_failover_cycle`: each of its actions is earned.
use yarisugi.Prelude.{
  ℕ, ◌+◌, ◌%◌, ◌^◌, ◌≡◌, refl, sym, ap, subst, inl, inr, Bool, true, false, Option, none, some, ltb,
}
use yarisugi.Prelude.Panics.{>>=-some}
use yarisugi.Ir.Node.{CanonicalNode}
use yarisugi.Controller.Tracks.{Floats}
use yarisugi.Controller.Costs.{FloatLaws}
use yarisugi.Controller.Session.{Environment, ProxyController, scatter_config}
use yarisugi.Controller.Failover.{
  FailoverConfig, FailoverAction, inspecting, manual_window, cooldown, FailoverStatus,
  FailoverHooks, passed, within, should_refresh_shortlist, rescore,
}
use yarisugi.Controller.Watchdog.{
  idle_cycle, healthy_cycle, cool_if, inspect_if, failing_cycle, judge_if, window_if,
  monitored_cycle, cycle_if, run_failover_cycle,
}
use yarisugi.Controller.Earned.{RescoreLaws}
use yarisugi.Controller.Escalation.{EscalateEnd, escalate-End}
use yarisugi.Controller.Healing.{DegradedEnd, heal_or_stay_degraded-End}
use yarisugi.Controller.Justified.{
  HasActive, trial, told, failures_now, required, Fails, Escalates, IsEarned, Earns,
}
use yarisugi.Controller.Warranted.{rescore-total, refresh_if-Earns, idle_if-Earns}

module _ (env : Environment) (floats : Floats) (config : FailoverConfig) (hooks : FailoverHooks env)
    (float_laws : FloatLaws floats) (laws : RescoreLaws env hooks) where
  module _ (c : ProxyController env) (failures : ℕ) where
    abbrev EarnsHere :
        Option (FailoverAction × (ProxyController env × FailoverStatus floats)) → Type 0
    EarnsHere = Earns env floats config hooks c failures

    escalated-Earns :
        (active : CanonicalNode) (action : FailoverAction) (c' : ProxyController env)
        (status' : FailoverStatus floats)
        → Escalates env floats config hooks c failures active
        → EscalateEnd env floats config hooks float_laws laws
            (scatter_config c.settings)
            action
            c'
            status'
        → IsEarned env floats config hooks c failures action c' status'
    escalated-Earns active action c' status' why (inl (inl (label, is, reset, switch))) =
        subst (λ a. IsEarned env floats config hooks c failures a c' status') (sym is)
          (active, why, reset, switch)
    escalated-Earns active action c' status' why (inl (inr (is, reset, nothing, dropped))) =
        subst (λ a. IsEarned env floats config hooks c failures a c' status') (sym is)
          (inr (inr (active, why, reset, nothing, dropped)))
    escalated-Earns active action c' status' why (inr (inl is)) =
        subst (λ a. IsEarned env floats config hooks c failures a c' status') (sym is) (active, why)
    escalated-Earns active action c' status' why (inr (inr (e, is))) =
        subst (λ a. IsEarned env floats config hooks c failures a c' status') (sym is)
          (why.0.0.0, inr (active, why))

    cool_if-Earns :
        (cooling : Bool) (active : CanonicalNode) (status : FailoverStatus floats)
        → Fails env floats config hooks c failures active
        → ltb
            (failures_now env floats config hooks c failures)
            (required env floats config hooks c failures active)
          ≡ false
        → (let d = (told env floats config hooks c failures active).1 in
            within d.last_auto_switch config.cooldown_after_auto_switch (env.now d.session.world)
            ≡ cooling)
        → EarnsHere (
            cool_if env floats config hooks cooling
              (scatter_config c.settings)
              active
              (told env floats config hooks c failures active).1
              status)
    unfolding cool_if
    cool_if-Earns true active status fails patient cooling = (
      cooldown,
      (told env floats config hooks c failures active).1,
      status,
      refl,
      (active, fails, refl),
    )
    cool_if-Earns false active status fails patient cooling =
        let (action, c', status', done, end) =
          escalate-End env floats config hooks float_laws laws (scatter_config c.settings) active
            (told env floats config hooks c failures active).1 status in
        (
          action,
          c',
          status',
          done,
          escalated-Earns active action c' status' (fails, patient, cooling) end,
        )

    inspect_if-Earns :
        (early : Bool) (active : CanonicalNode) (status : FailoverStatus floats)
        → Fails env floats config hooks c failures active
        → status.consecutive_failures ≡ failures_now env floats config hooks c failures
        → ltb
            (failures_now env floats config hooks c failures)
            (required env floats config hooks c failures active)
          ≡ early
        → EarnsHere (
            inspect_if env floats config hooks early
              (scatter_config c.settings)
              active
              (told env floats config hooks c failures active).1
              status)
    unfolding inspect_if
    inspect_if-Earns true active status fails same early =
        let d = (told env floats config hooks c failures active).1 in
        let cfg = scatter_config c.settings in
        let (len, c', status', done, kept) =
          rescore-total env floats config hooks float_laws laws cfg d status in
        (
          inspecting status.consecutive_failures,
          c',
          status',
          >>=-some (rescore env floats hooks config cfg d status) _ done refl,
          (
            active,
            fails,
            same,
            subst (λ n. ltb n (required env floats config hooks c failures active) ≡ true)
                (sym same) early,
            kept,
          ),
        )
    inspect_if-Earns false active status fails same patient =
        cool_if-Earns _ active status fails patient refl

    judge_if-Earns :
        (pass : Bool) (active : CanonicalNode) (status : FailoverStatus floats)
        → HasActive env floats config hooks c failures active
        → status.consecutive_failures ≡ failures
        → passed (trial env floats config hooks c failures active).0 ≡ pass
        → EarnsHere (
            judge_if env floats config hooks pass
              (scatter_config c.settings)
              active
              (trial env floats config hooks c failures active).1
              status)
    unfolding judge_if failing_cycle healthy_cycle should_refresh_shortlist
    judge_if-Earns true active status up same pass =
        refresh_if-Earns env floats config hooks float_laws laws c failures _
          (scatter_config c.settings) active (trial env floats config hooks c failures active).1 _
          up pass refl
    judge_if-Earns false active status up same fail =
        inspect_if-Earns _ active _ (up, fail) (ap (λ n. (n + 1) % 2 ^ 64) same)
          (ap (λ n. ltb ((n + 1) % 2 ^ 64) (required env floats config hooks c failures active))
            (sym same))

    window_if-Earns :
        (recent : Bool) (active : CanonicalNode) (status : FailoverStatus floats)
        → c.degraded ≡ false
        → c.active_node ≡ some active
        → status.consecutive_failures ≡ failures
        → within c.last_manual_switch config.min_time_since_manual_switch (env.now c.session.world)
          ≡ recent
        → EarnsHere
            (window_if env floats config hooks recent (scatter_config c.settings) active c status)
    unfolding window_if
    window_if-Earns true active status up is same recent =
        (manual_window, c, status, refl, (refl, recent))
    window_if-Earns false active status up is same recent =
        judge_if-Earns _ active status (up, is, recent) same refl

    monitored_cycle-Earns :
        (node : Option CanonicalNode) (status : FailoverStatus floats)
        → c.degraded ≡ false
        → c.active_node ≡ node
        → status.consecutive_failures ≡ failures
        → EarnsHere
            (monitored_cycle env floats config hooks (scatter_config c.settings) node c status)
    unfolding monitored_cycle idle_cycle
    monitored_cycle-Earns none status up is same =
        idle_if-Earns env floats config hooks float_laws laws c failures config.auto_select_on_idle
          (scatter_config c.settings) status refl up is
    monitored_cycle-Earns (some active) status up is same =
        window_if-Earns _ active status up is same refl

    cycle_if-Earns :
        (down : Bool) (status : FailoverStatus floats)
        → c.degraded ≡ down
        → status.consecutive_failures ≡ failures
        → EarnsHere (cycle_if env floats config hooks down (scatter_config c.settings) c status)
    unfolding cycle_if
    cycle_if-Earns true status is same =
        let (action, c', status', done, end) =
          heal_or_stay_degraded-End env floats config hooks laws (scatter_config c.settings) c
            status in
        (action, c', status', done, healing action c' status' is end)
      where
        healing :
            (action : FailoverAction) (c' : ProxyController env) (status' : FailoverStatus floats)
            → c.degraded ≡ true
            → DegradedEnd env floats config hooks (scatter_config c.settings) action c' status'
            → IsEarned env floats config hooks c failures action c' status'
        healing action c' status' is (inl stays) =
            subst (λ a. IsEarned env floats config hooks c failures a c' status') (sym stays)
              (inl is)
        healing action c' status' is (inr (label, heals, reset, switch)) =
            subst (λ a. IsEarned env floats config hooks c failures a c' status') (sym heals)
              (is, reset, switch)
    cycle_if-Earns false status is same = monitored_cycle-Earns c.active_node status is refl same

  -- Where no float is NaN (`FloatLaws`) and a rescore does not panic and scores only the candidates it is
  -- given (`RescoreLaws`), a cycle of the watchdog does not panic, and its action is earned (`IsEarned`).
  -- It switches only from an active node that fails its probe, that has failed as often as is required
  -- (once, if the kernel agrees), outside both waiting times, and only to a node of the catalog with a
  -- passing score and a probe that passed right before. From such a node it degrades only if no score
  -- of the shortlist in the status that it leaves passes. It adopts only where there is no active node.
  -- It heals only where the controller is degraded, and right after a probe that passed. Where the
  -- controller is not degraded and has an active node, any action but to wait comes outside the time
  -- after a manual switch; and a cycle whose action is to wait leaves the controller as it was.
  pub run_failover_cycle-Earns :
      (c : ProxyController env) (status : FailoverStatus floats)
      → Earns env floats config hooks c status.consecutive_failures
          (run_failover_cycle env floats config hooks c status)
  unfolding run_failover_cycle
  run_failover_cycle-Earns c status =
      cycle_if-Earns c status.consecutive_failures c.degraded _ refl refl
