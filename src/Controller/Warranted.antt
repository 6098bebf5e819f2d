-- ===== src/Controller/Warranted.antt =====
-- crates/controller/src/proxy_controller.rs, `run_failover_cycle`: the cycles that leave the active node alone or adopt
-- one.
use yarisugi.Prelude.{
  ℕ, ◌≡◌, refl, sym, ap, subst, ◌∙◌, inl, inr, Bool, true, false, List, [], Option, none, some,
  Result, ok, err, unwrap_or,
}
use yarisugi.Prelude.Panics.{>>=-some}
use yarisugi.Ir.Node.{CanonicalNode}
use yarisugi.Adapter.Targets.{ScatterConfig}
use yarisugi.Controller.Tracks.{Floats, CandidateScore}
use yarisugi.Controller.Costs.{FloatLaws}
use yarisugi.Controller.Session.{Environment, ProxyController}
use yarisugi.Controller.Failover.{
  FailoverConfig, FailoverAction, healthy, rearmed, idle, FailoverStatus, FailoverHooks, passed,
  rescore, rescore_among, rescored, candidate_nodes,
}
use yarisugi.Controller.Adopt.{auto_adopt}
use yarisugi.Controller.Watchdog.{idle_if, rearm, refresh_if}
use yarisugi.Controller.Earned.{RescoreLaws}
use yarisugi.Controller.Adoption.{AdoptEnd, auto_adopt-Adopts}
use yarisugi.Controller.Justified.{HasActive, trial, IsEarned, Earns}

module _ (env : Environment) (floats : Floats) (config : FailoverConfig) (hooks : FailoverHooks env)
    (float_laws : FloatLaws floats) (laws : RescoreLaws env hooks) where
  -- A rescore changes the shortlist alone.
  rescore_among-total :
      (cfg : ScatterConfig) (nodes : Result (List CanonicalNode)) (c : ProxyController env)
      (status : FailoverStatus floats)
      → (len : Option ℕ) × (c' : ProxyController env) × (status' : FailoverStatus floats)
        × (rescore_among env floats hooks config cfg nodes c status ≡ some (len, (c', status')))
        × (status'.consecutive_failures ≡ status.consecutive_failures)
  unfolding rescore_among rescored
  rescore_among-total cfg (err e) c status = (none, c, status, refl, refl)
  rescore_among-total cfg (ok nodes) c status =
      let (answer, d, done, inside) = laws.in_range nodes cfg config.rescore_limit c in
      let (len, c', status', is, same) = answered answer d status in
      (
        len,
        c',
        status',
        >>=-some (hooks.rescore nodes cfg config.rescore_limit c) _ done (ap some is),
        same,
      )
    where
      answered :
          (answer : Result (List CandidateScore)) (d : ProxyController env)
          (status : FailoverStatus floats)
          → (len : Option ℕ) × (c' : ProxyController env) × (status' : FailoverStatus floats)
            × (rescored env floats (answer, d) status ≡ (len, (c', status')))
            × (status'.consecutive_failures ≡ status.consecutive_failures)
      answered (err e) d status = (_, _, _, refl, refl)
      answered (ok scores) d status = (_, _, _, refl, refl)

  pub rescore-total :
      (cfg : ScatterConfig) (c : ProxyController env) (status : FailoverStatus floats)
      → (len : Option ℕ) × (c' : ProxyController env) × (status' : FailoverStatus floats) × (rescore
            env floats hooks config cfg c status
          ≡ some (len, (c', status')))
        × (status'.consecutive_failures ≡ status.consecutive_failures)
  unfolding rescore
  rescore-total cfg c status = rescore_among-total cfg (candidate_nodes env c) c status

  module _ (c : ProxyController env) (failures : ℕ) where
    abbrev EarnsHere :
        Option (FailoverAction × (ProxyController env × FailoverStatus floats)) → Type 0
    EarnsHere = Earns env floats config hooks c failures

    -- An adoption, with the fallback to an idle cycle.
    adopted-Earns :
        (result : Option FailoverAction) (c' : ProxyController env)
        (status' : FailoverStatus floats)
        → c.degraded ≡ false
        → c.active_node ≡ none
        → config.auto_select_on_idle ≡ true
        → AdoptEnd env floats config hooks result c' status'
        → IsEarned env floats config hooks c failures (unwrap_or result idle) c' status'
    adopted-Earns result c' status' up alone auto (inl (label, is, reset, switch)) =
        subst (λ r. IsEarned env floats config hooks c failures (unwrap_or r idle) c' status')
          (sym is) (up, alone, auto, reset, switch)
    adopted-Earns result c' status' up alone auto (inr (inl is)) =
        subst (λ r. IsEarned env floats config hooks c failures (unwrap_or r idle) c' status')
          (sym is) (up, alone)
    adopted-Earns result c' status' up alone auto (inr (inr (inl is))) =
        subst (λ r. IsEarned env floats config hooks c failures (unwrap_or r idle) c' status')
          (sym is) (inr (inl alone))
    adopted-Earns result c' status' up alone auto (inr (inr (inr (e, is)))) =
        subst (λ r. IsEarned env floats config hooks c failures (unwrap_or r idle) c' status')
          (sym is) (up, inl alone)

    pub idle_if-Earns :
        (auto : Bool) (cfg : ScatterConfig) (status : FailoverStatus floats)
        → config.auto_select_on_idle ≡ auto
        → c.degraded ≡ false
        → c.active_node ≡ none
        → EarnsHere (idle_if env floats config hooks auto cfg c status)
    unfolding idle_if
    idle_if-Earns false cfg status is up alone =
        (idle, c, record status { shortlist = [] }, refl, (up, alone))
    idle_if-Earns true cfg status is up alone =
        let (result, c', status', done, end) =
          auto_adopt-Adopts env floats config hooks float_laws laws cfg c status in
        (
          unwrap_or result idle,
          c',
          status',
          >>=-some (auto_adopt env floats config hooks cfg c status) _ done refl,
          adopted-Earns result c' status' up alone is end,
        )

    pub refresh_if-Earns :
        (due : Bool) (cfg : ScatterConfig) (active : CanonicalNode) (d : ProxyController env)
        (status : FailoverStatus floats)
        → HasActive env floats config hooks c failures active
        → passed (trial env floats config hooks c failures active).0 ≡ true
        → status.consecutive_failures ≡ 0
        → EarnsHere (refresh_if env floats config hooks due cfg d status)
    unfolding refresh_if
    refresh_if-Earns false cfg active d status up pass reset =
        (healthy, d, status, refl, (active, up, pass, reset))
    refresh_if-Earns true cfg active d status up pass reset =
        let (len, c', status', done, same) = rescore-total cfg d status in
        let (action, c'', status'', is, earned) =
          rearm-Earns active len c' status' up pass (same ∙ reset) in
        (
          action,
          c'',
          status'',
          >>=-some (rescore env floats hooks config cfg d status) _ done (ap some is),
          earned,
        )
      where
        rearm-Earns :
            (active : CanonicalNode) (len : Option ℕ) (c' : ProxyController env)
            (status' : FailoverStatus floats)
            → HasActive env floats config hooks c failures active
            → passed (trial env floats config hooks c failures active).0 ≡ true
            → status'.consecutive_failures ≡ 0
            → (action : FailoverAction) × (c'' : ProxyController env) × (status'' : FailoverStatus
                floats)
              × (rearm env floats config hooks len (c', status') ≡ (action, (c'', status'')))
              × IsEarned env floats config hooks c failures action c'' status''
        rearm-Earns active none c' status' up pass reset =
            (healthy, c', status', refl, (active, up, pass, reset))
        rearm-Earns active (some n) c' status' up pass reset = (
          rearmed n,
          c',
          record status' { cycles_since_rescore = 0 },
          refl,
          (active, up, pass, reset),
        )
