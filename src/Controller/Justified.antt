-- ===== src/Controller/Justified.antt =====
-- crates/controller/src/proxy_controller.rs, `run_failover_cycle`: what each of its actions rests on.
use yarisugi.Prelude.{
  ℕ, ◌+◌, ◌%◌, ◌^◌, ◌≡◌, ◌⊎◌, Bool, true, false, List, [], keep_if, Option, none, some, Result, ltb,
  if◌then◌else◌,
}
use yarisugi.Ir.Node.{CanonicalNode}
use yarisugi.Adapter.Targets.{ScatterReport}
use yarisugi.Controller.Tracks.{Floats}
use yarisugi.Controller.Session.{Environment, ProxyController, scatter_config}
use yarisugi.Controller.Failover.{
  FailoverConfig, FailoverAction, healthy, inspecting, rearmed, switched, adopted, unconfirmed,
  degraded, healed, manual_window, cooldown, idle, error, FailoverStatus, FailoverHooks, passed,
  within, tunnel_confirms_trouble,
}
use yarisugi.Controller.Earned.{ProbedSwitch}
use yarisugi.Controller.Escalation.{IsCatalog}
use yarisugi.Controller.Adoption.{VerifiedSwitch}

module _ (env : Environment) (floats : Floats) (config : FailoverConfig) (hooks : FailoverHooks env)
    (c : ProxyController env) (failures : ℕ) where
  -- A controller that is not degraded has the active node, and no manual switch is recent.
  abbrev pub HasActive : CanonicalNode → Type 0
  HasActive active =
      (c.degraded ≡ false)
      × (c.active_node ≡ some active)
      × (within c.last_manual_switch config.min_time_since_manual_switch (env.now c.session.world)
          ≡ false)

  -- The probe of the active node, and what the kernel says after it.
  abbrev pub trial : CanonicalNode → Result ScatterReport × ProxyController env
  trial active = hooks.probe active (scatter_config c.settings) c

  abbrev pub told : CanonicalNode → Bool × ProxyController env
  told active = tunnel_confirms_trouble env config hooks active (trial active).1

  abbrev pub failures_now : ℕ
  failures_now = (failures + 1) % 2 ^ 64

  abbrev pub required : CanonicalNode → ℕ
  required active = if (told active).0 then 1 else config.required_consecutive_failures

  abbrev pub Fails : CanonicalNode → Type 0
  Fails active = HasActive active × (passed (trial active).0 ≡ false)

  -- It has failed often enough, and no automatic switch is recent.
  abbrev pub Escalates : CanonicalNode → Type 0
  Escalates active =
      Fails active
      × (ltb failures_now (required active) ≡ false)
      × (within (told active).1.last_auto_switch config.cooldown_after_auto_switch
            (env.now (told active).1.session.world)
          ≡ false)

  -- What a cycle's action rests on, with the controller and the status that it leaves.
  abbrev pub IsEarned : FailoverAction → ProxyController env → FailoverStatus floats → Type 0
  IsEarned healthy c' status' =
      (active : CanonicalNode) × HasActive active
      × (passed (trial active).0 ≡ true)
      × (status'.consecutive_failures ≡ 0)
  IsEarned (rearmed len) c' status' =
      (active : CanonicalNode) × HasActive active
      × (passed (trial active).0 ≡ true)
      × (status'.consecutive_failures ≡ 0)
  IsEarned (inspecting n) c' status' =
      (active : CanonicalNode) × Fails active
      × (n ≡ failures_now)
      × (ltb n (required active) ≡ true)
      × (status'.consecutive_failures ≡ n)
  IsEarned (switched label) c' status' =
      (active : CanonicalNode) × Escalates active
      × (status'.consecutive_failures ≡ 0)
      × ((nodes : List CanonicalNode) × IsCatalog env nodes
          × ProbedSwitch env floats config hooks (scatter_config c.settings) nodes status'.shortlist
              label c')
  IsEarned (adopted label) c' status' =
      (c.degraded ≡ false)
      × (c.active_node ≡ none)
      × (config.auto_select_on_idle ≡ true)
      × (status'.consecutive_failures ≡ 0)
      × VerifiedSwitch env floats config hooks status'.shortlist label c'
  IsEarned unconfirmed c' status' = (active : CanonicalNode) × Escalates active
  IsEarned degraded c' status' =
      (c.degraded ≡ true)
      ⊎ ((c.active_node ≡ none)
          ⊎ ((active : CanonicalNode) × Escalates active
              × (status'.consecutive_failures ≡ 0)
              × (keep_if (λ score. score.passes) status'.shortlist ≡ [])
              × ((d : ProxyController env) × (c' ≡ hooks.degrade d))))
  IsEarned (healed label) c' status' =
      (c.degraded ≡ true)
      × (status'.consecutive_failures ≡ 0)
      × ((nodes : List CanonicalNode) × IsCatalog env nodes
          × ProbedSwitch env floats config hooks (scatter_config c.settings) nodes status'.shortlist
              label c')
  IsEarned manual_window c' status' =
      (c' ≡ c)
      × (within c.last_manual_switch config.min_time_since_manual_switch (env.now c.session.world)
          ≡ true)
  IsEarned cooldown c' status' = (active : CanonicalNode) × Fails active × (c' ≡ (told active).1)
  IsEarned idle c' status' = (c.degraded ≡ false) × (c.active_node ≡ none)
  IsEarned (error e) c' status' =
      (c.degraded ≡ false)
      × ((c.active_node ≡ none) ⊎ ((active : CanonicalNode) × Escalates active))

  -- A result without a panic whose action is earned.
  abbrev pub Earns :
      Option (FailoverAction × (ProxyController env × FailoverStatus floats)) → Type 0
  Earns result =
      (action : FailoverAction) × (c' : ProxyController env) × (status' : FailoverStatus floats)
      × (result ≡ some (action, (c', status')))
      × IsEarned action c' status'
