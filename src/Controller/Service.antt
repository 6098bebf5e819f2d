-- ===== src/Controller/Service.antt =====
-- crates/controller/src/proxy_controller.rs: what a cycle with the controller's own hooks leaves of the
-- tunnel.
use yarisugi.Prelude.{
  ℕ, ◌≡◌, refl, sym, subst, inl, inr, ◌⊎◌, true, false, List, Option, none, some, String, ok,
  get_elem?,
}
use yarisugi.Ir.Node.{CanonicalNode}
use yarisugi.Adapter.Supervisor.{is_running, stop}
use yarisugi.Controller.Tracks.{Floats}
use yarisugi.Controller.Costs.{FloatLaws}
use yarisugi.Controller.Shortlist.{Trials}
use yarisugi.Controller.Session.{
  Environment, ProxyController, switch_node, degrade_to_direct, stop_core, unroute,
}
use yarisugi.Controller.Routing.{MachineLaws}
use yarisugi.Controller.Switching.{Outcome, switch_node-Outcome}
use yarisugi.Controller.Failover.{
  FailoverConfig, FailoverAction, healthy, inspecting, rearmed, switched, adopted, unconfirmed,
  degraded, healed, manual_window, cooldown, idle, error, FailoverStatus, TunnelHealth,
}
use yarisugi.Controller.Watchdog.{run_failover_cycle}
use yarisugi.Controller.Escalation.{IsCatalog}
use yarisugi.Controller.Justified.{IsEarned}
use yarisugi.Controller.Conduct.{run_failover_cycle-Earns}
use yarisugi.Controller.Real.{real_hooks, SweepLaw, real_hooks-RescoreLaws, Serves, IsDirect}

module _ (env : Environment) (floats : Floats) (config : FailoverConfig)
    (trials : Trials env.host.World)
    (tunnel_health : CanonicalNode → env.host.World → Option TunnelHealth)
    (float_laws : FloatLaws floats) (machine : MachineLaws env)
    (sweep : SweepLaw env trials tunnel_health) where
  open env use {host}

  abbrev ServesHere : ProxyController env → Type 0
  ServesHere = Serves env trials tunnel_health

  -- What an action leaves.
  abbrev pub After : ProxyController env → FailoverAction → ProxyController env → Type 0
  After c (switched label) c' = ServesHere c'
  After c (adopted label) c' = ServesHere c'
  After c (healed label) c' = ServesHere c'
  After c degraded c' =
      (c.degraded ≡ true) ⊎ ((c.active_node ≡ none) ⊎ IsDirect env trials tunnel_health c')
  After c manual_window c' = c' ≡ c
  After c _ c' = Unit

  -- A switch to a node of the catalog serves it.
  outcome-Serves :
      (nodes : List CanonicalNode) (i : ℕ) (node : CanonicalNode) (d c' : ProxyController env)
      (label : String)
      → IsCatalog env nodes
      → get_elem? nodes i ≡ some node
      → Outcome env machine d node true (ok label, c')
      → ServesHere c'
  outcome-Serves nodes i node d c' label catalog at (inl failed) = let is = failed.1 in cc
  outcome-Serves nodes i node d c' label catalog at
        (inr (_, (bytes, compiles, stored), running, active, up, same, _)) =
      let here =
        subst
          (λ t.
            env.compile_full_config node t.tproxy_port t.fwmark t.dns_provider t.local_dns
            ≡ ok bytes)
          (sym same) compiles in
      ((nodes, catalog, (i, node, at, active, (bytes, here, stored))), up, running)

  switch-Serves :
      (nodes : List CanonicalNode) (i : ℕ) (node : CanonicalNode) (d c' : ProxyController env)
      (label : String)
      → IsCatalog env nodes
      → get_elem? nodes i ≡ some node
      → switch_node env node true d ≡ (ok label, c')
      → ServesHere c'
  switch-Serves nodes i node d c' label catalog at h =
      outcome-Serves nodes i node d c' label catalog at
        (subst (Outcome env machine d node true) h (switch_node-Outcome env machine d node true))

  stop_child :
      (d : ProxyController env) (child : Option ℕ)
      → is_running
          (stop_core env (record d {
            session = record d.session {
              supervisor = record d.session.supervisor { child = child };
            };
          })).1.session.supervisor
        ≡ false
  unfolding stop_core stop is_running
  stop_child d none = refl
  stop_child d (some pid) = refl

  degrade_to_direct-IsDirect :
      (d : ProxyController env) → IsDirect env trials tunnel_health (degrade_to_direct env d)
  unfolding degrade_to_direct
  degrade_to_direct-IsDirect d =
      (refl, refl, stop_child (unroute env d) (unroute env d).session.supervisor.child)

  after :
      (c : ProxyController env) (failures : ℕ) (action : FailoverAction) (c' : ProxyController env)
      (status' : FailoverStatus floats)
      → IsEarned env floats config
          (real_hooks env trials tunnel_health)
          c
          failures
          action
          c'
          status'
      → After c action c'
  unfolding real_hooks
  after c failures healthy c' status' h = tt
  after c failures (inspecting n) c' status' h = tt
  after c failures (rearmed n) c' status' h = tt
  after c failures (switched label) c' status'
        (
          active,
          why,
          reset,
          (nodes, catalog, (i, node, at, verified, (c₁, c₂, report, probe, pass, switch))),
        ) =
      switch-Serves nodes i node c₂ c' label catalog at switch
  after c failures (adopted label) c' status'
        (up, alone, auto, reset, (nodes, catalog, (i, node, at, verified, (d, switch)))) =
      switch-Serves nodes i node d c' label catalog at switch
  after c failures unconfirmed c' status' h = tt
  after c failures degraded c' status' (inl down) = inl down
  after c failures degraded c' status' (inr (inl alone)) = inr (inl alone)
  after c failures degraded c' status' (inr (inr (active, why, reset, nothing, (d, dropped)))) =
      inr (
        inr
          (subst (IsDirect env trials tunnel_health) (sym dropped) (degrade_to_direct-IsDirect d)))
  after c failures (healed label) c' status'
        (
          down,
          reset,
          (nodes, catalog, (i, node, at, verified, (c₁, c₂, report, probe, pass, switch))),
        ) =
      switch-Serves nodes i node c₂ c' label catalog at switch
  after c failures manual_window c' status' (same, recent) = same
  after c failures cooldown c' status' h = tt
  after c failures idle c' status' h = tt
  after c failures (error e) c' status' h = tt

  -- With the controller's own hooks, where files obey `FileLaws`, the daemon does not write the core's
  -- file, no float is NaN, and the sweep gives no more rows than candidates: a cycle does not panic.
  -- Where it says that it switched, adopted or healed, the supervisor has a child, the configuration of
  -- the active node is in its file, and that node is of the catalog; where it says that it degraded, and the
  -- controller was not degraded and had an active node, the supervisor has no child and no node is active; and where it says that it waits
  -- after a manual switch, the controller is as it was.
  pub run_failover_cycle-After :
      (c : ProxyController env) (status : FailoverStatus floats)
      → (action : FailoverAction) × (c' : ProxyController env) × (status' : FailoverStatus floats)
        × (run_failover_cycle env floats config (real_hooks env trials tunnel_health) c status
            ≡ some (action, (c', status')))
        × After c action c'
  run_failover_cycle-After c status =
      let (action, c', status', done, earned) =
        run_failover_cycle-Earns env floats config (real_hooks env trials tunnel_health) float_laws
          (real_hooks-RescoreLaws env trials tunnel_health sweep) c status in
      (action, c', status', done, after c status.consecutive_failures action c' status' earned)
