-- ===== src/Controller/Real.antt =====
-- crates/controller/src/proxy_controller.rs: the hooks that are wired to the controller itself, and
-- what a cycle with them leaves of the tunnel.
use yarisugi.Prelude.{
  ℕ, ◌≤◌, ◌<◌, ◌≡◌, refl, subst, true, false, List, Option, none, some, Result, ok, All, length,
  get_elem?, lt_of_get_elem?,
}
use yarisugi.Prelude.Effects.{Action}
use yarisugi.Prelude.Ordered.{All-map}
use yarisugi.Prelude.Panics.{◌>>=◌, >>=-some}
use yarisugi.Ir.Node.{CanonicalNode}
use yarisugi.Adapter.Supervisor.{is_running}
use yarisugi.Adapter.Steps.{config_file}
use yarisugi.Adapter.Targets.{ScatterConfig, ScatterReport}
use yarisugi.Controller.Tracks.{CandidateScore}
use yarisugi.Controller.Shortlist.{Trials, PreflightConfig, default_preflight, tiered_shortlist}
use yarisugi.Controller.Trials.{tiered_shortlist-IsScoreOf}
use yarisugi.Controller.Session.{
  Environment, ProxyController, with_world, switch_node, degrade_to_direct,
}
use yarisugi.Controller.Failover.{FailoverHooks, TunnelHealth}
use yarisugi.Controller.Earned.{RescoreLaws}
use yarisugi.Controller.Escalation.{IsCatalog}

module _ (env : Environment) (trials : Trials env.host.World)
    (tunnel_health : CanonicalNode → env.host.World → Option TunnelHealth) where
  open env use {host}

  unfoldable pub verify_node_egress :
      CanonicalNode → ScatterConfig → Action (ProxyController env) ScatterReport
  verify_node_egress node cfg c =
      let trial = trials.test_egress_scatter c.session.supervisor.binary node cfg c.session.world in
      (trial.0, with_world env c trial.1)

  -- `tiered_shortlist` cannot fail, so that its answer is always a shortlist.
  unfoldable pub real_rescore :
      List CanonicalNode
      → ScatterConfig
      → ℕ
      → ProxyController env
      → Option (Result (List CandidateScore) × ProxyController env)
  unfolding tiered_shortlist default_preflight
  real_rescore candidates cfg limit c = do
    (scores, w) ←
        tiered_shortlist trials c.session.supervisor.binary candidates default_preflight cfg limit
          c.session.world
    some (ok scores, with_world env c w)

  -- `FailoverHooks::real`
  unfoldable pub real_hooks : FailoverHooks env
  unfolding verify_node_egress real_rescore switch_node degrade_to_direct
  real_hooks = record {
    probe = verify_node_egress;
    rescore = real_rescore;
    switch_node = switch_node env;
    degrade = degrade_to_direct env;
    tunnel_health = some (λ node c. (tunnel_health node c.session.world, c));
  }

  -- The sweep gives no more rows than there are candidates.
  abbrev pub SweepLaw : Type 0
  SweepLaw =
      (nodes : List CanonicalNode) (preflight : PreflightConfig) (w : host.World)
      → length (trials.cheap_sweep nodes preflight w).0 ≤ length nodes

  pub real_hooks-RescoreLaws : SweepLaw → RescoreLaws env real_hooks
  unfolding real_hooks real_rescore
  real_hooks-RescoreLaws sweep = record {
    in_range = λ nodes cfg limit c.
        let (scores, w, done, few, all) =
          tiered_shortlist-IsScoreOf trials c.session.supervisor.binary nodes default_preflight cfg
            limit c.session.world (sweep nodes default_preflight c.session.world) in
        (
          ok scores,
          with_world env c w,
          >>=-some
              (tiered_shortlist trials c.session.supervisor.binary nodes default_preflight cfg limit
                c.session.world)
              _ done refl,
          λ scores' same.
              let equal : scores ≡ scores' = cc in
              subst (All (λ score. score.node_index < length nodes)) equal
                (All-map _ _ scores (λ score p. lt_of_get_elem? nodes score.node_index p.1) all),
        );
  }

  -- A node of the catalog is active, the supervisor has a child, and the configuration that the node
  -- compiles to is in its file.
  abbrev pub Serves : ProxyController env → Type 0
  Serves c =
      ((nodes : List CanonicalNode) × IsCatalog env nodes
        × ((i : ℕ) × (node : CanonicalNode) × (get_elem? nodes i ≡ some node)
            × (c.active_node ≡ some node)
            × ((bytes : host.Bytes) × (env.compile_full_config node c.settings.tproxy_port
                    c.settings.fwmark c.settings.dns_provider c.settings.local_dns
                  ≡ ok bytes)
                × (config_file host c.session ≡ some bytes))))
      × (c.degraded ≡ false)
      × (is_running c.session.supervisor ≡ true)

  -- No child, and no active node.
  abbrev pub IsDirect : ProxyController env → Type 0
  IsDirect c =
      (c.active_node ≡ none) × (c.degraded ≡ true) × (is_running c.session.supervisor ≡ false)
