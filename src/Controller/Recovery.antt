-- ===== src/Controller/Recovery.antt =====
-- crates/controller/src/proxy_controller.rs: a degraded controller comes back.
use yarisugi.Prelude.{
  ℕ, ◌<◌, ◌≡◌, ap, ◌∙◌, Bool, true, false, List, some, Result, ok, All, length, get_elem?,
}
use yarisugi.Prelude.Panics.{>>=-some}
use yarisugi.Ir.Node.{CanonicalNode}
use yarisugi.Adapter.Targets.{ScatterConfig}
use yarisugi.Controller.Tracks.{Floats, CandidateScore}
use yarisugi.Controller.Session.{Environment, ProxyController}
use yarisugi.Controller.Failover.{FailoverConfig, FailoverStatus, FailoverHooks, candidate_nodes}
use yarisugi.Controller.Cycle.{heal_rescored, heal_or_stay_degraded, heal_among}
use yarisugi.Controller.Watchdog.{label_of_active, cycle_if, run_failover_cycle}
use yarisugi.Controller.Session.{scatter_config}
use yarisugi.Controller.Search.{IsReliable, Heals, heal_rescored-Heals}

module _ (env : Environment) (floats : Floats) (config : FailoverConfig)
    (hooks : FailoverHooks env) where
  -- The equations decide which way the cycle takes.
  heal_among-ok :
      (cfg : ScatterConfig) (c d : ProxyController env) (status : FailoverStatus floats)
      (nodes : List CanonicalNode) (scores : List CandidateScore) (i : ℕ)
      (found_nodes : Result (List CanonicalNode))
      → found_nodes ≡ ok nodes
      → hooks.rescore nodes cfg config.rescore_limit c ≡ some (ok scores, d)
      → Heals env floats config hooks cfg nodes scores i
          (heal_rescored env floats config hooks cfg nodes (ok scores, d) status)
      → Heals env floats config hooks cfg nodes scores i
          (heal_among env floats config hooks cfg found_nodes c status)
  unfolding heal_among
  heal_among-ok cfg c d status nodes scores i found_nodes is done
        (label, c', status', heals, which) =
      (
        label,
        c',
        status',
        ap (λ f. heal_among env floats config hooks cfg f c status) is
            ∙ >>=-some (hooks.rescore nodes cfg config.rescore_limit c) _ done heals,
        which,
      )

  cycle_if-true :
      (down : Bool) (cfg : ScatterConfig) (c : ProxyController env) (status : FailoverStatus floats)
      (nodes : List CanonicalNode) (scores : List CandidateScore) (i : ℕ)
      → down ≡ true
      → Heals env floats config hooks cfg nodes scores i
          (heal_or_stay_degraded env floats config hooks cfg c status)
      → Heals env floats config hooks cfg nodes scores i
          (cycle_if env floats config hooks down cfg c status)
  unfolding cycle_if
  cycle_if-true true cfg c status nodes scores i is heals = heals
  cycle_if-true false cfg c status nodes scores i is heals = cc

  -- A degraded controller heals in the next cycle: where the catalog can be read, the rescore of it
  -- answers with scores of its nodes, and some passing score is of a node whose probes pass and whose
  -- switches succeed, the cycle ends with a switch that succeeds, to the node of that score or of a
  -- passing score before it, right after a probe of that node that passed.
  pub run_failover_cycle-Heals :
      (c d : ProxyController env) (status : FailoverStatus floats) (nodes : List CanonicalNode)
      (scores : List CandidateScore) (i : ℕ) (score : CandidateScore) (node : CanonicalNode)
      → c.degraded ≡ true
      → candidate_nodes env c ≡ ok nodes
      → hooks.rescore nodes (scatter_config c.settings) config.rescore_limit c ≡ some (ok scores, d)
      → All (λ s. s.node_index < length nodes) scores
      → get_elem? scores i ≡ some score
      → score.passes ≡ true
      → get_elem? nodes score.node_index ≡ some node
      → IsReliable env floats config hooks (scatter_config c.settings) node
      → Heals env floats config hooks
          (scatter_config c.settings)
          nodes
          scores
          i
          (run_failover_cycle env floats config hooks c status)
  unfolding run_failover_cycle heal_or_stay_degraded
  run_failover_cycle-Heals c d status nodes scores i score node down found rescored all at passes is
        good =
      let cfg = scatter_config c.settings in
      let s = record status {
        active_node = label_of_active env floats config hooks c.active_node;
        degraded = c.degraded;
      } in
      cycle_if-true c.degraded cfg c s nodes scores i down (
        heal_among-ok cfg c d s nodes scores i (candidate_nodes env c) found rescored (
          heal_rescored-Heals env floats config hooks cfg nodes node scores i score d s good all at
            passes is))
