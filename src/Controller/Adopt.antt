-- ===== src/Controller/Adopt.antt =====
-- crates/controller/src/proxy_controller.rs: auto mode's entry point, which adopts a node where
-- there is none.
use yarisugi.Prelude.{ℕ, true, List, [], ◌∷◌, Option, none, some, Result, ok, err, get_elem?}
use yarisugi.Prelude.Panics.{◌>>=◌}
use yarisugi.Ir.Node.{CanonicalNode}
use yarisugi.Adapter.Targets.{ScatterConfig}
use yarisugi.Controller.Tracks.{Floats, CandidateScore}
use yarisugi.Controller.AutoSelect.{RankedNode}
use yarisugi.Controller.Session.{Environment, ProxyController}
use yarisugi.Controller.Failover.{
  FailoverConfig, FailoverAction, adopted, degraded, FailoverStatus, FailoverHooks, candidate_pairs,
}
use yarisugi.Controller.Cycle.{conclude, observed, rank_observed}

module _ (env : Environment) (floats : Floats) (config : FailoverConfig)
    (hooks : FailoverHooks env) where
  abbrev pub State : Type 0
  State = ProxyController env × FailoverStatus floats

  -- The best of the ranking is adopted.
  unfoldable pub adopt_best :
      List CanonicalNode
      → List (RankedNode floats)
      → ProxyController env
      → FailoverStatus floats
      → Option (Option FailoverAction × State)
  unfolding conclude
  adopt_best nodes [] c status = some (some degraded, (c, status))
  adopt_best nodes (best ∷ rest) c status = do
    node ← get_elem? nodes best.node_index
    let (action, state) =
        conclude env floats config hooks adopted "auto-select switch failed: "
          (hooks.switch_node node true c) status
    some (some action, state)

  unfoldable pub adopt_rescored :
      List ℕ
      → List CanonicalNode
      → Result (List CandidateScore) × ProxyController env
      → FailoverStatus floats
      → Option (Option FailoverAction × State)
  unfolding adopt_best rank_observed
  adopt_rescored ids nodes (err e, c) status = some (none, (c, status))
  adopt_rescored ids nodes (ok scores, c) status =
      let now = env.now c.session.world in
      let status = observed env floats config hooks ids scores now status in
      do
        ranked ← rank_observed env floats config hooks ids now status
        adopt_best nodes ranked c status

  -- No action where there is no catalog, no node in it, or no score.
  unfoldable pub adopt_among :
      ScatterConfig
      → Result (List ℕ × List CanonicalNode)
      → ProxyController env
      → FailoverStatus floats
      → Option (Option FailoverAction × State)
  unfolding adopt_rescored
  adopt_among cfg (err e) c status = some (none, (c, status))
  adopt_among cfg (ok (ids, [])) c status = some (none, (c, status))
  adopt_among cfg (ok (ids, node ∷ nodes)) c status = do
    answer ← hooks.rescore (node ∷ nodes) cfg config.rescore_limit c
    adopt_rescored ids (node ∷ nodes) answer status

  unfoldable pub auto_adopt :
      ScatterConfig
      → ProxyController env
      → FailoverStatus floats
      → Option (Option FailoverAction × State)
  unfolding adopt_among
  auto_adopt cfg c status = adopt_among cfg (candidate_pairs env c) c status
