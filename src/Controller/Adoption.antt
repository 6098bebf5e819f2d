-- ===== src/Controller/Adoption.antt =====
-- crates/controller/src/proxy_controller.rs, `auto_adopt`: what an adoption rests on.
use yarisugi.Prelude.{
  ℕ, ◌<◌, ◌≡◌, refl, ◌⊎◌, inl, inr, true, List, [], ◌∷◌, Option, none, some, String, Result, ok,
  err, All, length, get_elem?, get_elem?-some_of_lt,
}
use yarisugi.Prelude.Panics.{>>=-some}
use yarisugi.Ir.Node.{CanonicalNode}
use yarisugi.Adapter.Targets.{ScatterConfig}
use yarisugi.Controller.Tracks.{Floats, CandidateScore}
use yarisugi.Controller.AutoSelect.{RankedNode}
use yarisugi.Controller.Choice.{IsVerified}
use yarisugi.Controller.Costs.{FloatLaws}
use yarisugi.Controller.Session.{Environment, ProxyController}
use yarisugi.Controller.Failover.{
  FailoverConfig, FailoverAction, adopted, degraded, error, FailoverStatus, FailoverHooks,
  candidate_pairs,
}
use yarisugi.Controller.Cycle.{no_failures, conclude, observed, rank_observed}
use yarisugi.Controller.Adopt.{adopt_best, adopt_rescored, adopt_among, auto_adopt}
use yarisugi.Controller.Earned.{RescoreLaws, rank_observed-All}
use yarisugi.Controller.Escalation.{IsCatalog}

module _ (env : Environment) (floats : Floats) (config : FailoverConfig)
    (hooks : FailoverHooks env) where
  -- The best of a ranking of the catalog was switched to; it has a passing score.
  abbrev pub VerifiedSwitch : List CandidateScore → String → ProxyController env → Type 0
  VerifiedSwitch shortlist label c' =
      (nodes : List CanonicalNode) × IsCatalog env nodes
      × ((i : ℕ) × (node : CanonicalNode) × (get_elem? nodes i ≡ some node)
          × IsVerified shortlist i
          × ((d : ProxyController env) × (hooks.switch_node node true d ≡ (ok label, c'))))

  abbrev pub AdoptEnd : Option FailoverAction → ProxyController env → FailoverStatus floats → Type 0
  AdoptEnd action c' status' =
      ((label : String) × (action ≡ some (adopted label))
        × (status'.consecutive_failures ≡ 0)
        × VerifiedSwitch status'.shortlist label c')
      ⊎ ((action ≡ none) ⊎ ((action ≡ some degraded) ⊎ ((e : String) × (action ≡ some (error e)))))

  abbrev pub Adopts :
      Option (Option FailoverAction × (ProxyController env × FailoverStatus floats)) → Type 0
  Adopts result =
      (action : Option FailoverAction) × (c' : ProxyController env) × (status' : FailoverStatus
        floats)
      × (result ≡ some (action, (c', status')))
      × AdoptEnd action c' status'

  adopt_concluded :
      (nodes : List CanonicalNode) (i : ℕ) (node : CanonicalNode) (d : ProxyController env)
      (status : FailoverStatus floats) (answer : Result String × ProxyController env)
      → IsCatalog env nodes
      → get_elem? nodes i ≡ some node
      → IsVerified status.shortlist i
      → hooks.switch_node node true d ≡ answer
      → Adopts (
          some (
            let result =
              conclude env floats config hooks adopted "auto-select switch failed: " answer
                status in
            (some result.0, result.1)))
  unfolding conclude
  adopt_concluded nodes i node d status (ok label, c') catalog at verified is = (
    _,
    c',
    no_failures env floats config hooks status,
    refl,
    inl (label, refl, refl, (nodes, catalog, (i, node, at, verified, (d, is)))),
  )
  adopt_concluded nodes i node d status (err e, c') catalog at verified is =
      (_, c', status, refl, inr (inr (inr (_, refl))))

  adopt_best-Adopts :
      (nodes : List CanonicalNode) (ranked : List (RankedNode floats)) (c : ProxyController env)
      (status : FailoverStatus floats)
      → IsCatalog env nodes
      → All
          (λ node. IsVerified status.shortlist node.node_index × (node.node_index < length nodes))
          ranked
      → Adopts (adopt_best env floats config hooks nodes ranked c status)
  unfolding adopt_best
  adopt_best-Adopts nodes [] c status catalog all = (_, c, status, refl, inr (inr (inl refl)))
  adopt_best-Adopts nodes (best ∷ rest) c status catalog ((verified, inside), all) =
      let (node, at) = get_elem?-some_of_lt nodes best.node_index inside in
      let (action, c', status', done, end) =
        adopt_concluded nodes best.node_index node c status (hooks.switch_node node true c) catalog
          at verified refl in
      (action, c', status', >>=-some (get_elem? nodes best.node_index) _ at done, end)

  module _ (float_laws : FloatLaws floats) (laws : RescoreLaws env hooks) where
    adopt_rescored-Adopts :
        (ids : List ℕ) (nodes : List CanonicalNode) (answer : Result (List CandidateScore))
        (c : ProxyController env) (status : FailoverStatus floats)
        → IsCatalog env nodes
        → ((scores : List CandidateScore)
            → answer ≡ ok scores
            → All (λ score. score.node_index < length nodes) scores)
        → Adopts (adopt_rescored env floats config hooks ids nodes (answer, c) status)
    unfolding adopt_rescored
    adopt_rescored-Adopts ids nodes (err e) c status catalog inside =
        (_, c, status, refl, inr (inl refl))
    adopt_rescored-Adopts ids nodes (ok scores) c status catalog inside =
        let now = env.now c.session.world in
        let seen = observed env floats config hooks ids scores now status in
        let (ranked, done, all, nothing) =
          rank_observed-All env floats config hooks float_laws ids nodes now seen
            (inside scores refl) in
        let (action, c', status', adopts, end) =
          adopt_best-Adopts nodes ranked c seen catalog all in
        (
          action,
          c',
          status',
          >>=-some (rank_observed env floats config hooks ids now seen) _ done adopts,
          end,
        )

    adopt_among-Adopts :
        (cfg : ScatterConfig) (pairs : Result (List ℕ × List CanonicalNode))
        (c : ProxyController env) (status : FailoverStatus floats)
        → candidate_pairs env c ≡ pairs
        → Adopts (adopt_among env floats config hooks cfg pairs c status)
    unfolding adopt_among
    adopt_among-Adopts cfg (err e) c status is = (_, c, status, refl, inr (inl refl))
    adopt_among-Adopts cfg (ok (ids, [])) c status is = (_, c, status, refl, inr (inl refl))
    adopt_among-Adopts cfg (ok (ids, node ∷ nodes)) c status is =
        let (answer, d, done, inside) = laws.in_range (node ∷ nodes) cfg config.rescore_limit c in
        let (action, c', status', adopts, end) =
          adopt_rescored-Adopts ids (node ∷ nodes) answer d status (c, ids, is) inside in
        (
          action,
          c',
          status',
          >>=-some (hooks.rescore (node ∷ nodes) cfg config.rescore_limit c) _ done adopts,
          end,
        )

    pub auto_adopt-Adopts :
        (cfg : ScatterConfig) (c : ProxyController env) (status : FailoverStatus floats)
        → Adopts (auto_adopt env floats config hooks cfg c status)
    unfolding auto_adopt
    auto_adopt-Adopts cfg c status = adopt_among-Adopts cfg (candidate_pairs env c) c status refl
