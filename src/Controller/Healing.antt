-- ===== src/Controller/Healing.antt =====
-- crates/controller/src/proxy_controller.rs: how the search for a node to heal with ends, where a rescore
-- keeps its contract.
use yarisugi.Prelude.{
  ℕ, suc, ◌<◌, ◌≡◌, refl, sym, ap, subst, ◌⊎◌, inl, inr, true, List, [], ◌∷◌, keep_if, some, String,
  Result, ok, err, All, Bool-cases, length, get_elem?, get_elem?-some_of_lt,
}
use yarisugi.Prelude.Results.{>>=-eq-ok}
use yarisugi.Prelude.Panics.{>>=-some}
use yarisugi.Prelude.Ordered.{All-map, All-and, All-keep_if}
use yarisugi.Ir.Node.{CanonicalNode}
use yarisugi.Adapter.Targets.{ScatterConfig}
use yarisugi.Controller.Tracks.{Floats, CandidateScore}
use yarisugi.Controller.Choice.{IsVerified}
use yarisugi.Controller.Session.{Environment, ProxyController}
use yarisugi.Controller.Failover.{
  FailoverConfig, FailoverAction, degraded, healed, FailoverStatus, FailoverHooks, passed,
  candidate_pairs, candidate_nodes,
}
use yarisugi.Controller.Cycle.{
  no_failures, heal_with, heal_rescored, heal_or_stay_degraded, heal_among,
}
use yarisugi.Controller.Earned.{RescoreLaws, passed-ok, ProbedSwitch}
use yarisugi.Controller.Escalation.{Result-cases, keep_if-All, IsCatalog}

-- Every entry of a list stands somewhere in it.
All-here : {A : Type 0} (xs : List A) → All (λ x. (i : ℕ) × (get_elem? xs i ≡ some x)) xs
All-here [] = tt
All-here (x ∷ xs) = ((0, refl), All-map _ _ xs (λ y p. (suc p.0, p.1)) (All-here xs))

passing-IsVerified :
    (shortlist : List CandidateScore)
    → All
        (λ score. IsVerified shortlist score.node_index)
        (keep_if (λ score. score.passes) shortlist)
passing-IsVerified shortlist =
    All-map _ _ (keep_if (λ score. score.passes) shortlist)
      (λ score p. (p.1.0, score, p.1.1, p.0, refl))
      (All-keep_if _ (λ score. score.passes) shortlist (All-here shortlist))

module _ (env : Environment) (floats : Floats) (config : FailoverConfig)
    (hooks : FailoverHooks env) where
  -- How the search for a node to heal with ends.
  abbrev pub HealEnd :
      ScatterConfig
      → List CanonicalNode
      → List CandidateScore
      → FailoverAction
      → ProxyController env
      → FailoverStatus floats
      → Type 0
  HealEnd cfg nodes shortlist action c' status' =
      (action ≡ degraded)
      ⊎ ((label : String) × (action ≡ healed label)
          × (status'.consecutive_failures ≡ 0)
          × (status'.shortlist ≡ shortlist)
          × ProbedSwitch env floats config hooks cfg nodes shortlist label c')

  heal_with-End :
      (cfg : ScatterConfig) (nodes : List CanonicalNode) (scores : List CandidateScore)
      (c : ProxyController env) (status : FailoverStatus floats)
      → All
          (λ score.
            IsVerified status.shortlist score.node_index × (score.node_index < length nodes))
          scores
      → (action : FailoverAction) × (c' : ProxyController env) × (status' : FailoverStatus floats)
        × (heal_with env floats config hooks cfg nodes scores c status
            ≡ some (action, (c', status')))
        × HealEnd cfg nodes status.shortlist action c' status'
  unfolding heal_with
  heal_with-End cfg nodes [] c status all = (degraded, c, status, refl, inl refl)
  heal_with-End cfg nodes (score ∷ scores) c status ((verified, inside), all) =
      let (node, at) = get_elem?-some_of_lt nodes score.node_index inside in
      let trial = hooks.probe node cfg c in
      let answer = hooks.switch_node node true trial.1 in
      elim (Bool-cases (passed trial.0)) [
        | inr fail ↦
            let (action, c', status', done, end) =
              heal_with-End cfg nodes scores trial.1 status all in
            (
              action,
              c',
              status',
              >>=-some (get_elem? nodes score.node_index) _ at (rw fail done),
              end,
            )
        | inl pass ↦ elim (Result-cases answer.0) [
          | inl (e, failed) ↦
              let (action, c', status', done, end) =
                heal_with-End cfg nodes scores answer.1 status all in
              (
                action,
                c',
                status',
                >>=-some (get_elem? nodes score.node_index) _ at (rw (pass, failed) done),
                end,
              )
          | inr (label, good) ↦
              let (report, is, passes) = passed-ok trial.0 pass in
              (
                healed label,
                answer.1,
                no_failures env floats config hooks status,
                >>=-some (get_elem? nodes score.node_index) _ at (rw (pass, good) refl),
                inr (
                  label,
                  refl,
                  refl,
                  refl,
                  (
                    score.node_index,
                    node,
                    at,
                    verified,
                    (
                      c,
                      trial.1,
                      report,
                      ap (λ r. (r, trial.1)) is,
                      passes,
                      ap (λ r. (r, answer.1)) good,
                    ),
                  ),
                ),
              )
        ]
      ]

  heal_rescored-End :
      (cfg : ScatterConfig) (nodes : List CanonicalNode) (answer : Result (List CandidateScore))
      (c : ProxyController env) (status : FailoverStatus floats)
      → ((scores : List CandidateScore)
          → answer ≡ ok scores
          → All (λ score. score.node_index < length nodes) scores)
      → (action : FailoverAction) × (c' : ProxyController env) × (status' : FailoverStatus floats)
        × (heal_rescored env floats config hooks cfg nodes (answer, c) status
            ≡ some (action, (c', status')))
        × HealEnd cfg nodes status'.shortlist action c' status'
  unfolding heal_rescored
  heal_rescored-End cfg nodes (err e) c status inside = (degraded, c, status, refl, inl refl)
  heal_rescored-End cfg nodes (ok scores) c status inside =
      let passing = keep_if (λ score. score.passes) scores in
      let (action, c', status', done, end) =
        heal_with-End cfg nodes passing c (record status { shortlist = scores })
          (All-and _ _ passing (passing-IsVerified scores)
            (keep_if-All _ _ scores (inside scores refl))) in
      (action, c', status', done, settled cfg nodes scores action c' status' end)
    where
      settled :
          (cfg : ScatterConfig) (nodes : List CanonicalNode) (scores : List CandidateScore)
          (action : FailoverAction) (c' : ProxyController env) (status' : FailoverStatus floats)
          → HealEnd cfg nodes scores action c' status'
          → HealEnd cfg nodes status'.shortlist action c' status'
      settled cfg nodes scores action c' status' (inl is) = inl is
      settled cfg nodes scores action c' status' (inr (label, is, zero_failures, same, switch)) =
          inr (
            label,
            is,
            zero_failures,
            refl,
            subst (λ l. ProbedSwitch env floats config hooks cfg nodes l label c') (sym same)
                switch,
          )

  -- How a cycle of a degraded controller ends.
  abbrev pub DegradedEnd :
      ScatterConfig → FailoverAction → ProxyController env → FailoverStatus floats → Type 0
  DegradedEnd cfg action c' status' =
      (action ≡ degraded)
      ⊎ ((label : String) × (action ≡ healed label)
          × (status'.consecutive_failures ≡ 0)
          × ((nodes : List CanonicalNode) × IsCatalog env nodes
              × ProbedSwitch env floats config hooks cfg nodes status'.shortlist label c'))

  found :
      (cfg : ScatterConfig) (nodes : List CanonicalNode) (action : FailoverAction)
      (c' : ProxyController env) (status' : FailoverStatus floats)
      → IsCatalog env nodes
      → HealEnd cfg nodes status'.shortlist action c' status'
      → DegradedEnd cfg action c' status'
  found cfg nodes action c' status' catalog (inl is) = inl is
  found cfg nodes action c' status' catalog (inr (label, is, reset, _, switch)) =
      inr (label, is, reset, (nodes, catalog, switch))

  heal_among-End :
      (laws : RescoreLaws env hooks) (cfg : ScatterConfig)
      (found_nodes : Result (List CanonicalNode)) (c : ProxyController env)
      (status : FailoverStatus floats)
      → candidate_nodes env c ≡ found_nodes
      → (action : FailoverAction) × (c' : ProxyController env) × (status' : FailoverStatus floats)
        × (heal_among env floats config hooks cfg found_nodes c status
            ≡ some (action, (c', status')))
        × DegradedEnd cfg action c' status'
  unfolding heal_among candidate_nodes
  heal_among-End laws cfg (err e) c status is = (degraded, c, status, refl, inl refl)
  heal_among-End laws cfg (ok nodes) c status is =
      let (pairs, are, same) = >>=-eq-ok (candidate_pairs env c) _ is in
      let second : pairs.1 ≡ nodes = cc in
      let (answer, d, done, inside) = laws.in_range nodes cfg config.rescore_limit c in
      let (action, c', status', healing, end) =
        heal_rescored-End cfg nodes answer d status inside in
      (
        action,
        c',
        status',
        >>=-some (hooks.rescore nodes cfg config.rescore_limit c) _ done healing,
        found cfg nodes action c' status'
            (c, pairs.0, subst (λ n. candidate_pairs env c ≡ ok (pairs.0, n)) second are) end,
      )

  pub heal_or_stay_degraded-End :
      (laws : RescoreLaws env hooks) (cfg : ScatterConfig) (c : ProxyController env)
      (status : FailoverStatus floats)
      → (action : FailoverAction) × (c' : ProxyController env) × (status' : FailoverStatus floats)
        × (heal_or_stay_degraded env floats config hooks cfg c status
            ≡ some (action, (c', status')))
        × DegradedEnd cfg action c' status'
  unfolding heal_or_stay_degraded
  heal_or_stay_degraded-End laws cfg c status =
      heal_among-End laws cfg (candidate_nodes env c) c status refl
