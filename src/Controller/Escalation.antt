-- ===== src/Controller/Escalation.antt =====
-- crates/controller/src/proxy_controller.rs: how an escalation, a search for a node to heal with, and
-- an adoption end, where a rescore keeps its contract.
use yarisugi.Prelude.{
  ℕ, ◌<◌, ◌≡◌, refl, sym, ap, subst, ◌∙◌, ◌⊎◌, inl, inr, Bool, false, List, [], keep_if, some,
  String, Result, ok, err, All, length,
}
use yarisugi.Prelude.Panics.{>>=-some}
use yarisugi.Prelude.Ordered.{All-map, All-keep_if}
use yarisugi.Ir.Node.{CanonicalNode}
use yarisugi.Adapter.Targets.{ScatterConfig}
use yarisugi.Controller.Tracks.{Floats, CandidateScore}
use yarisugi.Controller.AutoSelect.{RankedNode}
use yarisugi.Controller.Costs.{FloatLaws}
use yarisugi.Controller.Session.{Environment, ProxyController}
use yarisugi.Controller.Failover.{
  FailoverConfig, FailoverAction, switched, degraded, unconfirmed, error, FailoverStatus,
  FailoverHooks, candidate_pairs,
}
use yarisugi.Controller.Cycle.{
  rank_observed, others, observed, escalate_with, escalate_among, escalate,
}
use yarisugi.Controller.Earned.{
  RescoreLaws, ProbedSwitch, ConfirmEnd, confirm-ConfirmEnd, rank_observed-All,
}

-- Results of a fallible computation.
pub Result-cases {ℓ} :
    {A : Type ℓ} (r : Result A) → ((e : String) × (r ≡ err e)) ⊎ ((a : A) × (r ≡ ok a))
Result-cases (err e) = inl (e, refl)
Result-cases (ok a) = inr (a, refl)

-- A part of a list.
pub keep_if-All :
    (P : CandidateScore → Type 0) (test : CandidateScore → Bool) (xs : List CandidateScore)
    → All P xs
    → All P (keep_if test xs)
keep_if-All P test xs h = All-map _ P (keep_if test xs) (λ x p. p.1) (All-keep_if P test xs h)

-- The nodes are what the catalog held at some point.
abbrev pub IsCatalog : (env : Environment) → List CanonicalNode → Type 0
IsCatalog env nodes =
    (d : ProxyController env) × (ids : List ℕ) × (candidate_pairs env d ≡ ok (ids, nodes))

module _ (env : Environment) (floats : Floats) (config : FailoverConfig) (hooks : FailoverHooks env)
    (float_laws : FloatLaws floats) (laws : RescoreLaws env hooks) where
  abbrev pub EscalateEnd :
      ScatterConfig → FailoverAction → ProxyController env → FailoverStatus floats → Type 0
  EscalateEnd cfg action c' status' =
      (((label : String) × (action ≡ switched label)
          × (status'.consecutive_failures ≡ 0)
          × ((nodes : List CanonicalNode) × IsCatalog env nodes
              × ProbedSwitch env floats config hooks cfg nodes status'.shortlist label c'))
        ⊎ ((action ≡ degraded)
            × (status'.consecutive_failures ≡ 0)
            × (keep_if (λ score. score.passes) status'.shortlist ≡ [])
            × ((d : ProxyController env) × (c' ≡ hooks.degrade d))))
      ⊎ ((action ≡ unconfirmed) ⊎ ((e : String) × (action ≡ error e)))

  -- The end of a confirmation is the end of its escalation.
  escalated :
      (cfg : ScatterConfig) (nodes : List CanonicalNode) (ranked : List (RankedNode floats))
      (c : ProxyController env) (status : FailoverStatus floats) (action : FailoverAction)
      (c' : ProxyController env) (status' : FailoverStatus floats)
      → IsCatalog env nodes
      → (ranked ≡ [] → keep_if (λ score. score.passes) status.shortlist ≡ [])
      → ConfirmEnd env floats config hooks cfg nodes ranked false c status action c' status'
      → EscalateEnd cfg action c' status'
  escalated cfg nodes ranked c status action c' status' catalog nothing
        (inl (inl (label, is, after, switch))) =
      inl (
        inl (
          label,
          is,
          ap (λ s. s.consecutive_failures) after,
          (
            nodes,
            catalog,
            subst (λ l. ProbedSwitch env floats config hooks cfg nodes l label c')
                (sym (ap (λ s. s.shortlist) after)) switch,
          ),
        ))
  escalated cfg nodes ranked c status action c' status' catalog nothing
        (inl (inr (is, _, none_ranked, dropped, after))) =
      inl (
        inr (
          is,
          ap (λ s. s.consecutive_failures) after,
          ap (λ s. keep_if (λ score. score.passes) s.shortlist) after ∙ nothing none_ranked,
          (c, dropped),
        ))
  escalated cfg nodes ranked c status action c' status' catalog nothing (inr rest) = inr rest

  escalate_with-End :
      (cfg : ScatterConfig) (active : CanonicalNode) (ids : List ℕ) (nodes : List CanonicalNode)
      (answer : Result (List CandidateScore)) (c : ProxyController env)
      (status : FailoverStatus floats)
      → IsCatalog env nodes
      → ((scores : List CandidateScore)
          → answer ≡ ok scores
          → All (λ score. score.node_index < length nodes) scores)
      → (action : FailoverAction) × (c' : ProxyController env) × (status' : FailoverStatus floats)
        × (escalate_with env floats config hooks cfg active ids nodes (answer, c) status
            ≡ some (action, (c', status')))
        × EscalateEnd cfg action c' status'
  unfolding escalate_with
  escalate_with-End cfg active ids nodes (err e) c status catalog inside =
      (_, c, status, refl, inr (inr (_, refl)))
  escalate_with-End cfg active ids nodes (ok scores) c status catalog inside =
      let now = env.now c.session.world in
      let seen =
        observed env floats config hooks ids (others env floats config hooks active scores) now
          status in
      let (ranked, done, all, nothing) =
        rank_observed-All env floats config hooks float_laws ids nodes now seen
          (keep_if-All _ _ scores (inside scores refl)) in
      let (action, c', status', confirmed, end) =
        confirm-ConfirmEnd env floats config hooks cfg nodes ranked false c seen all in
      (
        action,
        c',
        status',
        >>=-some (rank_observed env floats config hooks ids now seen) _ done confirmed,
        escalated cfg nodes ranked c seen action c' status' catalog nothing end,
      )

  escalate_among-End :
      (cfg : ScatterConfig) (active : CanonicalNode) (pairs : Result (List ℕ × List CanonicalNode))
      (c : ProxyController env) (status : FailoverStatus floats)
      → candidate_pairs env c ≡ pairs
      → (action : FailoverAction) × (c' : ProxyController env) × (status' : FailoverStatus floats)
        × (escalate_among env floats config hooks cfg active pairs c status
            ≡ some (action, (c', status')))
        × EscalateEnd cfg action c' status'
  unfolding escalate_among
  escalate_among-End cfg active (err e) c status is = (_, c, status, refl, inr (inr (_, refl)))
  escalate_among-End cfg active (ok (ids, nodes)) c status is =
      let (answer, d, done, inside) = laws.in_range nodes cfg config.rescore_limit c in
      let (action, c', status', escalates, end) =
        escalate_with-End cfg active ids nodes answer d status (c, ids, is) inside in
      (
        action,
        c',
        status',
        >>=-some (hooks.rescore nodes cfg config.rescore_limit c) _ done escalates,
        end,
      )

  pub escalate-End :
      (cfg : ScatterConfig) (active : CanonicalNode) (c : ProxyController env)
      (status : FailoverStatus floats)
      → (action : FailoverAction) × (c' : ProxyController env) × (status' : FailoverStatus floats)
        × (escalate env floats config hooks cfg active c status ≡ some (action, (c', status')))
        × EscalateEnd cfg action c' status'
  unfolding escalate
  escalate-End cfg active c status =
      escalate_among-End cfg active (candidate_pairs env c) c status refl
