-- ===== src/Controller/Earned.antt =====
-- crates/controller/src/proxy_controller.rs: what the loops of a cycle can end with, where a rescore
-- keeps its contract.
use mathlib.Core.List.{Perm}
use mathlib.Core.List.Perm
use yarisugi.Prelude.{
  ℕ, ◌<◌, ◌≡◌, refl, ap, subst, ◌⊎◌, inl, inr, Bool, true, false, List, [], ◌∷◌, keep_if, Option,
  some, String, Result, ok, err, All, Bool-cases, length, get_elem?, get_elem?-some_of_lt,
}
use yarisugi.Prelude.Panics.{>>=-some}
use yarisugi.Prelude.Ordered.{All-map}
use yarisugi.Ir.Node.{CanonicalNode}
use yarisugi.Adapter.Targets.{ScatterConfig, ScatterReport}
use yarisugi.Controller.Tracks.{Floats, CandidateScore}
use yarisugi.Controller.AutoSelect.{RankedNode}
use yarisugi.Controller.Choice.{IsVerified, keep_if-nil, rank_working_nodes-IsSorted}
use yarisugi.Controller.Costs.{FloatLaws}
use yarisugi.Controller.Session.{Environment, ProxyController}
use yarisugi.Controller.Failover.{
  FailoverConfig, FailoverAction, switched, degraded, unconfirmed, error, FailoverStatus,
  FailoverHooks, passed,
}
use yarisugi.Controller.Cycle.{Cycle, no_failures, conclude, confirm, rank_observed}

-- A rescore does not panic, and its scores are of the candidates that it was given.
pub record RescoreLaws (env : Environment) (hooks : FailoverHooks env) : Type 0 where
  pub in_range :
      (nodes : List CanonicalNode) (cfg : ScatterConfig) (limit : ℕ) (c : ProxyController env)
      → (answer : Result (List CandidateScore)) × (c' : ProxyController env) × (hooks.rescore nodes
            cfg limit c
          ≡ some (answer, c'))
        × ((scores : List CandidateScore)
            → answer ≡ ok scores
            → All (λ score. score.node_index < length nodes) scores)

pub passed-ok :
    (r : Result ScatterReport)
    → passed r ≡ true
    → (report : ScatterReport) × (r ≡ ok report) × (report.passes ≡ true)
passed-ok (ok report) h = (report, refl, h)
passed-ok (err e) h = cc

pub All-get {ℓ κ} :
    {A : Type ℓ} (P : A → Type κ) (xs : List A) (i : ℕ) {x : A}
    → All P xs
    → get_elem? xs i ≡ some x
    → P x
All-get P [] i all h = cc
All-get P (y ∷ xs) ℕ.zero (p, ps) h = subst P (cc) p
All-get P (y ∷ xs) (ℕ.suc i) (p, ps) h = All-get P xs i ps h

module _ (env : Environment) (floats : Floats) (config : FailoverConfig)
    (hooks : FailoverHooks env) where
  -- A candidate with a passing score was switched to, just after a probe of it passed.
  abbrev pub ProbedSwitch :
      ScatterConfig
      → List CanonicalNode
      → List CandidateScore
      → String
      → ProxyController env
      → Type 0
  ProbedSwitch cfg nodes shortlist label c' =
      (i : ℕ) × (node : CanonicalNode) × (get_elem? nodes i ≡ some node)
      × IsVerified shortlist i
      × ((c₁ c₂ : ProxyController env) × (report : ScatterReport) × (hooks.probe node cfg c₁
            ≡ (ok report, c₂))
          × (report.passes ≡ true)
          × (hooks.switch_node node true c₂ ≡ (ok label, c')))

  -- How the confirmation of a ranking ends.
  abbrev pub ConfirmEnd :
      ScatterConfig
      → List CanonicalNode
      → List (RankedNode floats)
      → Bool
      → ProxyController env
      → FailoverStatus floats
      → FailoverAction
      → ProxyController env
      → FailoverStatus floats
      → Type 0
  ConfirmEnd cfg nodes ranked saw c status action c' status' =
      (((label : String) × (action ≡ switched label)
          × (status' ≡ no_failures env floats config hooks status)
          × ProbedSwitch cfg nodes status.shortlist label c')
        ⊎ ((action ≡ degraded)
            × (saw ≡ false)
            × (ranked ≡ [])
            × (c' ≡ hooks.degrade c)
            × (status' ≡ no_failures env floats config hooks status)))
      ⊎ ((action ≡ unconfirmed) ⊎ ((e : String) × (action ≡ error e)))

  -- A switch of a candidate that was just confirmed.
  concluded :
      (cfg : ScatterConfig) (nodes : List CanonicalNode) (ranked : List (RankedNode floats))
      (saw : Bool) (c : ProxyController env) (status : FailoverStatus floats)
      (answer : Result String × ProxyController env)
      → ((label : String)
          → answer.0 ≡ ok label
          → ProbedSwitch cfg nodes status.shortlist label answer.1)
      → (action : FailoverAction) × (c' : ProxyController env) × (status' : FailoverStatus floats)
        × ◌≡◌ {A = Option (Cycle env floats config hooks FailoverAction)}
            (some (conclude env floats config hooks switched "switch failed: " answer status))
            (some (action, (c', status')))
        × ConfirmEnd cfg nodes ranked saw c status action c' status'
  unfolding conclude
  concluded cfg nodes ranked saw c status (ok label, c') h = (
    switched label,
    c',
    no_failures env floats config hooks status,
    refl,
    inl (inl (label, refl, refl, h label refl)),
  )
  concluded cfg nodes ranked saw c status (err e, c') h = (_, c', status, refl, inr (inr (_, refl)))

  -- After a candidate that did not pass again, the confirmation of the others cannot degrade.
  seen :
      (cfg : ScatterConfig) (nodes : List CanonicalNode) (entry : RankedNode floats)
      (ranked : List (RankedNode floats)) (saw : Bool) (c d : ProxyController env)
      (status : FailoverStatus floats) (action : FailoverAction) (c' : ProxyController env)
      (status' : FailoverStatus floats)
      → ConfirmEnd cfg nodes ranked true d status action c' status'
      → ConfirmEnd cfg nodes (entry ∷ ranked) saw c status action c' status'
  seen cfg nodes entry ranked saw c d status action c' status' (inl (inl switch)) = inl (inl switch)
  seen cfg nodes entry ranked saw c d status action c' status' (inl (inr drop)) =
      let never = drop.1 in cc
  seen cfg nodes entry ranked saw c d status action c' status' (inr rest) = inr rest

  pub confirm-ConfirmEnd :
      (cfg : ScatterConfig) (nodes : List CanonicalNode) (ranked : List (RankedNode floats))
      (saw : Bool) (c : ProxyController env) (status : FailoverStatus floats)
      → All
          (λ node. IsVerified status.shortlist node.node_index × (node.node_index < length nodes))
          ranked
      → (action : FailoverAction) × (c' : ProxyController env) × (status' : FailoverStatus floats)
        × (confirm env floats config hooks cfg nodes ranked saw c status
            ≡ some (action, (c', status')))
        × ConfirmEnd cfg nodes ranked saw c status action c' status'
  unfolding confirm
  confirm-ConfirmEnd cfg nodes [] true c status all = (unconfirmed, c, status, refl, inr (inl refl))
  confirm-ConfirmEnd cfg nodes [] false c status all = (
    degraded,
    hooks.degrade c,
    no_failures env floats config hooks status,
    refl,
    inl (inr (refl, refl, refl, refl, refl)),
  )
  confirm-ConfirmEnd cfg nodes (entry ∷ ranked) saw c status ((verified, inside), all) =
      let (node, at) = get_elem?-some_of_lt nodes entry.node_index inside in
      let trial = hooks.probe node cfg c in
      elim (Bool-cases (passed trial.0)) [
        | inl pass ↦
            let (report, is, passes) = passed-ok trial.0 pass in
            let answer = hooks.switch_node node true trial.1 in
            let (action, c', status', done, end) =
              concluded cfg nodes (entry ∷ ranked) saw c status answer (λ label good. (
                entry.node_index,
                node,
                at,
                verified,
                (
                  c,
                  trial.1,
                  report,
                  ap (λ r. (r, trial.1)) is,
                  passes,
                  ap (λ r. (r, answer.1)) good,
                ),
              )) in
            (
              action,
              c',
              status',
              >>=-some (get_elem? nodes entry.node_index) _ at (rw pass done),
              end,
            )
        | inr fail ↦
            let (action, c', status', done, end) =
              confirm-ConfirmEnd cfg nodes ranked true trial.1 status all in
            (
              action,
              c',
              status',
              >>=-some (get_elem? nodes entry.node_index) _ at (rw fail done),
              seen cfg nodes entry ranked saw c trial.1 status action c' status' end,
            )
      ]

  -- The scores of a round, ranked: each is of a node of the catalog that passed its quorum.
  pub rank_observed-All :
      (laws : FloatLaws floats) (ids : List ℕ) (nodes : List CanonicalNode) (now : ℕ)
      (status : FailoverStatus floats)
      → All (λ score. score.node_index < length nodes) status.shortlist
      → (ranked : List (RankedNode floats)) × (rank_observed env floats config hooks ids now status
          ≡ some ranked)
        × All
            (λ node. IsVerified status.shortlist node.node_index × (node.node_index < length nodes))
            ranked
        × (ranked ≡ [] → keep_if (λ score. score.passes) status.shortlist ≡ [])
  unfolding rank_observed
  rank_observed-All laws ids nodes now status inside =
      let (ranked, done, perm, verified, sorted) =
        rank_working_nodes-IsSorted floats laws status.shortlist status.selector.tracks ids
          status.selector.config now in
      (
        ranked,
        done,
        All-map _ _ ranked
            (λ node v.
              let (i, score, at, passes, same) = v in
              (v, subst (λ k. k < length nodes) same (All-get _ status.shortlist i inside at)))
            verified,
        λ none_ranked. keep_if-nil _ _ (Perm.eq-nil (subst (Perm _) none_ranked perm)),
      )
