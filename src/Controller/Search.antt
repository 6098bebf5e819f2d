-- ===== src/Controller/Search.antt =====
-- crates/controller/src/proxy_controller.rs, `heal_or_stay_degraded`: the search finds a node that works,
-- or one before it.
use yarisugi.Prelude.{
  ℕ, zero, suc, ◌≤◌, arith, ◌<◌, ◌≡◌, refl, ap, ◌∙◌, inl, inr, true, List, [], ◌∷◌, keep_if, Option,
  some, String, ok, All, Bool-cases, length, get_elem?, get_elem?-some_of_lt,
}
use yarisugi.Prelude.Panics.{>>=-some}
use yarisugi.Ir.Node.{CanonicalNode}
use yarisugi.Adapter.Targets.{ScatterConfig}
use yarisugi.Controller.Tracks.{Floats, CandidateScore}
use yarisugi.Controller.Session.{Environment, ProxyController}
use yarisugi.Controller.Failover.{
  FailoverConfig, FailoverAction, healed, FailoverStatus, FailoverHooks, passed,
}
use yarisugi.Controller.Cycle.{no_failures, heal_with, heal_rescored}
use yarisugi.Controller.Escalation.{Result-cases}

module _ (env : Environment) (floats : Floats) (config : FailoverConfig)
    (hooks : FailoverHooks env) where
  -- Every probe of the node passes, and every switch to it succeeds.
  abbrev pub IsReliable : ScatterConfig → CanonicalNode → Type 0
  IsReliable cfg node =
      (d : ProxyController env)
      → (passed (hooks.probe node cfg d).0 ≡ true)
        × ((label : String) × ((hooks.switch_node node true d).0 ≡ ok label))

  -- A cycle that heals: with a switch, right after a probe that passed, to the node of a passing score
  -- at the place `i` or before it.
  abbrev pub Heals :
      ScatterConfig
      → List CanonicalNode
      → List CandidateScore
      → ℕ
      → Option (FailoverAction × (ProxyController env × FailoverStatus floats))
      → Type 0
  Heals cfg nodes scores i result =
      (label : String) × (c' : ProxyController env) × (status' : FailoverStatus floats) × (result
        ≡ some (healed label, (c', status')))
      × ((k : ℕ) × (k ≤ i)
          × ((score : CandidateScore) × (node : CanonicalNode) × (get_elem? scores k ≡ some score)
              × (score.passes ≡ true)
              × (get_elem? nodes score.node_index ≡ some node)
              × ((c₁ c₂ : ProxyController env) × (passed (hooks.probe node cfg c₁).0 ≡ true)
                  × ((hooks.probe node cfg c₁).1 ≡ c₂)
                  × (hooks.switch_node node true c₂ ≡ (ok label, c')))))

  -- A search behind the first score.
  later-Heals :
      (cfg : ScatterConfig) (nodes : List CanonicalNode) (first : CandidateScore)
      (scores : List CandidateScore) (i : ℕ)
      (before after : Option (FailoverAction × (ProxyController env × FailoverStatus floats)))
      → ((end : FailoverAction × (ProxyController env × FailoverStatus floats))
          → after ≡ some end
          → before ≡ some end)
      → Heals cfg nodes scores i after
      → Heals cfg nodes (first ∷ scores) (suc i) before
  later-Heals cfg nodes first scores i before after goes_on
        (label, c', status', done, (k, le, (score, node, at, passes, is, found))) =
      (
        label,
        c',
        status',
        goes_on _ done,
        (suc k, omega (arith, le), (score, node, at, passes, is, found)),
      )

  heal_with-Heals :
      (cfg : ScatterConfig) (nodes : List CanonicalNode) (node : CanonicalNode)
      (scores : List CandidateScore) (i : ℕ) (score : CandidateScore) (c : ProxyController env)
      (status : FailoverStatus floats)
      → IsReliable cfg node
      → All (λ s. s.node_index < length nodes) scores
      → get_elem? scores i ≡ some score
      → score.passes ≡ true
      → get_elem? nodes score.node_index ≡ some node
      → Heals cfg nodes scores i
          (heal_with env floats config hooks cfg nodes (keep_if (λ s. s.passes) scores) c status)
  unfolding heal_with
  heal_with-Heals cfg nodes node [] i score c status good all at passes is = cc
  heal_with-Heals cfg nodes node (first ∷ scores) zero score c status good all at passes is =
      let trial = hooks.probe node cfg c in
      let same : first ≡ score = cc in
      let kept : first.passes ≡ true = ap (λ s. s.passes) same ∙ passes in
      let here : get_elem? nodes first.node_index ≡ some node =
        ap (λ s. get_elem? nodes s.node_index) same ∙ is in
      let pass = (good c).0 in
      let (label, fine) = (good trial.1).1 in
      let answer = hooks.switch_node node true trial.1 in
      (
        label,
        answer.1,
        no_failures env floats config hooks status,
        rw kept (>>=-some (get_elem? nodes first.node_index) _ here (rw (pass, fine) refl)),
        (
          0,
          omega arith,
          (first, node, refl, kept, here, (c, trial.1, pass, refl, ap (λ r. (r, answer.1)) fine)),
        ),
      )
  heal_with-Heals cfg nodes node (first ∷ scores) (suc i) score c status good (inside, all) at
        passes is =
      elim (Bool-cases first.passes) [
        | inr left ↦
            later-Heals cfg nodes first scores i _ _ (λ end done. rw left done)
              (heal_with-Heals cfg nodes node scores i score c status good all at passes is)
        | inl kept ↦
            let (other, there) = get_elem?-some_of_lt nodes first.node_index inside in
            let trial = hooks.probe other cfg c in
            let answer = hooks.switch_node other true trial.1 in
            elim (Bool-cases (passed trial.0)) [
              | inr fail ↦
                  later-Heals cfg nodes first scores i _ _
                    (λ end done.
                      rw kept (>>=-some (get_elem? nodes first.node_index) _ there (rw fail done)))
                    (heal_with-Heals cfg nodes node scores i score trial.1 status good all at passes
                      is)
              | inl pass ↦ elim (Result-cases answer.0) [
                | inl (e, failed) ↦
                    later-Heals cfg nodes first scores i _ _
                      (λ end done. rw kept (
                        >>=-some (get_elem? nodes first.node_index) _ there
                          (rw (pass, failed) done)))
                      (heal_with-Heals cfg nodes node scores i score answer.1 status good all at
                        passes is)
                | inr (label, fine) ↦ (
                  label,
                  answer.1,
                  no_failures env floats config hooks status,
                  rw kept
                      (>>=-some (get_elem? nodes first.node_index) _ there (rw (pass, fine) refl)),
                  (
                    0,
                    omega arith,
                    (
                      first,
                      other,
                      refl,
                      kept,
                      there,
                      (c, trial.1, pass, refl, ap (λ r. (r, answer.1)) fine),
                    ),
                  ),
                )
              ]
            ]
      ]

  pub heal_rescored-Heals :
      (cfg : ScatterConfig) (nodes : List CanonicalNode) (node : CanonicalNode)
      (scores : List CandidateScore) (i : ℕ) (score : CandidateScore) (d : ProxyController env)
      (status : FailoverStatus floats)
      → IsReliable cfg node
      → All (λ s. s.node_index < length nodes) scores
      → get_elem? scores i ≡ some score
      → score.passes ≡ true
      → get_elem? nodes score.node_index ≡ some node
      → Heals cfg nodes scores i
          (heal_rescored env floats config hooks cfg nodes (ok scores, d) status)
  unfolding heal_rescored
  heal_rescored-Heals cfg nodes node scores i score d status good all at passes is =
      heal_with-Heals cfg nodes node scores i score d (record status { shortlist = scores }) good
        all at passes is
