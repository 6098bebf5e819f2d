-- ===== src/Controller/Cycle.antt =====
-- crates/controller/src/proxy_controller.rs: one cycle of the failover watchdog. A panic is `none`;
-- the text of an error stands for its chain of contexts.
use Prim.Native.String.{◌++◌ as str_append}
use text.Mathlib.Text.{◌==◌ as str_eq}
use yarisugi.Prelude.{
  ℕ, Bool, true, false, not, List, [], ◌∷◌, keep_if, Option, some, String, Result, ok, err,
  get_elem?,
}
use yarisugi.Prelude.Panics.{◌>>=◌}
use yarisugi.Ir.Node.{CanonicalNode}
use yarisugi.Adapter.Targets.{ScatterConfig}
use yarisugi.Controller.Tracks.{Floats, CandidateScore}
use yarisugi.Controller.AutoSelect.{RankedNode, observe_round, rank_working_nodes}
use yarisugi.Controller.Session.{Environment, ProxyController}
use yarisugi.Controller.Failover.{
  FailoverConfig, FailoverAction, switched, unconfirmed, degraded, healed, error, FailoverStatus,
  FailoverHooks, passed, candidate_pairs, candidate_nodes,
}

module _ (env : Environment) (floats : Floats) (config : FailoverConfig)
    (hooks : FailoverHooks env) where
  -- What a cycle ends with: the action, the controller and the status.
  abbrev pub Cycle : Type 0 → Type 0
  Cycle A = A × (ProxyController env × FailoverStatus floats)

  abbrev pub no_failures : FailoverStatus floats → FailoverStatus floats
  no_failures status = record status { consecutive_failures = 0 }

  -- The answer to a switch.
  unfoldable pub conclude :
      (String → FailoverAction)
      → String
      → Result String × ProxyController env
      → FailoverStatus floats
      → Cycle FailoverAction
  conclude done failed (ok label, c) status = (done label, (c, no_failures status))
  conclude done failed (err e, c) status = (error (str_append failed e), (c, status))

  -- The candidates in the order of their ranks, until one passes a second time.
  unfoldable pub confirm :
      ScatterConfig
      → List CanonicalNode
      → List (RankedNode floats)
      → Bool
      → ProxyController env
      → FailoverStatus floats
      → Option (Cycle FailoverAction)
  unfolding conclude
  confirm cfg nodes [] true c status = some (unconfirmed, (c, status))
  confirm cfg nodes [] false c status = some (degraded, (hooks.degrade c, no_failures status))
  confirm cfg nodes (entry ∷ ranked) saw_a_passer c status = do
    candidate ← get_elem? nodes entry.node_index
    let trial = hooks.probe candidate cfg c
    elim (passed trial.0) [
      | true ↦
          some
            (conclude switched "switch failed: " (hooks.switch_node candidate true trial.1) status)
      | false ↦ confirm cfg nodes ranked true trial.1 status
    ]

  -- `shortlist.retain(|score| score.label != active.meta.label)`
  abbrev pub others : CanonicalNode → List CandidateScore → List CandidateScore
  others active = keep_if (λ score. not (str_eq score.label active.meta.label))

  -- The status after a round of observations, and the ranking of the round.
  abbrev pub observed :
      List ℕ → List CandidateScore → ℕ → FailoverStatus floats → FailoverStatus floats
  observed ids shortlist now status = record status {
    selector = observe_round floats status.selector ids shortlist now;
    shortlist = shortlist;
  }

  unfoldable pub rank_observed :
      List ℕ → ℕ → FailoverStatus floats → Option (List (RankedNode floats))
  rank_observed ids now status =
      rank_working_nodes floats status.shortlist status.selector.tracks ids status.selector.config
        now

  -- The part of the escalation behind the rescore.
  unfoldable pub escalate_with :
      ScatterConfig
      → CanonicalNode
      → List ℕ
      → List CanonicalNode
      → Result (List CandidateScore) × ProxyController env
      → FailoverStatus floats
      → Option (Cycle FailoverAction)
  unfolding rank_observed confirm
  escalate_with cfg active ids nodes (err e, c) status =
      some (error (str_append "rescore failed: " e), (c, status))
  escalate_with cfg active ids nodes (ok scores, c) status =
      let now = env.now c.session.world in
      let status = observed ids (others active scores) now status in
      do ranked ← rank_observed ids now status; confirm cfg nodes ranked false c status

  unfoldable pub escalate_among :
      ScatterConfig
      → CanonicalNode
      → Result (List ℕ × List CanonicalNode)
      → ProxyController env
      → FailoverStatus floats
      → Option (Cycle FailoverAction)
  unfolding escalate_with
  escalate_among cfg active (err e) c status =
      some (error (str_append "catalog unavailable: " e), (c, status))
  escalate_among cfg active (ok (ids, nodes)) c status = do
    answer ← hooks.rescore nodes cfg config.rescore_limit c
    escalate_with cfg active ids nodes answer status

  unfoldable pub escalate :
      ScatterConfig
      → CanonicalNode
      → ProxyController env
      → FailoverStatus floats
      → Option (Cycle FailoverAction)
  unfolding escalate_among
  escalate cfg active c status = escalate_among cfg active (candidate_pairs env c) c status

  -- The loop over the passing scores: a candidate whose probe or whose switch fails is left.
  unfoldable pub heal_with :
      ScatterConfig
      → List CanonicalNode
      → List CandidateScore
      → ProxyController env
      → FailoverStatus floats
      → Option (Cycle FailoverAction)
  heal_with cfg candidates [] c status = some (degraded, (c, status))
  heal_with cfg candidates (score ∷ scores) c status = do
    candidate ← get_elem? candidates score.node_index
    let trial = hooks.probe candidate cfg c
    elim (passed trial.0) [
      | false ↦ heal_with cfg candidates scores trial.1 status
      | true ↦
          let answer = hooks.switch_node candidate true trial.1 in
          elim answer.0 [
            | ok label ↦ some (healed label, (answer.1, no_failures status))
            | err e ↦ heal_with cfg candidates scores answer.1 status
          ]
    ]

  unfoldable pub heal_rescored :
      ScatterConfig
      → List CanonicalNode
      → Result (List CandidateScore) × ProxyController env
      → FailoverStatus floats
      → Option (Cycle FailoverAction)
  unfolding heal_with
  heal_rescored cfg candidates (err e, c) status = some (degraded, (c, status))
  heal_rescored cfg candidates (ok shortlist, c) status =
      heal_with cfg candidates (keep_if (λ score. score.passes) shortlist) c
        (record status { shortlist = shortlist })

  unfoldable pub heal_among :
      ScatterConfig
      → Result (List CanonicalNode)
      → ProxyController env
      → FailoverStatus floats
      → Option (Cycle FailoverAction)
  unfolding heal_rescored
  heal_among cfg (err e) c status = some (degraded, (c, status))
  heal_among cfg (ok candidates) c status = do
    answer ← hooks.rescore candidates cfg config.rescore_limit c
    heal_rescored cfg candidates answer status

  unfoldable pub heal_or_stay_degraded :
      ScatterConfig → ProxyController env → FailoverStatus floats → Option (Cycle FailoverAction)
  unfolding heal_among
  heal_or_stay_degraded cfg c status = heal_among cfg (candidate_nodes env c) c status
