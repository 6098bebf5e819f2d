-- ===== src/Controller/AutoSelect.antt =====
-- crates/controller/src/auto_select.rs: ranking and decision. A `HashMap` of tracks is the
-- function that `get` computes.
use yarisugi.Prelude.{
  ℕ, Bool, true, false, List, [], ◌∷◌, map, keep_if, Option, none, some, String, Ordering, compare,
  ◌==◌, if◌then◌else◌, unwrap_or, get_elem?,
}
use yarisugi.Prelude.Panics.{◌>>=◌}
use yarisugi.Prelude.Sorting.{then_with, sort_by}
use yarisugi.Controller.Tracks.{
  Floats, NodeTrack, AutoSelectConfig, CandidateScore, new_track, selection_cost, record_success,
  record_failure, millis_or,
}

pub record RankedNode (floats : Floats) : Type 0 where
  pub node_index : ℕ
  pub cost : floats.F64
  pub quorum_margin : floats.F64
  pub track : NodeTrack floats

pub data AutoDecision (floats : Floats) : Type 0 where
  adopted : ℕ → String → floats.F64 → AutoDecision floats
  kept : ℕ → String → AutoDecision floats
  switch : ℕ → String → floats.F64 → AutoDecision floats
  no_verified_node : AutoDecision floats

pub record AutoSelector (floats : Floats) : Type 0 where
  pub config : AutoSelectConfig floats
  pub tracks : ℕ → Option (NodeTrack floats)

module _ (floats : Floats) where
  open floats use {F64, literal, of_count, add, div, lt, partial_cmp}

  unfoldable pub decisively_beats : RankedNode floats → RankedNode floats → F64 → Bool
  decisively_beats node other margin = lt (add node.cost margin) other.cost

  -- `ids.get(index).and_then(|id| tracks.get(id)).cloned().unwrap_or_default()`
  unfoldable pub track_of : (ℕ → Option (NodeTrack floats)) → List ℕ → ℕ → NodeTrack floats
  track_of tracks ids index = unwrap_or (get_elem? ids index >>= tracks) (new_track floats)

  unfoldable pub ranked_node :
      (ℕ → Option (NodeTrack floats))
      → List ℕ
      → AutoSelectConfig floats
      → ℕ
      → CandidateScore
      → RankedNode floats
  unfolding track_of selection_cost
  ranked_node tracks ids config now score =
      let track = track_of tracks ids score.node_index in
      record {
        node_index = score.node_index;
        cost = selection_cost floats score track config now;
        quorum_margin =
            if score.total == 0
            then literal 0 1
            else div (of_count score.verified) (of_count score.total);
        track = track;
      }

  unfoldable pub rank_order : RankedNode floats → RankedNode floats → Ordering
  rank_order a b =
      then_with (unwrap_or (partial_cmp a.cost b.cost) Ordering.eq)
        (compare a.node_index b.node_index)

  unfoldable pub rank_working_nodes :
      List CandidateScore
      → (ℕ → Option (NodeTrack floats))
      → List ℕ
      → AutoSelectConfig floats
      → ℕ
      → Option (List (RankedNode floats))
  unfolding ranked_node rank_order sort_by
  rank_working_nodes scores tracks ids config now =
      sort_by (λ a b. some (rank_order a b))
        (map (ranked_node tracks ids config now) (keep_if (λ score. score.passes) scores))

  unfoldable pub should_switch : RankedNode floats → RankedNode floats → F64 → Bool
  unfolding decisively_beats
  should_switch challenger incumbent margin = decisively_beats challenger incumbent margin

  unfoldable pub label_of : List CandidateScore → ℕ → String
  label_of scores index = elim (get_elem? scores index) [ none ↦ "" | some score ↦ score.label ]

  unfoldable pub find_node : ℕ → List (RankedNode floats) → Option (RankedNode floats)
  find_node index [] = none
  find_node index (node ∷ ranked) =
      let rest = find_node index ranked in if node.node_index == index then some node else rest

  -- The decision where there is a best node.
  unfoldable pub decide_best :
      RankedNode floats → List (RankedNode floats) → String → Option ℕ → F64 → AutoDecision floats
  unfolding find_node should_switch
  decide_best best ranked label none margin = adopted best.node_index label best.cost
  decide_best best ranked label (some incumbent_index) margin =
      elim (find_node incumbent_index ranked) [
        | none ↦ switch best.node_index label best.cost
        | some current ↦
            if should_switch best current margin
            then switch best.node_index label best.cost
            else kept incumbent_index (
                if best.node_index == incumbent_index
                then "incumbent is the best verified node"
                else "challenger not decisively better")
      ]

  unfoldable pub decide_with_margin :
      List (RankedNode floats) → List CandidateScore → Option ℕ → F64 → AutoDecision floats
  unfolding decide_best label_of
  decide_with_margin [] scores incumbent margin = no_verified_node
  decide_with_margin (best ∷ rest) scores incumbent margin =
      decide_best best (best ∷ rest) (label_of scores best.node_index) incumbent margin

  -- `track_mut`, with what is then done to the track.
  unfoldable pub update_track :
      (ℕ → Option (NodeTrack floats))
      → ℕ
      → (NodeTrack floats → NodeTrack floats)
      → ℕ
      → Option (NodeTrack floats)
  update_track tracks id f k =
      if k == id then some (f (unwrap_or (tracks id) (new_track floats))) else tracks k

  unfoldable pub observe_verified : AutoSelector floats → ℕ → F64 → F64 → AutoSelector floats
  unfolding update_track record_success
  observe_verified selector id median_ms spread_ms = record selector {
    tracks =
        update_track selector.tracks id
          (λ track. record_success floats track median_ms spread_ms selector.config.alpha);
  }

  unfoldable pub observe_failed : AutoSelector floats → ℕ → ℕ → AutoSelector floats
  unfolding update_track record_failure
  observe_failed selector id now = record selector {
    tracks = update_track selector.tracks id (λ track. record_failure floats track now);
  }

  unfoldable pub observe_round :
      AutoSelector floats → List ℕ → List CandidateScore → ℕ → AutoSelector floats
  unfolding observe_verified observe_failed
  observe_round selector ids [] now = selector
  observe_round selector ids (score ∷ scores) now = elim (get_elem? ids score.node_index) [
    | none ↦ observe_round selector ids scores now
    | some id ↦ elim score.passes [
      | true ↦
          observe_round
            (observe_verified selector id (millis_or floats score.median_latency (literal 0 1))
              (millis_or floats score.latency_spread (literal 0 1)))
            ids scores now
      | false ↦ observe_round (observe_failed selector id now) ids scores now
    ]
  ]

  unfoldable pub decide :
      AutoSelector floats
      → List CandidateScore
      → List ℕ
      → Option ℕ
      → ℕ
      → Option (AutoDecision floats × List (RankedNode floats))
  unfolding rank_working_nodes decide_with_margin
  decide selector scores ids incumbent now = do
    ranked ← rank_working_nodes scores selector.tracks ids selector.config now
    some (decide_with_margin ranked scores incumbent selector.config.switch_margin, ranked)
