-- ===== src/Controller/Trials.antt =====
-- crates/controller/src/proxy_controller.rs, `tiered_shortlist`: what a shortlist promises.
use yarisugi.Prelude.{
  ℕ, zero, suc, ◌+◌, ◌≤◌, ◌<◌, ◌≡◌, refl, sym, ap, subst, ◌∙◌, true, List, [], ◌∷◌, Option, some,
  String, Result, ok, err, arith, All, length, get_elem?, get_elem?-some_of_lt, take,
}
use yarisugi.Prelude.Sorting.{sort_by-IsSorted}
use yarisugi.Prelude.Ordered.{All-map, All-take, length-take}
use yarisugi.Ir.Node.{CanonicalNode}
use yarisugi.Adapter.Targets.{ScatterReport, ScatterConfig}
use yarisugi.Controller.Tracks.{CandidateScore}
use yarisugi.Controller.Scoring.{report_at, selection_order, sort_ranked}
use yarisugi.Controller.Shortlist.{
  PreflightConfig, Trials, run_egress_trials, nodes_at, score_finalists, shortlist_of, ok_of,
  tiered_shortlist,
}
use yarisugi.Controller.Finalists.{select_finalists-fastest}
use yarisugi.Controller.Medians.{selection_order-flip, score_of-Tells}

ok_of-some : {A : Type 0} (r : Result A) {a : A} → ok_of r ≡ some a → r ≡ ok a
ok_of-some (err e) h = cc
ok_of-some (ok a) h = cc

module _ {W : Type 0} (trials : Trials W) where
  -- At some point a trial of the node has given the report.
  abbrev pub WasTrialled : String → ScatterConfig → CanonicalNode → ScatterReport → Type 0
  WasTrialled binary cfg node report =
      (w w' : W) × (trials.test_egress_scatter binary node cfg w ≡ (ok report, w'))

  -- The score is of the candidate at its index, and it passes only if a trial of that candidate
  -- reached the quorum.
  abbrev pub IsScoreOf : String → List CanonicalNode → ScatterConfig → CandidateScore → Type 0
  IsScoreOf binary candidates cfg score =
      (node : CanonicalNode) × (get_elem? candidates score.node_index ≡ some node)
      × (score.label ≡ node.meta.label)
      × (score.sub_id ≡ node.meta.sub_id)
      × (score.passes ≡ true
          → (report : ScatterReport) × WasTrialled binary cfg node report
            × (cfg.min_verified ≤ report.quorum_verified))

  run_egress_trials-WasTrialled :
      (binary : String) (nodes : List CanonicalNode) (cfg : ScatterConfig) (w : W) (i : ℕ)
      {node : CanonicalNode} {report : ScatterReport}
      → get_elem? nodes i ≡ some node
      → report_at (run_egress_trials trials binary nodes cfg w).0 i ≡ some report
      → WasTrialled binary cfg node report
  unfolding run_egress_trials
  run_egress_trials-WasTrialled binary [] cfg w i at h = cc
  run_egress_trials-WasTrialled binary (n ∷ nodes) cfg w zero {node} {report} at h =
      let first = trials.test_egress_scatter binary n cfg w in
      let same : n ≡ node = cc in
      let done : first.0 ≡ ok report = ok_of-some first.0 h in
      let is : first ≡ (ok report, first.1) = ap (λ r. (r, first.1)) done in
      (
        w,
        first.1,
        subst (λ m. trials.test_egress_scatter binary m cfg w ≡ (ok report, first.1)) same is,
      )
  run_egress_trials-WasTrialled binary (n ∷ nodes) cfg w (suc i) at h =
      run_egress_trials-WasTrialled binary nodes cfg (trials.test_egress_scatter binary n cfg w).1 i
        at h

  -- A node stands at the place of its index.
  abbrev AreAt : List CanonicalNode → List ℕ → List CanonicalNode → Type 0
  AreAt candidates finalists nodes =
      (k index : ℕ) (node : CanonicalNode)
      → get_elem? finalists k ≡ some index
      → get_elem? candidates index ≡ some node
      → get_elem? nodes k ≡ some node

  AreAt-cons :
      (candidates : List CanonicalNode) (finalists : List ℕ) (nodes : List CanonicalNode) (i : ℕ)
      (node : CanonicalNode)
      → get_elem? candidates i ≡ some node
      → AreAt candidates finalists nodes
      → AreAt candidates (i ∷ finalists) (node ∷ nodes)
  AreAt-cons candidates finalists nodes i node at same zero index n h g =
      let here : i ≡ index = cc in sym at ∙ ap (get_elem? candidates) here ∙ g
  AreAt-cons candidates finalists nodes i node at same (suc k) index n h g = same k index n h g

  nodes_at-total :
      (candidates : List CanonicalNode) (finalists : List ℕ)
      → All (λ i. i < length candidates) finalists
      → (nodes : List CanonicalNode) × (nodes_at trials candidates finalists ≡ some nodes)
        × AreAt candidates finalists nodes
  unfolding nodes_at
  nodes_at-total candidates [] h = ([], refl, λ k index node at g. cc)
  nodes_at-total candidates (i ∷ finalists) (inside, h) =
      let (node, at) = get_elem?-some_of_lt candidates i inside in
      let (nodes, done, same) = nodes_at-total candidates finalists h in
      (node ∷ nodes, rw (at, done) refl, AreAt-cons candidates finalists nodes i node at same)

  score_finalists-total :
      (binary : String) (candidates : List CanonicalNode) (cfg : ScatterConfig)
      (reports : List (Option ScatterReport)) (slot : ℕ) (finalists : List ℕ)
      → All (λ i. i < length candidates) finalists
      → ((k index : ℕ) (node : CanonicalNode) (report : ScatterReport)
          → get_elem? finalists k ≡ some index
          → get_elem? candidates index ≡ some node
          → report_at reports (slot + k) ≡ some report
          → WasTrialled binary cfg node report)
      → (scores : List CandidateScore) × (score_finalists trials candidates reports cfg.min_verified
            slot finalists
          ≡ some scores)
        × All (IsScoreOf binary candidates cfg) scores
  unfolding score_finalists
  score_finalists-total binary candidates cfg reports slot [] h trialled = ([], refl, tt)
  score_finalists-total binary candidates cfg reports slot (i ∷ finalists) (inside, h) trialled =
      let (node, at) = get_elem?-some_of_lt candidates i inside in
      let (score, scored, (same, label, sub, passes)) =
        score_of-Tells i node cfg.min_verified (report_at reports slot) in
      let (scores, done, all) =
        score_finalists-total binary candidates cfg reports (suc slot) finalists h
          (λ k index n report at' g r.
            trialled (suc k) index n report at' g
              (subst (λ n. report_at reports n ≡ some report) (omega arith) r)) in
      (
        score ∷ scores,
        rw (at, scored, done) refl,
        (
          (
            node,
            ap (get_elem? candidates) same ∙ at,
            label,
            sub,
            λ p.
                let (report, is, enough) = passes p in
                (
                  report,
                  trialled 0 i node report refl at
                      (subst (λ n. report_at reports n ≡ some report) (omega arith) is),
                  enough,
                ),
          ),
          all,
        ),
      )

  shortlist_of-total :
      (binary : String) (candidates : List CanonicalNode) (cfg : ScatterConfig) (limit : ℕ)
      (finalists : List ℕ) (w : W)
      → All (λ i. i < length candidates) finalists
      → (scores : List CandidateScore) × (w' : W) × (shortlist_of trials binary candidates cfg limit
            finalists w
          ≡ some (scores, w'))
        × (length scores ≤ limit)
        × All (IsScoreOf binary candidates cfg) scores
  unfolding shortlist_of sort_ranked
  shortlist_of-total binary candidates cfg limit [] w h = ([], w, refl, omega arith, tt)
  shortlist_of-total binary candidates cfg limit (i ∷ finalists) w h =
      let (nodes, found, same) = nodes_at-total candidates (i ∷ finalists) h in
      let trialled = run_egress_trials trials binary nodes cfg w in
      let (scores, scored, all) =
        score_finalists-total binary candidates cfg trialled.0 0 (i ∷ finalists) h
          (λ k index node report at g r.
            run_egress_trials-WasTrialled binary nodes cfg w k (same k index node at g)
              (subst (λ n. report_at trialled.0 n ≡ some report) (omega arith) r)) in
      let (ranked, sorted, _, all', _) =
        sort_by-IsSorted (IsScoreOf binary candidates cfg) (λ a b. some (selection_order a b))
          selection_order (λ x y p q. refl) selection_order-flip scores all in
      (
        take limit ranked,
        trialled.1,
        rw (found, scored, sorted) refl,
        omega (arith, length-take limit ranked),
        All-take _ limit ranked all',
      )

  -- Where the sweep gives no more rows than there are candidates, the shortlist is made without a
  -- panic. It has at most `limit` scores, each of the candidate at its index, and a score passes only
  -- if a trial of that candidate has reached the quorum.
  pub tiered_shortlist-IsScoreOf :
      (binary : String) (candidates : List CanonicalNode) (preflight : PreflightConfig)
      (cfg : ScatterConfig) (limit : ℕ) (w : W)
      → length (trials.cheap_sweep candidates preflight w).0 ≤ length candidates
      → (scores : List CandidateScore) × (w' : W) × (tiered_shortlist trials binary candidates
            preflight cfg limit w
          ≡ some (scores, w'))
        × (length scores ≤ limit)
        × All (IsScoreOf binary candidates cfg) scores
  unfolding tiered_shortlist
  tiered_shortlist-IsScoreOf binary [] preflight cfg limit w h = ([], w, refl, omega arith, tt)
  tiered_shortlist-IsScoreOf binary (n ∷ nodes) preflight cfg limit w h =
      let swept = trials.cheap_sweep (n ∷ nodes) preflight w in
      let found = select_finalists-fastest swept.0 preflight.finalists in
      let inside =
        All-map _ (λ i. i < length (n ∷ nodes)) found.0 (λ i p. omega (arith, p.1, h)) found.6 in
      let (scores, w', done, few, all) =
        shortlist_of-total binary (n ∷ nodes) cfg limit found.0 swept.1 inside in
      (scores, w', rw found.2 done, few, all)
