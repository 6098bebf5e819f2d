-- ===== src/Controller/Medians.antt =====
-- crates/controller/src/proxy_controller.rs, `rank_candidates`: what a score says of its node.
use yarisugi.Prelude.{
  ℕ, ◌/◌, ◌≤◌, compare, ◌≡◌, refl, Bool, true, false, List, map, keep_if, Option, none, some,
  leb→le, length, get_elem?, unwrap_or,
}
use yarisugi.Prelude.Panics.{>>=-some}
use yarisugi.Prelude.Sorting.{flip, compare-flip, then_with-flip, sort_by-IsSorted}
use yarisugi.Prelude.Ordered.{All-unit}
use yarisugi.Ir.Node.{CanonicalNode}
use yarisugi.Adapter.Targets.{ScatterReport}
use yarisugi.Controller.Tracks.{CandidateScore}
use yarisugi.Controller.Scoring.{
  sort_numbers, compare_bool, duration_max, abs_diff, median_and_spread, median_of_verified,
  score_of, selection_order,
}

compare_bool-flip : (a b : Bool) → compare_bool a b ≡ flip (compare_bool b a)
compare_bool-flip true true = refl
compare_bool-flip true false = refl
compare_bool-flip false true = refl
compare_bool-flip false false = refl

pub selection_order-flip : (a b : CandidateScore) → selection_order a b ≡ flip (selection_order b a)
unfolding selection_order
selection_order-flip a b = then_with-flip _ _ _ _ (compare_bool-flip b.passes a.passes) (
    then_with-flip _ _ _ _
      (compare-flip (unwrap_or a.median_latency duration_max)
        (unwrap_or b.median_latency duration_max))
      (then_with-flip _ _ _ _ (compare-flip b.verified a.verified)
        (compare-flip a.node_index b.node_index)))

sort_numbers-total : (xs : List ℕ) → (r : List ℕ) × (sort_numbers xs ≡ some r)
unfolding sort_numbers
sort_numbers-total xs =
    let found =
      sort_by-IsSorted (λ x. Unit {0}) (λ a b. some (compare a b)) compare (λ x y p q. refl)
        compare-flip xs (All-unit xs) in
    (found.0, found.1)

median_and_spread-total :
    (latencies : List ℕ) (median : Option ℕ)
    → (m : Option ℕ × Option ℕ) × (median_and_spread latencies median ≡ some m)
unfolding median_and_spread
median_and_spread-total latencies none = ((none, none), refl)
median_and_spread-total latencies (some median) =
    let (r, done) = sort_numbers-total (map (λ value. abs_diff value median) latencies) in
    (_, >>=-some (sort_numbers (map (λ value. abs_diff value median) latencies)) _ done refl)

median_of_verified-total :
    (report : ScatterReport) → (m : Option ℕ × Option ℕ) × (median_of_verified report ≡ some m)
unfolding median_of_verified
median_of_verified-total report =
    let (r, done) =
      sort_numbers-total (
        map (λ check. check.latency / 1000000) (keep_if (λ check. check.verified) report.checks)) in
    let (m, rest) = median_and_spread-total r (get_elem? r (length r / 2)) in
    (m, rw (done, rest) refl)

-- What a score says of its node: it passes only if there is a report with a quorum.
abbrev pub Tells : CandidateScore → ℕ → CanonicalNode → ℕ → Option ScatterReport → Type 0
Tells score index node min_verified report =
    (score.node_index ≡ index)
    × (score.label ≡ node.meta.label)
    × (score.sub_id ≡ node.meta.sub_id)
    × (score.passes ≡ true
        → (r : ScatterReport) × (report ≡ some r) × (min_verified ≤ r.quorum_verified))

pub score_of-Tells :
    (index : ℕ) (node : CanonicalNode) (min_verified : ℕ) (report : Option ScatterReport)
    → (score : CandidateScore) × (score_of index node min_verified report ≡ some score)
      × Tells score index node min_verified report
unfolding score_of
score_of-Tells index node min_verified none = (_, refl, (refl, refl, refl, λ h. cc))
score_of-Tells index node min_verified (some report) =
    let (m, done) = median_of_verified-total report in
    (
      _,
      >>=-some (median_of_verified report) _ done refl,
      (refl, refl, refl, λ h. (report, refl, leb→le min_verified report.quorum_verified h)),
    )
