-- ===== src/Controller/Scoring.antt =====
-- crates/controller/src/proxy_controller.rs: the scores of candidates from the reports of their
-- trials. Durations are numbers of nanoseconds.
use yarisugi.Prelude.{
  ℕ, suc, ◌+◌, ◌-◌, ◌*◌, ◌/◌, ◌^◌, min, compare, Ordering, Bool, true, false, List, [], ◌∷◌, map,
  keep_if, Option, none, some, leb, length, get_elem?, unwrap_or,
}
use yarisugi.Prelude.Panics.{◌>>=◌}
use yarisugi.Prelude.Sorting.{sort_by, then_with}
use yarisugi.Ir.Node.{CanonicalNode}
use yarisugi.Adapter.Targets.{ScatterReport}
use yarisugi.Controller.Tracks.{CandidateScore}

abbrev u64_max : ℕ
u64_max = 2 ^ 64 - 1

-- `Duration::MAX`
abbrev pub duration_max : ℕ
duration_max = 2 ^ 64 * 1000000000 - 1

unfoldable pub sort_numbers : List ℕ → Option (List ℕ)
unfolding sort_by
sort_numbers xs = sort_by (λ a b. some (compare a b)) xs

-- `value.abs_diff(median)`, one side of which is 0 on these numbers.
abbrev pub abs_diff : ℕ → ℕ → ℕ
abs_diff a b = (a - b) + (b - a)

abbrev from_millis : ℕ → ℕ
from_millis ms = min ms u64_max * 1000000

-- The part behind the sort of the latencies.
unfoldable pub median_and_spread : List ℕ → Option ℕ → Option (Option ℕ × Option ℕ)
unfolding sort_numbers
median_and_spread latencies none = some (none, none)
median_and_spread latencies (some median) = do
  deviations ← sort_numbers (map (λ value. abs_diff value median) latencies)
  some (
    some (from_millis median),
    some (from_millis (unwrap_or (get_elem? deviations (length deviations / 2)) 0)),
  )

unfoldable pub median_of_verified : ScatterReport → Option (Option ℕ × Option ℕ)
unfolding sort_numbers median_and_spread
median_of_verified report = do
  latencies ←
      sort_numbers
        (map (λ check. check.latency / 1000000) (keep_if (λ check. check.verified) report.checks))
  median_and_spread latencies (get_elem? latencies (length latencies / 2))

-- The score of one candidate, with the report of its trial if it booted.
unfoldable pub score_of : ℕ → CanonicalNode → ℕ → Option ScatterReport → Option CandidateScore
score_of index node min_verified none = some (record {
  node_index = index;
  label = node.meta.label;
  sub_id = node.meta.sub_id;
  verified = 0;
  total = 0;
  passes = false;
  median_latency = none;
  latency_spread = none;
})
score_of index node min_verified (some report) = do
  (median, spread) ← median_of_verified report
  some (record {
    node_index = index;
    label = node.meta.label;
    sub_id = node.meta.sub_id;
    verified = report.verified;
    total = report.total;
    passes = leb min_verified report.quorum_verified;
    median_latency = median;
    latency_spread = spread;
  })

-- `reports.get(index).and_then(Option::as_ref)`
abbrev pub report_at : List (Option ScatterReport) → ℕ → Option ScatterReport
report_at reports index = get_elem? reports index >>= λ report. report

-- The loop, from an index on.
unfoldable pub rank_from :
    ℕ → List CanonicalNode → List (Option ScatterReport) → ℕ → Option (List CandidateScore)
unfolding score_of
rank_from index [] reports min_verified = some []
rank_from index (node ∷ candidates) reports min_verified = do
  score ← score_of index node min_verified (report_at reports index)
  rest ← rank_from (suc index) candidates reports min_verified
  some (score ∷ rest)

unfoldable pub rank_candidates :
    List CanonicalNode → List (Option ScatterReport) → ℕ → Option (List CandidateScore)
unfolding rank_from
rank_candidates candidates reports min_verified = rank_from 0 candidates reports min_verified

abbrev pub compare_bool : Bool → Bool → Ordering
compare_bool false true = Ordering.lt
compare_bool true false = Ordering.gt
compare_bool _ _ = Ordering.eq

unfoldable pub selection_order : CandidateScore → CandidateScore → Ordering
selection_order a b = then_with (compare_bool b.passes a.passes) (
    then_with
      (compare (unwrap_or a.median_latency duration_max) (unwrap_or b.median_latency duration_max))
      (then_with (compare b.verified a.verified) (compare a.node_index b.node_index)))

unfoldable pub sort_ranked : List CandidateScore → Option (List CandidateScore)
unfolding sort_by selection_order
sort_ranked ranked = sort_by (λ a b. some (selection_order a b)) ranked
