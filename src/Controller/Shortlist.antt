-- ===== src/Controller/Shortlist.antt =====
-- crates/controller/src/proxy_controller.rs: the shortlist in two tiers, a cheap sweep of the sockets
-- and the trials of its finalists. The sweep and the trial of a node are a parameter.
use yarisugi.Prelude.{
  ℕ, suc, compare, Bool, false, not, List, [], ◌∷◌, keep_if, Option, none, some, String, Result, ok,
  err, length, get_elem?, take, unwrap_or,
}
use yarisugi.Prelude.Effects.{Action}
use yarisugi.Prelude.Panics.{◌>>=◌}
use yarisugi.Prelude.Sorting.{sort_by}
use yarisugi.Ir.Node.{CanonicalNode}
use yarisugi.Adapter.Targets.{ScatterReport, ScatterConfig}
use yarisugi.Adapter.Scatter.{range}
use yarisugi.Controller.Tracks.{CandidateScore}
use yarisugi.Controller.Scoring.{sort_numbers, score_of, report_at, rank_candidates, sort_ranked}

pub record PreflightConfig : Type 0 where
  pub concurrency : ℕ
  pub connect_timeout : ℕ
  pub finalists : ℕ

unfoldable pub default_preflight : PreflightConfig
default_preflight = record { concurrency = 512; connect_timeout = 800000000; finalists = 8 }

pub record CheapOutcome : Type 0 where
  pub latency : Option ℕ
  pub dead : Bool

-- `!outcomes[index].dead`
abbrev pub alive : List CheapOutcome → ℕ → Bool
alive outcomes index = elim (get_elem? outcomes index) [ none ↦ false | some o ↦ not o.dead ]

-- `outcomes[index].latency.unwrap_or(u16::MAX)`; the index is one that `alive` has passed.
abbrev pub latency_key : List CheapOutcome → ℕ → ℕ
latency_key outcomes index = elim (get_elem? outcomes index) [
  | none ↦ 65535
  | some o ↦ unwrap_or o.latency 65535
]

unfoldable pub select_finalists : List CheapOutcome → ℕ → Option (List ℕ)
unfolding sort_by sort_numbers
select_finalists outcomes finalists = do
  order ←
      sort_by (λ a b. some (compare (latency_key outcomes a) (latency_key outcomes b)))
        (keep_if (alive outcomes) (range 0 (length outcomes)))
  sort_numbers (take finalists order)

-- What a shortlist runs on the machine `W`: the sweep gives one row for each candidate, or none
-- where no runtime could be built; a trial takes the core's binary.
pub record Trials (W : Type 0) : Type 0 where
  pub cheap_sweep : List CanonicalNode → PreflightConfig → W → List CheapOutcome × W
  pub test_egress_scatter : String → CanonicalNode → ScatterConfig → Action W ScatterReport

-- `Result::ok`
abbrev pub ok_of {ℓ} : {A : Type ℓ} → Result A → Option A
ok_of (err e) = none
ok_of (ok a) = some a

module _ {W : Type 0} (trials : Trials W) where
  open trials use {cheap_sweep, test_egress_scatter}

  unfoldable pub run_egress_trials :
      String → List CanonicalNode → ScatterConfig → W → List (Option ScatterReport) × W
  run_egress_trials binary [] cfg w = ([], w)
  run_egress_trials binary (node ∷ candidates) cfg w =
      let first = test_egress_scatter binary node cfg w in
      let rest = run_egress_trials binary candidates cfg first.1 in (ok_of first.0 ∷ rest.0, rest.1)

  unfoldable pub score_egress_candidates :
      String → List CanonicalNode → ScatterConfig → ℕ → W → Option (List CandidateScore × W)
  unfolding run_egress_trials rank_candidates sort_ranked
  score_egress_candidates binary candidates cfg limit w =
      let trialled = run_egress_trials binary candidates cfg w in
      do
        scores ← rank_candidates candidates trialled.0 cfg.min_verified
        ranked ← sort_ranked scores
        some (take limit ranked, trialled.1)

  -- `finalists.iter().map(|&index| candidates[index].clone())`
  unfoldable pub nodes_at : List CanonicalNode → List ℕ → Option (List CanonicalNode)
  nodes_at candidates [] = some []
  nodes_at candidates (index ∷ finalists) = do
    node ← get_elem? candidates index
    rest ← nodes_at candidates finalists
    some (node ∷ rest)

  -- The scores of the finalists, from a slot of the reports on.
  unfoldable pub score_finalists :
      List CanonicalNode
      → List (Option ScatterReport)
      → ℕ
      → ℕ
      → List ℕ
      → Option (List CandidateScore)
  unfolding score_of
  score_finalists candidates reports min_verified slot [] = some []
  score_finalists candidates reports min_verified slot (index ∷ finalists) = do
    node ← get_elem? candidates index
    score ← score_of index node min_verified (report_at reports slot)
    rest ← score_finalists candidates reports min_verified (suc slot) finalists
    some (score ∷ rest)

  -- The part behind the sweep.
  unfoldable pub shortlist_of :
      String
      → List CanonicalNode
      → ScatterConfig
      → ℕ
      → List ℕ
      → W
      → Option (List CandidateScore × W)
  unfolding nodes_at run_egress_trials score_finalists sort_ranked
  shortlist_of binary candidates heavy limit [] w = some ([], w)
  shortlist_of binary candidates heavy limit (first ∷ others) w = do
    finalist_nodes ← nodes_at candidates (first ∷ others)
    let trialled = run_egress_trials binary finalist_nodes heavy w
    scores ← score_finalists candidates trialled.0 heavy.min_verified 0 (first ∷ others)
    ranked ← sort_ranked scores
    some (take limit ranked, trialled.1)

  unfoldable pub tiered_shortlist :
      String
      → List CanonicalNode
      → PreflightConfig
      → ScatterConfig
      → ℕ
      → W
      → Option (List CandidateScore × W)
  unfolding select_finalists shortlist_of
  tiered_shortlist binary [] preflight heavy limit w = some ([], w)
  tiered_shortlist binary (node ∷ nodes) preflight heavy limit w =
      let swept = cheap_sweep (node ∷ nodes) preflight w in
      do
        finalists ← select_finalists swept.0 preflight.finalists
        shortlist_of binary (node ∷ nodes) heavy limit finalists swept.1
