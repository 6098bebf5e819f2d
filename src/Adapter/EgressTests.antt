-- ===== src/Adapter/EgressTests.antt =====
-- Runs of an egress trial, and its theorems at inputs that meet their hypotheses.
use mathlib.Core.List.{Perm}
use yarisugi.Prelude.{
  ℕ, zero, suc, ◌<◌, ◌≡◌, refl, inl, inr, true, false, List, [], ◌∷◌, ◌++◌, none, some, min, arith,
  length, take,
}
use yarisugi.Adapter.Targets.{EgressTarget, ScatterConfig, TargetCheck}
use yarisugi.Adapter.Scatter.{
  range, shuffle_indices, sample_targets, count_quorum, report_of, scatter_report,
}
use yarisugi.Adapter.Sampling.{shuffle_indices-Perm, sample_targets-noise}
use yarisugi.Adapter.Reports.{Received, scatter_report-collect}

abbrev operator : EgressTarget
operator = record {
  tag = "operator";
  host = "operator.example";
  path = "/";
  port = 80;
  tls = false;
  expect_status = 204;
  expect_body_contains = none;
  quorum = true;
}

abbrev site : EgressTarget
site = record operator { tag = "site"; quorum = false }

abbrev config : ScatterConfig
config = record {
  operators = operator ∷ [];
  real_sites = site ∷ site ∷ [];
  real_count = 1;
  min_verified = 1;
  timeout = 1;
  max_concurrency = 8;
}

abbrev good : TargetCheck
good = record { tag = "operator"; verified = true; latency = 5000000; status = 204; detail = "" }

abbrev noise : TargetCheck
noise = record good { tag = "site" }

drawn : shuffle_indices 4 2 7 ≡ some (3 ∷ 2 ∷ [])
unfolding shuffle_indices
drawn = refl

shuffle_indices-Perm_example :
    (indices rest : List ℕ) × (shuffle_indices 4 2 7 ≡ some indices)
    × (length indices ≡ min 2 4)
    × Perm (range 0 4) (indices ++ rest)
shuffle_indices-Perm_example = shuffle_indices-Perm 4 2 7

sampled : sample_targets config 7 ≡ some (operator ∷ site ∷ [])
unfolding sample_targets
sampled = refl

sample_targets-noise_example :
    (report_of config (operator ∷ site ∷ []) (good ∷ noise ∷ [])).quorum_verified
    ≡ count_quorum (operator ∷ []) (take 1 (good ∷ noise ∷ []))
sample_targets-noise_example =
    sample_targets-noise config 7 (operator ∷ site ∷ []) (good ∷ noise ∷ []) (refl, (refl, tt))
      sampled

-- The second worker is done first.
abbrev arrived : List (ℕ × TargetCheck)
arrived = (1, noise) ∷ (0, good) ∷ []

both_sent : (i : ℕ) → i < 2 → Received i arrived
both_sent zero h = inr (inl refl)
both_sent (suc zero) h = inl refl
both_sent (suc (suc n)) h = absurd (omega arith)

scatter_report-collect_example :
    scatter_report config (operator ∷ site ∷ []) arrived
    ≡ some (report_of config (operator ∷ site ∷ []) (good ∷ noise ∷ []))
scatter_report-collect_example =
    scatter_report-collect config (operator ∷ site ∷ []) (good ∷ noise ∷ []) arrived refl
      (refl, (refl, tt)) both_sent
