-- ===== src/Controller/Tests.antt =====
-- The theorems on auto mode at inputs that meet their hypotheses.
use yarisugi.Prelude.{
  ℕ, ◌+◌, ◌-◌, ◌*◌, ◌/◌, ◌≡◌, ◌≢◌, refl, ap, Ordering, arith, true, false, List, [], ◌∷◌, none,
  some, compare, ltb, min, max,
}
use yarisugi.Prelude.Sorting.{compare-flip, IsFirstLeast}
use yarisugi.Controller.Tracks.{Floats, CandidateScore, default_config}
use yarisugi.Controller.AutoSelect.{RankedNode, AutoDecision, AutoSelector, rank_order, decide}
use yarisugi.Controller.Choice.{IsSound, decide-IsSound}
use yarisugi.Controller.Costs.{FloatLaws}

-- Natural numbers in the place of floats.
abbrev pub toy : Floats
toy = record {
  F64 = ℕ;
  literal = λ a b. a / b;
  of_count = λ n. n;
  secs = λ n. n;
  add = λ a b. a + b;
  sub = λ a b. a - b;
  mul = λ a b. a * b;
  div = λ a b. a / b;
  powf = λ a b. a;
  fmin = λ a b. min a b;
  fmax = λ a b. max a b;
  clamp = λ a low high. min (max a low) high;
  lt = λ a b. ltb a b;
  partial_cmp = λ a b. some (compare a b);
}

toy_trans :
    (a b c : ℕ) → compare a b ≢ Ordering.gt → compare b c ≢ Ordering.gt → compare a c ≢ Ordering.gt
toy_trans a b c h g = ground arith

pub toy_laws : FloatLaws toy
toy_laws = record {
  partial_cmp_total = λ a b. (compare a b, refl);
  partial_cmp_dual = λ a b. ap some (compare-flip a b);
  partial_cmp_trans = λ a b c h g k. toy_trans a b c (λ e. h (ap some e)) (λ e. g (ap some e)) (cc);
}

abbrev pub slow : CandidateScore
slow = record {
  node_index = 1;
  label = "slow";
  sub_id = 1;
  verified = 5;
  total = 9;
  passes = true;
  median_latency = some 200;
  latency_spread = some 20;
}

abbrev broken : CandidateScore
broken = record slow { node_index = 0; label = "broken"; verified = 1; passes = false }

abbrev scores : List CandidateScore
scores = broken ∷ slow ∷ []

abbrev selector : AutoSelector toy
selector = record { config = default_config toy; tracks = λ id. none }

decide-IsSound_example :
    (decision : AutoDecision toy) × (ranked : List (RankedNode toy)) × (decide toy selector scores
        (7 ∷ 8 ∷ [])
        (some 0)
        0
      ≡ some (decision, ranked))
    × IsSound toy scores ranked selector.config.switch_margin (some 0) decision
    × IsFirstLeast (rank_order toy) ranked
decide-IsSound_example = decide-IsSound toy toy_laws selector scores (7 ∷ 8 ∷ []) (some 0) 0
