-- ===== src/Controller/Tracks.antt =====
-- crates/controller/src/auto_select.rs: the reputation of a node, and the cost that it gives. The
-- arithmetic of `f64` is a parameter. Durations and instants are numbers of nanoseconds.
use yarisugi.Prelude.{
  ℕ, suc, ◌-◌, ◌^◌, Bool, Option, none, some, String, Ordering, min, ◌==◌, if◌then◌else◌, unwrap_or,
}

-- `f64`, of the values that are not NaN: `literal a b` is the decimal number a / b, `of_count` the cast of an integer, and
-- `secs` is `Duration::as_secs_f64`.
pub record Floats : Type 1 where
  pub F64 : Type 0
  pub literal : ℕ → ℕ → F64
  pub of_count : ℕ → F64
  pub secs : ℕ → F64
  pub add : F64 → F64 → F64
  pub sub : F64 → F64 → F64
  pub mul : F64 → F64 → F64
  pub div : F64 → F64 → F64
  pub powf : F64 → F64 → F64
  pub fmin : F64 → F64 → F64
  pub fmax : F64 → F64 → F64
  pub clamp : F64 → F64 → F64 → F64
  pub lt : F64 → F64 → Bool
  pub partial_cmp : F64 → F64 → Option Ordering

pub record NodeTrack (floats : Floats) : Type 0 where
  pub latency_ewma_ms : Option floats.F64
  pub spread_ewma_ms : Option floats.F64
  pub failure_weight : floats.F64
  pub last_failure : Option ℕ
  pub consecutive_failures : ℕ
  pub samples : ℕ

pub record AutoSelectConfig (floats : Floats) : Type 0 where
  pub w_latency : floats.F64
  pub w_spread : floats.F64
  pub w_quorum : floats.F64
  pub w_failure : floats.F64
  pub latency_scale : floats.F64
  pub switch_margin : floats.F64
  pub failure_half_life : ℕ
  pub alpha : floats.F64

pub record CandidateScore : Type 0 where
  pub node_index : ℕ
  pub label : String
  pub sub_id : ℕ
  pub verified : ℕ
  pub total : ℕ
  pub passes : Bool
  pub median_latency : Option ℕ
  pub latency_spread : Option ℕ

-- `u32::saturating_add(1)`
abbrev pub saturating_suc : ℕ → ℕ
saturating_suc n = min (suc n) (2 ^ 32 - 1)

module _ (floats : Floats) where
  open floats use {
    F64, literal, of_count, secs, add, sub, mul, div, powf, fmin, fmax, clamp, lt, partial_cmp,
  }

  abbrev pub new_track : NodeTrack floats
  new_track = record {
    latency_ewma_ms = none;
    spread_ewma_ms = none;
    failure_weight = literal 0 1;
    last_failure = none;
    consecutive_failures = 0;
    samples = 0;
  }

  unfoldable pub default_config : AutoSelectConfig floats
  default_config = record {
    w_latency = literal 1 1;
    w_spread = literal 6 10;
    w_quorum = literal 5 10;
    w_failure = literal 12 10;
    latency_scale = literal 1000 1;
    switch_margin = literal 8 100;
    failure_half_life = 1800000000000;
    alpha = literal 35 100;
  }

  -- A moving average, with the measurement alone where there is none.
  abbrev pub smoothed : F64 → F64 → Option F64 → F64
  smoothed alpha sample none = sample
  smoothed alpha sample (some previous) =
      add (mul alpha sample) (mul (sub (literal 1 1) alpha) previous)

  unfoldable pub record_success : NodeTrack floats → F64 → F64 → F64 → NodeTrack floats
  record_success track median_ms spread_ms alpha =
      let alpha = clamp alpha (literal 0 1) (literal 1 1) in
      record track {
        latency_ewma_ms = some (smoothed alpha median_ms track.latency_ewma_ms);
        spread_ewma_ms = some (smoothed alpha spread_ms track.spread_ewma_ms);
        failure_weight = mul track.failure_weight (literal 5 10);
        consecutive_failures = 0;
        samples = saturating_suc track.samples;
      }

  unfoldable pub record_failure : NodeTrack floats → ℕ → NodeTrack floats
  record_failure track now = record track {
    consecutive_failures = saturating_suc track.consecutive_failures;
    failure_weight = fmin (add track.failure_weight (literal 1 1)) (literal 4 1);
    last_failure = some now;
  }

  -- The time since a later instant is 0, as `saturating_duration_since` has it.
  unfoldable pub decayed_failure : NodeTrack floats → ℕ → ℕ → F64
  decayed_failure track half_life now = elim track.last_failure [
    | none ↦ literal 0 1
    | some last ↦
        mul track.failure_weight
          (powf (literal 5 10) (div (secs (now - last)) (fmax (secs half_life) (literal 1 1))))
  ]

  abbrev pub millis : ℕ → F64
  millis duration = mul (secs duration) (literal 1000 1)

  abbrev pub millis_or : Option ℕ → F64 → F64
  millis_or none default = default
  millis_or (some duration) default = millis duration

  unfoldable pub selection_cost :
      CandidateScore → NodeTrack floats → AutoSelectConfig floats → ℕ → F64
  unfolding decayed_failure
  selection_cost score track config now =
      let fresh_ms = millis_or score.median_latency (mul config.latency_scale (literal 2 1)) in
      let fresh_spread_ms = millis_or score.latency_spread (literal 0 1) in
      let latency_ms = unwrap_or track.latency_ewma_ms fresh_ms in
      let spread_ms = unwrap_or track.spread_ewma_ms fresh_spread_ms in
      let latency_term = clamp (div latency_ms config.latency_scale) (literal 0 1) (literal 4 1) in
      let spread_term = clamp (div spread_ms config.latency_scale) (literal 0 1) (literal 4 1) in
      let disagreement =
        if score.total == 0
        then literal 1 1
        else sub (literal 1 1) (div (of_count score.verified) (of_count score.total)) in
      let failure_term = decayed_failure track config.failure_half_life now in
      add
        (add (add (mul config.w_latency latency_term) (mul config.w_spread spread_term))
          (mul config.w_quorum disagreement))
        (mul config.w_failure failure_term)
