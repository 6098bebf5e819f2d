-- ===== src/Adapter/Scatter.antt =====
-- crates/adapter/src/egress.rs: which targets a trial checks, and the report that its checks give.
-- The clock and the process number come in as the seed; the check of one target is a parameter, and
-- what the workers send is a list in the order of arrival.
use Prim.Native.Nat.{bit_xor}
use yarisugi.Prelude.{
  ℕ, zero, suc, ◌+◌, ◌-◌, ◌*◌, ◌/◌, ◌%◌, ◌^◌, min, ◌&&◌, List, [], ◌∷◌, ◌++◌, keep_if, Option, none,
  some, leb, ◌==◌, if◌then◌else◌, length, get_elem?, set, take, replicate,
}
use yarisugi.Prelude.Panics.{◌>>=◌, set_elem?}
use yarisugi.Adapter.Targets.{EgressTarget, ScatterConfig, TargetCheck, ScatterReport}

-- A shift to the left drops the bits beyond the word.
unfoldable pub xorshift64_star : ℕ → ℕ
xorshift64_star state =
    let state = bit_xor state (state * 2 ^ 12 % 2 ^ 64) in
    let state = bit_xor state (state / 2 ^ 25) in
    let state = bit_xor state (state * 2 ^ 27 % 2 ^ 64) in state * 2685821657736338717 % 2 ^ 64

-- `(start..start + n).collect()`
abbrev pub range : ℕ → ℕ → List ℕ
range start zero = []
range start (suc n) = start ∷ range (suc start) n

-- `indices.swap(i, j)`
unfoldable pub swap {ℓ} : {A : Type ℓ} → List A → ℕ → ℕ → Option (List A)
swap xs i j = do a ← get_elem? xs i; b ← get_elem? xs j; some (set (set xs i b) j a)

-- The loop, with the rounds that are left and the index of this one.
unfoldable pub shuffle_rounds : ℕ → ℕ → ℕ → ℕ → List ℕ → Option (List ℕ)
unfolding swap xorshift64_star
shuffle_rounds zero i len seed indices = some indices
shuffle_rounds (suc rounds) i len seed indices =
    let seed = xorshift64_star seed in
    do
      indices ← swap indices i (i + seed % (len - i))
      shuffle_rounds rounds (suc i) len seed indices

unfoldable pub shuffle_indices : ℕ → ℕ → ℕ → Option (List ℕ)
unfolding shuffle_rounds
shuffle_indices zero count seed = some []
shuffle_indices (suc n) zero seed = some []
shuffle_indices (suc n) (suc m) seed =
    let seed = if seed == 0 then 11400714819323198485 else seed in
    let count = min (suc m) (suc n) in
    do indices ← shuffle_rounds count 0 (suc n) seed (range 0 (suc n)); some (take count indices)

unfoldable pub pick {ℓ} : {A : Type ℓ} → List A → List ℕ → Option (List A)
pick sites [] = some []
pick sites (index ∷ indices) = do
  site ← get_elem? sites index
  rest ← pick sites indices
  some (site ∷ rest)

unfoldable pub sample_sites : List EgressTarget → ℕ → ℕ → Option (List EgressTarget)
unfolding shuffle_indices pick
sample_sites sites count seed = do
  indices ← shuffle_indices (length sites) count seed
  pick sites indices

unfoldable pub sample_targets : ScatterConfig → ℕ → Option (List EgressTarget)
unfolding sample_sites
sample_targets cfg seed = do
  real_sample ← sample_sites cfg.real_sites cfg.real_count seed
  some (cfg.operators ++ real_sample)

-- `for (i, check) in rx { ordered[i] = Some(check) }`
unfoldable pub collect :
    List (ℕ × TargetCheck) → List (Option TargetCheck) → Option (List (Option TargetCheck))
collect [] ordered = some ordered
collect ((i, check) ∷ rx) ordered = do
  ordered ← set_elem? ordered i (some check)
  collect rx ordered

-- A check that is missing is a panic.
unfoldable pub all_present : List (Option TargetCheck) → Option (List TargetCheck)
all_present [] = some []
all_present (none ∷ ordered) = none
all_present (some check ∷ ordered) = do checks ← all_present ordered; some (check ∷ checks)

unfoldable pub count_quorum : List EgressTarget → List TargetCheck → ℕ
count_quorum [] checks = 0
count_quorum (target ∷ work) [] = 0
count_quorum (target ∷ work) (check ∷ checks) =
    let rest = count_quorum work checks in
    if target.quorum && check.verified then suc rest else rest

-- The part behind the receiving loop.
unfoldable pub report_of : ScatterConfig → List EgressTarget → List TargetCheck → ScatterReport
unfolding count_quorum
report_of cfg work checks =
    let quorum_verified = count_quorum work checks in
    record {
      checks = checks;
      verified = length (keep_if (λ check. check.verified) checks);
      total = length work;
      quorum_verified = quorum_verified;
      passes = leb cfg.min_verified quorum_verified;
    }

-- The report over what was received from the workers, in the order of its arrival.
unfoldable pub scatter_report :
    ScatterConfig → List EgressTarget → List (ℕ × TargetCheck) → Option ScatterReport
unfolding collect all_present report_of
scatter_report cfg work rx = do
  ordered ← collect rx (replicate (length work) none)
  checks ← all_present ordered
  some (report_of cfg work checks)
