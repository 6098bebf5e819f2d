-- ===== src/Adapter/Reports.antt =====
-- crates/adapter/src/egress.rs: the report does not depend on which worker is done first.
use yarisugi.Prelude.{
  ℕ, suc, ◌≡◌, ◌≢◌, refl, sym, ap, ◌∙◌, ◌⊎◌, inl, inr, ◌<◌, List, [], ◌∷◌, Option, none, some,
  arith, ◌==◌, ==_iff, Bool-cases, All, length, length-set, get_elem?, get_elem?-set_self,
  get_elem?-set_ne, lt_of_get_elem?, replicate, length-replicate, set,
}
use yarisugi.Prelude.Panics.{set_elem?-some}
use yarisugi.Adapter.Targets.{EgressTarget, ScatterConfig, TargetCheck}
use yarisugi.Adapter.Scatter.{collect, all_present, report_of, scatter_report}

-- What arrives is the check of the target that it says it is about.
abbrev pub IsCheckOf : List TargetCheck → ℕ × TargetCheck → Type 0
IsCheckOf checks (i, check) = get_elem? checks i ≡ some check

-- Some worker has sent the check of the target.
abbrev pub Received : ℕ → List (ℕ × TargetCheck) → Type 0
Received i [] = ⊥
Received i ((j, check) ∷ rx) = (j ≡ i) ⊎ Received i rx

-- The cell of the target has its check, or the check is still to come.
abbrev IsDue : List (ℕ × TargetCheck) → List (Option TargetCheck) → ℕ → TargetCheck → Type 0
IsDue rx ordered i check = (get_elem? ordered i ≡ some (some check)) ⊎ Received i rx

module _ (checks : List TargetCheck) where
  -- What one arrival leaves due.
  IsDue-set :
      (j i : ℕ) (sent check : TargetCheck) (rx : List (ℕ × TargetCheck))
      (ordered : List (Option TargetCheck))
      → length ordered ≡ length checks
      → get_elem? checks j ≡ some sent
      → get_elem? checks i ≡ some check
      → IsDue ((j, sent) ∷ rx) ordered i check
      → IsDue rx (set ordered j (some sent)) i check
  IsDue-set j i sent check rx ordered long at_j at_i due = elim (Bool-cases (j == i)) [
    | inl hit ↦
        let same : j ≡ i = (==_iff j i).0 hit in
        let equal : ◌≡◌ {A = Option TargetCheck} (some sent) (some check) =
          sym at_j ∙ ap (get_elem? checks) same ∙ at_i in
        let inside : j < length ordered = omega (arith, lt_of_get_elem? checks j at_j) in
        inl (
          ap (get_elem? (set ordered j (some sent))) (sym same)
          ∙ get_elem?-set_self ordered j (some sent) inside
          ∙ ap some equal)
    | inr miss ↦
        let differ : j ≢ i = λ e. cc ((==_iff j i).1 e) in
        elim due [
          | inl there ↦ inl (get_elem?-set_ne ordered j i (some sent) differ ∙ there)
          | inr (inl e) ↦ absurd (differ e)
          | inr (inr later) ↦ inr later
        ]
  ]

  collect-All :
      (rx : List (ℕ × TargetCheck)) (ordered : List (Option TargetCheck))
      → All (IsCheckOf checks) rx
      → length ordered ≡ length checks
      → ((i : ℕ) (check : TargetCheck) → get_elem? checks i ≡ some check → IsDue rx ordered i check)
      → (full : List (Option TargetCheck)) × (collect rx ordered ≡ some full)
        × (length full ≡ length checks)
        × ((i : ℕ) (check : TargetCheck)
            → get_elem? checks i ≡ some check
            → get_elem? full i ≡ some (some check))
  unfolding collect
  collect-All [] ordered all long due = (
    ordered,
    refl,
    long,
    λ i check at. elim (due i check at) [ inl there ↦ there | inr never ↦ absurd never ],
  )
  collect-All ((j, sent) ∷ rx) ordered (at, all) long due =
      let inside : j < length ordered = omega (arith, lt_of_get_elem? checks j at) in
      let (full, done, long', filled) =
        collect-All rx (set ordered j (some sent)) all (length-set ordered j (some sent) ∙ long)
          (λ i check at_i. IsDue-set j i sent check rx ordered long at at_i (due i check at_i)) in
      (full, rw (set_elem?-some ordered j (some sent) inside) done, long', filled)

all_present-filled :
    (checks : List TargetCheck) (full : List (Option TargetCheck))
    → length full ≡ length checks
    → ((i : ℕ) (check : TargetCheck)
        → get_elem? checks i ≡ some check
        → get_elem? full i ≡ some (some check))
    → all_present full ≡ some checks
unfolding all_present
all_present-filled [] [] long filled = refl
all_present-filled [] (cell ∷ full) long filled = absurd (omega arith)
all_present-filled (check ∷ checks) [] long filled = absurd (omega arith)
all_present-filled (check ∷ checks) (none ∷ full) long filled = cc (filled 0 check refl)
all_present-filled (check ∷ checks) (some c ∷ full) long filled =
    let same : c ≡ check = cc (filled 0 check refl) in
    let rest = all_present-filled checks full (omega arith) (λ i d at. filled (suc i) d at) in
    rw (rest, same) refl

-- The report is the one of the checks in the order of the targets, whatever order they arrive in:
-- where there is one check for each target, what the workers send is the check of the target that it
-- names, and each target's check is sent, the receiver does not panic and reports these checks.
pub scatter_report-collect :
    (cfg : ScatterConfig) (work : List EgressTarget) (checks : List TargetCheck)
    (rx : List (ℕ × TargetCheck))
    → length checks ≡ length work
    → All (IsCheckOf checks) rx
    → ((i : ℕ) → i < length work → Received i rx)
    → scatter_report cfg work rx ≡ some (report_of cfg work checks)
unfolding scatter_report
scatter_report-collect cfg work checks rx long all sent =
    let (full, done, long', filled) =
      collect-All checks rx (replicate (length work) none) all
        (length-replicate (length work) none ∙ sym long)
        (λ i check at. inr (sent i (omega (arith, lt_of_get_elem? checks i at)))) in
    rw (done, all_present-filled checks full long' filled) refl
