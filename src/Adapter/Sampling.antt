-- ===== src/Adapter/Sampling.antt =====
-- crates/adapter/src/egress.rs: what a draw of targets can be.
use mathlib.Core.List.{Perm}
use mathlib.Core.List.Perm
use yarisugi.Prelude.{
  ℕ, zero, suc, ◌+◌, ◌-◌, ◌%◌, ◌≤◌, ◌<◌, min, ◌≡◌, refl, sym, subst, ap, ◌∙◌, false, List, [], ◌∷◌,
  ◌++◌, some, arith, ◌==◌, if◌then◌else◌, All, length, length-set, get_elem?, get_elem?-some_of_lt,
  set, take, drop,
}
use yarisugi.Prelude.Panics.{>>=-eq-some}
use yarisugi.Prelude.Ordered.{take-drop, length-take}
use yarisugi.Adapter.Targets.{EgressTarget, ScatterConfig, TargetCheck}
use yarisugi.Adapter.Scatter.{
  xorshift64_star, range, swap, shuffle_rounds, shuffle_indices, pick, sample_sites, sample_targets,
  count_quorum, report_of,
}

module _ {ℓ} {A : Type ℓ} where
  -- A value that is exchanged for an entry.
  set-Perm :
      (xs : List A) (j : ℕ) (x b : A) → get_elem? xs j ≡ some b → Perm (x ∷ xs) (b ∷ set xs j x)
  set-Perm [] j x b h = cc
  set-Perm (y ∷ ys) zero x b h =
      let same : y ≡ b = cc in subst (λ z. Perm (x ∷ y ∷ ys) (z ∷ x ∷ ys)) same (Perm.swap y x ys)
  set-Perm (y ∷ ys) (suc j) x b h =
      Perm.trans (Perm.swap y x ys)
        (Perm.trans (Perm.cons y (set-Perm ys j x b h)) (Perm.swap b y (set ys j x)))

  set-set-Perm :
      (xs : List A) (i j : ℕ) (a b : A)
      → i ≤ j
      → get_elem? xs i ≡ some a
      → get_elem? xs j ≡ some b
      → Perm xs (set (set xs i b) j a)
  set-set-Perm [] i j a b le h g = cc
  set-set-Perm (x ∷ xs) zero zero a b le h g =
      let same : x ≡ a = cc in subst (λ z. Perm (x ∷ xs) (z ∷ xs)) same (Perm.refl (x ∷ xs))
  set-set-Perm (x ∷ xs) zero (suc j) a b le h g =
      let same : x ≡ a = cc in
      subst (λ z. Perm (x ∷ xs) (b ∷ set xs j z)) same (set-Perm xs j x b g)
  set-set-Perm (x ∷ xs) (suc i) zero a b le h g = absurd (omega arith)
  set-set-Perm (x ∷ xs) (suc i) (suc j) a b le h g =
      Perm.cons x (set-set-Perm xs i j a b (omega arith) h g)

  swap-Perm :
      (xs : List A) (i j : ℕ)
      → i ≤ j
      → j < length xs
      → (ys : List A) × (swap xs i j ≡ some ys) × (length ys ≡ length xs) × Perm xs ys
  unfolding swap
  swap-Perm xs i j le h =
      let (a, ha) = get_elem?-some_of_lt xs i (omega arith) in
      let (b, hb) = get_elem?-some_of_lt xs j h in
      (
        set (set xs i b) j a,
        rw (ha, hb) refl,
        length-set (set xs i b) j a ∙ length-set xs i b,
        set-set-Perm xs i j a b le ha hb,
      )

length-range : (start n : ℕ) → length (range start n) ≡ n
length-range start zero = refl
length-range start (suc n) = ap suc (length-range (suc start) n)

mod_lt : (a n : ℕ) → 0 < n → a % n < n
mod_lt a n h = omega arith

draw_bounds : (i len rounds seed : ℕ) → i + suc rounds ≤ len → i + seed % (len - i) < len
draw_bounds i len rounds seed h = omega (arith, mod_lt seed (len - i) (omega arith))

shuffle_rounds-Perm :
    (rounds i len seed : ℕ) (xs : List ℕ)
    → i + rounds ≤ len
    → length xs ≡ len
    → (ys : List ℕ) × (shuffle_rounds rounds i len seed xs ≡ some ys)
      × (length ys ≡ len)
      × Perm xs ys
unfolding shuffle_rounds
shuffle_rounds-Perm zero i len seed xs h long = (xs, refl, long, Perm.refl xs)
shuffle_rounds-Perm (suc rounds) i len seed xs h long =
    let next = xorshift64_star seed in
    let small = draw_bounds i len rounds next h in
    let (ys, swapped, same, perm) =
      swap-Perm xs i (i + next % (len - i)) (omega arith)
        (subst (λ n. ◌<◌ (i + next % (len - i)) n) (sym long) small) in
    let (zs, done, long', perm') =
      shuffle_rounds-Perm rounds (suc i) len next ys (omega arith) (same ∙ long) in
    (zs, rw swapped done, long', Perm.trans perm perm')

-- A draw does not panic. It has `count` indices, or all of them if that is fewer, and together with
-- some further indices they are the numbers below `len`, each once.
pub shuffle_indices-Perm :
    (len count seed : ℕ)
    → (drawn rest : List ℕ) × (shuffle_indices len count seed ≡ some drawn)
      × (length drawn ≡ min count len)
      × Perm (range 0 len) (drawn ++ rest)
unfolding shuffle_indices
shuffle_indices-Perm zero count seed = ([], [], refl, omega arith, Perm.nil)
shuffle_indices-Perm (suc n) zero seed =
    ([], range 0 (suc n), refl, omega arith, Perm.refl (range 0 (suc n)))
shuffle_indices-Perm (suc n) (suc m) seed =
    let count = min (suc m) (suc n) in
    let (ys, done, long, perm) =
      shuffle_rounds-Perm count 0 (suc n) (if seed == 0 then 11400714819323198485 else seed)
        (range 0 (suc n)) (omega arith) (length-range 0 (suc n)) in
    (
      take count ys,
      drop count ys,
      rw done refl,
      omega (arith, length-take count ys),
      subst (Perm (range 0 (suc n))) (sym (take-drop count ys)) perm,
    )

-- A target that no quorum counts.
abbrev pub IsNoise : EgressTarget → Type 0
IsNoise target = target.quorum ≡ false

All-get :
    (P : EgressTarget → Type 0) (xs : List EgressTarget) (i : ℕ) {x : EgressTarget}
    → All P xs
    → get_elem? xs i ≡ some x
    → P x
All-get P [] i all h = cc
All-get P (y ∷ xs) zero (p, ps) h = subst P (cc) p
All-get P (y ∷ xs) (suc i) (p, ps) h = All-get P xs i ps h

pick-All :
    (P : EgressTarget → Type 0) (sites : List EgressTarget) (indices : List ℕ)
    (picked : List EgressTarget)
    → All P sites
    → pick sites indices ≡ some picked
    → All P picked
unfolding pick
pick-All P sites [] picked all h = let same : [] ≡ picked = cc in subst (All P) same tt
pick-All P sites (i ∷ indices) picked all h =
    let (site, at, g) = >>=-eq-some (get_elem? sites i) _ h in
    let (rest, picks, e) = >>=-eq-some (pick sites indices) _ g in
    let same : site ∷ rest ≡ picked = cc in
    subst (All P) same (All-get P sites i all at, pick-All P sites indices rest all picks)

count_quorum-noise :
    (targets : List EgressTarget) (checks : List TargetCheck)
    → All IsNoise targets
    → count_quorum targets checks ≡ 0
unfolding count_quorum
count_quorum-noise [] checks all = refl
count_quorum-noise (target ∷ targets) [] all = refl
count_quorum-noise (target ∷ targets) (check ∷ checks) (noise, all) =
    rw noise (count_quorum-noise targets checks all)

count_quorum-append :
    (targets more : List EgressTarget) (checks : List TargetCheck)
    → All IsNoise more
    → count_quorum (targets ++ more) checks ≡ count_quorum targets (take (length targets) checks)
unfolding count_quorum
count_quorum-append [] more checks all = count_quorum-noise more checks all
count_quorum-append (target ∷ targets) more [] all = refl
count_quorum-append (target ∷ targets) more (check ∷ checks) all =
    rw (count_quorum-append targets more checks all) refl

-- Real sites never count: where no real site of the configuration is marked as one of the quorum,
-- the quorum that any checks of the sampled targets reach is the one that the checks of the operators, which come first, reach alone.
pub sample_targets-noise :
    (cfg : ScatterConfig) (seed : ℕ) (work : List EgressTarget) (checks : List TargetCheck)
    → All IsNoise cfg.real_sites
    → sample_targets cfg seed ≡ some work
    → (report_of cfg work checks).quorum_verified
      ≡ count_quorum cfg.operators (take (length cfg.operators) checks)
unfolding sample_targets sample_sites report_of
sample_targets-noise cfg seed work checks all h =
    let (sample, drawn, e) = >>=-eq-some (sample_sites cfg.real_sites cfg.real_count seed) _ h in
    let (indices, _, picks) =
      >>=-eq-some (shuffle_indices (length cfg.real_sites) cfg.real_count seed) _ drawn in
    let same : cfg.operators ++ sample ≡ work = cc in
    subst
      (λ w. count_quorum w checks ≡ count_quorum cfg.operators (take (length cfg.operators) checks))
      same
      (count_quorum-append cfg.operators sample checks
        (pick-All IsNoise cfg.real_sites indices sample all picks))
