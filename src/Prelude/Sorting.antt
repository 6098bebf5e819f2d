-- ===== src/Prelude/Sorting.antt =====
-- `slice::sort_by` and its unstable form, by an order that can panic: an insertion sort stands for
-- them. A sorted permutation is what both forms promise of a total order; of another one they may
-- panic, so that each use is of an order that is total: numbers and texts, or costs by `FloatLaws`.
use Prim.Native.Nat.{ℕ, compare, Ordering}
use Prim.Native.String.{String, compare as compare_text, then}
use Prim.Native.String.compare as compare_clauses
use Prim.Native.Char.{code}
use mathlib.Core.List.Perm
use mathlib.Core.List.{List, [], ◌∷◌, Perm}
use mathlib.Core.Logic.{◌≢◌, ◌⊎◌, inl, inr}
use mathlib.Core.Option.{Option, some}
use mathlib.Core.Path.{◌≡◌, refl}
use native.Mathlib.Omega.{arith}
use yarisugi.Prelude.Lists.{All}
use yarisugi.Prelude.Panics.{◌>>=◌}

-- `Ordering::reverse`, and `Ordering::then_with` on a computed second answer.
abbrev pub flip : Ordering → Ordering
flip Ordering.lt = Ordering.gt
flip Ordering.eq = Ordering.eq
flip Ordering.gt = Ordering.lt

abbrev pub then_with : Ordering → Ordering → Ordering
then_with Ordering.lt o = Ordering.lt
then_with Ordering.eq o = o
then_with Ordering.gt o = Ordering.gt

pub compare-flip : (a b : ℕ) → compare a b ≡ flip (compare b a)
compare-flip a b = ground arith

pub then_with-flip :
    (a b a' b' : Ordering) → a ≡ flip a' → b ≡ flip b' → then_with a b ≡ flip (then_with a' b')
then_with-flip a b Ordering.lt b' h g = rw h refl
then_with-flip a b Ordering.eq b' h g = rw h g
then_with-flip a b Ordering.gt b' h g = rw h refl

then-flip : (a b : Ordering) → then (flip a) (flip b) ≡ flip (then a b)
then-flip Ordering.lt b = refl
then-flip Ordering.eq b = refl
then-flip Ordering.gt b = refl

pub compare_text-flip : (s t : String) → compare_text s t ≡ flip (compare_text t s)
compare_text-flip String.[] String.[] = refl
compare_text-flip String.[] (String.◌∷◌ d t) =
    rw (compare_clauses.nil-cons d t, compare_clauses.cons-nil d t) refl
compare_text-flip (String.◌∷◌ c s) String.[] =
    rw (compare_clauses.nil-cons c s, compare_clauses.cons-nil c s) refl
compare_text-flip (String.◌∷◌ c s) (String.◌∷◌ d t) =
    rw
      (
        compare_clauses.cons-cons c d s t,
        compare_clauses.cons-cons d c t s,
        compare_text-flip s t,
        compare-flip (code c) (code d),
      )
      (then-flip (compare (code d) (code c)) (compare_text t s))

pub Ordering-cases : (o : Ordering) → (o ≡ Ordering.gt) ⊎ ((o ≡ Ordering.lt) ⊎ (o ≡ Ordering.eq))
Ordering-cases Ordering.lt = inr (inl refl)
Ordering-cases Ordering.eq = inr (inr refl)
Ordering-cases Ordering.gt = inl refl

module _ {ℓ} {A : Type ℓ} where
  unfoldable pub insert_by : (A → A → Option Ordering) → A → List A → Option (List A)
  insert_by cmp x [] = some (x ∷ [])
  insert_by cmp x (y ∷ ys) = do
    o ← cmp x y
    elim o [ Ordering.gt ↦ (do rest ← insert_by cmp x ys; some (y ∷ rest)) | _ ↦ some (x ∷ y ∷ ys) ]

  unfoldable pub sort_by : (A → A → Option Ordering) → List A → Option (List A)
  unfolding insert_by
  sort_by cmp [] = some []
  sort_by cmp (x ∷ xs) = do sorted ← sort_by cmp xs; insert_by cmp x sorted

  -- The value is not greater than the first entry.
  abbrev pub Leads : (A → A → Ordering) → A → List A → Type 0
  Leads cmp x [] = Unit {0}
  Leads cmp x (y ∷ ys) = cmp x y ≢ Ordering.gt

  -- No entry is greater than the next.
  abbrev pub IsSorted : (A → A → Ordering) → List A → Type 0
  IsSorted cmp [] = Unit {0}
  IsSorted cmp (x ∷ xs) = Leads cmp x xs × IsSorted cmp xs

-- The first entry of the list is not greater than any other.
abbrev pub IsFirstLeast {ℓ} : {A : Type ℓ} → (A → A → Ordering) → List A → Type 0
IsFirstLeast c [] = Unit {0}
IsFirstLeast c (x ∷ xs) = All (λ y. c x y ≢ Ordering.gt) xs

-- In a sorted list of a transitive order the first entry is not greater than any other.
module _ {ℓ} {A : Type ℓ} (c : A → A → Ordering)
    (trans : (x y z : A) → c x y ≢ Ordering.gt → c y z ≢ Ordering.gt → c x z ≢ Ordering.gt) where
  Leads-All :
      (x : A) (ys : List A) → Leads c x ys → IsSorted c ys → All (λ y. c x y ≢ Ordering.gt) ys
  Leads-All x [] leads sorted = tt
  Leads-All x (y ∷ ys) leads (next, sorted) = (leads, Leads-All x ys (further ys next) sorted)
    where
      further : (zs : List A) → Leads c y zs → Leads c x zs
      further [] next = tt
      further (z ∷ zs) next = trans x y z leads next

  pub IsSorted-IsFirstLeast : (xs : List A) → IsSorted c xs → IsFirstLeast c xs
  IsSorted-IsFirstLeast [] sorted = tt
  IsSorted-IsFirstLeast (x ∷ xs) (leads, sorted) = Leads-All x xs leads sorted

-- An order that does not panic on what `P` holds of, and that reverses with its arguments.
module _ {ℓ κ} {A : Type ℓ} (P : A → Type κ) (cmp : A → A → Option Ordering) (c : A → A → Ordering)
    (agrees : (x y : A) → P x → P y → cmp x y ≡ some (c x y))
    (flips : (x y : A) → c x y ≡ flip (c y x)) where
  insert_by-IsSorted :
      (x : A) (ys : List A)
      → P x
      → All P ys
      → IsSorted c ys
      → (r : List A) × (insert_by cmp x ys ≡ some r)
        × Perm (x ∷ ys) r
        × All P r
        × IsSorted c r
        × ((z : A) → c z x ≢ Ordering.gt → Leads c z ys → Leads c z r)
  unfolding insert_by
  insert_by-IsSorted x [] px pys s =
      (x ∷ [], refl, Perm.refl (x ∷ []), (px, tt), (tt, tt), λ z h l. h)
  insert_by-IsSorted x (y ∷ ys) px (py, pys) (leads, s) = elim (Ordering-cases (c x y)) [
    | inl greater ↦
        let (r, done, perm, pr, sr, below) = insert_by-IsSorted x ys px pys s in
        (
          y ∷ r,
          rw (agrees x y px py, greater, done) refl,
          Perm.trans (Perm.swap y x ys) (Perm.cons y perm),
          (py, pr),
          (below y (λ e. ground (arith, flips y x)) leads, sr),
          λ z h l. l,
        )
    | inr (inl less) ↦ (
      x ∷ y ∷ ys,
      rw (agrees x y px py, less) refl,
      Perm.refl (x ∷ y ∷ ys),
      (px, (py, pys)),
      (λ e. cc, (leads, s)),
      λ z h l. h,
    )
    | inr (inr equal) ↦ (
      x ∷ y ∷ ys,
      rw (agrees x y px py, equal) refl,
      Perm.refl (x ∷ y ∷ ys),
      (px, (py, pys)),
      (λ e. cc, (leads, s)),
      λ z h l. h,
    )
  ]

  -- The sort does not panic, and gives a sorted permutation.
  pub sort_by-IsSorted :
      (xs : List A)
      → All P xs
      → (r : List A) × (sort_by cmp xs ≡ some r) × Perm xs r × All P r × IsSorted c r
  unfolding sort_by
  sort_by-IsSorted [] p = ([], refl, Perm.nil, tt, tt)
  sort_by-IsSorted (x ∷ xs) (px, p) =
      let (r, done, perm, pr, sr) = sort_by-IsSorted xs p in
      let (r', done', perm', pr', sr', _) = insert_by-IsSorted x r px pr sr in
      (r', rw (done, done') refl, Perm.trans (Perm.cons x perm) perm', pr', sr')
