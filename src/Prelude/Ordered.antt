-- ===== src/Prelude/Ordered.antt =====
-- What the sorted lists of an order that composes are, and what sorting keeps.
use Prim.Native.Nat.{ℕ, zero, suc, compare, Ordering, min, ◌≤◌}
use mathlib.Core.List.{List, [], ◌∷◌, ◌++◌}
use mathlib.Core.Bool.{Bool, true}
use mathlib.Core.Logic.{◌≢◌, inl, inr}
use mathlib.Core.Option.{Option, some}
use mathlib.Core.Path.{◌≡◌, refl, ap}
use native.Mathlib.Omega.{arith}
use yarisugi.Prelude.Lists.{All, keep_if, length, take, drop}
use yarisugi.Prelude.Tests.{Bool-cases}
use yarisugi.Prelude.Panics.{>>=-eq-some}
use yarisugi.Prelude.Sorting.{insert_by, sort_by, IsSorted, Ordering-cases}

pub compare_iff : (a b : ℕ) → compare a b ≢ Ordering.gt → a ≤ b
compare_iff a b h = ground arith

module _ {ℓ} {A : Type ℓ} where
  pub take-drop : (n : ℕ) (xs : List A) → take n xs ++ drop n xs ≡ xs
  take-drop zero xs = refl
  take-drop (suc n) [] = refl
  take-drop (suc n) (x ∷ xs) = ap (◌∷◌ x) (take-drop n xs)

  pub length-take : (n : ℕ) (xs : List A) → length (take n xs) ≡ min n (length xs)
  length-take zero xs = omega arith
  length-take (suc n) [] = omega arith
  length-take (suc n) (x ∷ xs) = omega (arith, length-take n xs)

  pub All-map {κ μ} :
      (P : A → Type κ) (Q : A → Type μ) (xs : List A) → ((x : A) → P x → Q x) → All P xs → All Q xs
  All-map P Q [] f h = tt
  All-map P Q (x ∷ xs) f (p, ps) = (f x p, All-map P Q xs f ps)

  pub All-and {κ μ} :
      (P : A → Type κ) (Q : A → Type μ) (xs : List A)
      → All P xs
      → All Q xs
      → All (λ x. P x × Q x) xs
  All-and P Q [] h g = tt
  All-and P Q (x ∷ xs) (p, ps) (q, qs) = ((p, q), All-and P Q xs ps qs)

  pub All-take {κ} : (P : A → Type κ) (n : ℕ) (xs : List A) → All P xs → All P (take n xs)
  All-take P zero xs h = tt
  All-take P (suc n) [] h = tt
  All-take P (suc n) (x ∷ xs) (p, ps) = (p, All-take P n xs ps)

  pub All-drop {κ} : (P : A → Type κ) (n : ℕ) (xs : List A) → All P xs → All P (drop n xs)
  All-drop P zero xs h = h
  All-drop P (suc n) [] h = tt
  All-drop P (suc n) (x ∷ xs) (p, ps) = All-drop P n xs ps

  pub All-keep_if {κ} :
      (P : A → Type κ) (test : A → Bool) (xs : List A)
      → All P xs
      → All (λ x. (test x ≡ true) × P x) (keep_if test xs)
  All-keep_if P test [] h = tt
  All-keep_if P test (x ∷ xs) (p, ps) = elim (Bool-cases (test x)) [
    | inl yes_x ↦ rw (keep_if, yes_x) ((yes_x, p), All-keep_if P test xs ps)
    | inr no_x ↦ rw (keep_if, no_x) (All-keep_if P test xs ps)
  ]

  insert_by-length :
      (cmp : A → A → Option Ordering) (x : A) (xs : List A) {r : List A}
      → insert_by cmp x xs ≡ some r
      → length r ≡ suc (length xs)
  unfolding insert_by
  insert_by-length cmp x [] h = ap_length h
    where
      ap_length : {r : List A} → some (x ∷ []) ≡ some r → length r ≡ 1
      ap_length e = ground arith
  insert_by-length cmp x (y ∷ ys) h =
      let (o, e, g) = >>=-eq-some (cmp x y) _ h in
      elim (Ordering-cases o) [
        | inl greater ↦
            let (rest, done, same) = >>=-eq-some (insert_by cmp x ys) _ (rw greater at g) in
            ground (arith, insert_by-length cmp x ys done)
        | inr (inl less) ↦ ground arith
        | inr (inr equal) ↦ ground arith
      ]

  pub sort_by-length :
      (cmp : A → A → Option Ordering) (xs : List A) {r : List A}
      → sort_by cmp xs ≡ some r
      → length r ≡ length xs
  unfolding sort_by
  sort_by-length cmp [] h = ground arith
  sort_by-length cmp (x ∷ xs) h =
      let (sorted, done, g) = >>=-eq-some (sort_by cmp xs) _ h in
      omega (arith, insert_by-length cmp x sorted g, sort_by-length cmp xs done)

  pub All-unit : (xs : List A) → All (λ x. Unit {0}) xs
  All-unit [] = tt
  All-unit (x ∷ xs) = (tt, All-unit xs)

-- An order that composes.
module _ {ℓ} {A : Type ℓ} (c : A → A → Ordering)
    (composes : (x y z : A) → c x y ≢ Ordering.gt → c y z ≢ Ordering.gt → c x z ≢ Ordering.gt) where
  IsSorted-first : (x : A) (xs : List A) → IsSorted c (x ∷ xs) → All (λ y. c x y ≢ Ordering.gt) xs
  IsSorted-first x [] h = tt
  IsSorted-first x (y ∷ xs) (le, h) =
      (le, All-map _ _ xs (λ z g. composes x y z le g) (IsSorted-first y xs h))

  -- What is cut off is not below what is kept.
  pub IsSorted-split :
      (n : ℕ) (xs : List A)
      → IsSorted c xs
      → All (λ x. All (λ y. c x y ≢ Ordering.gt) (drop n xs)) (take n xs)
  IsSorted-split zero xs h = tt
  IsSorted-split (suc n) [] h = tt
  IsSorted-split (suc n) (x ∷ xs) (le, h) =
      (All-drop _ n xs (IsSorted-first x xs (le, h)), IsSorted-split n xs h)
