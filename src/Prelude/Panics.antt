-- ===== src/Prelude/Panics.antt =====
-- Code that can panic: `none` is the panic. Indexing and slicing as in Rust.
use Prim.Native.Nat.{ℕ, ◌+◌, ◌-◌, ◌<◌}
use mathlib.Core.Bool.{true, ◌&&◌}
use mathlib.Core.List.{List, ◌++◌}
use mathlib.Core.Option.{Option, none, some}
use mathlib.Core.Path.{◌≡◌, refl}
use native.Mathlib.Omega.{arith}
use yarisugi.Prelude.Lists.{
  length, set, take, drop, length-append, take-length-append, drop-length-append,
}
use yarisugi.Prelude.Tests.{ltb, leb, if◌then◌else◌}

infixl 5 ◌>>=◌
abbrev pub ◌>>=◌ {ℓ κ} : {A : Type ℓ} {B : Type κ} → Option A → (A → Option B) → Option B
none >>= f = none
some a >>= f = f a

-- A chain that does not panic has a first part that does not.
pub >>=-eq-some {ℓ κ} :
    {A : Type ℓ} {B : Type κ} (first : Option A) (rest : A → Option B) {b : B}
    → (first >>= rest) ≡ some b
    → (a : A) × (first ≡ some a) × (rest a ≡ some b)
>>=-eq-some none rest h = cc
>>=-eq-some (some a) rest h = (a, refl, h)

pub >>=-some {ℓ κ} :
    {A : Type ℓ} {B : Type κ} (first : Option A) (rest : A → Option B) {a : A} {b : B}
    → first ≡ some a
    → rest a ≡ some b
    → (first >>= rest) ≡ some b
>>=-some first rest h g = rw h g

module _ {ℓ} {A : Type ℓ} where
  -- `xs[i] = v`
  abbrev pub set_elem? : List A → ℕ → A → Option (List A)
  set_elem? xs i v = if ltb i (length xs) then some (set xs i v) else none

  -- `xs[start..end]`
  abbrev pub slice? : List A → ℕ → ℕ → Option (List A)
  slice? xs start end =
      if leb start end && leb end (length xs)
      then some (take (end - start) (drop start xs))
      else none

  pub set_elem?-some :
      (xs : List A) (i : ℕ) (v : A) → i < length xs → set_elem? xs i v ≡ some (set xs i v)
  set_elem?-some xs i v h = ground arith

  pub slice?-append_middle :
      (xs ys zs : List A) → slice? (xs ++ (ys ++ zs)) (length xs) (length xs + length ys) ≡ some ys
  slice?-append_middle xs ys zs =
      let long : length (xs ++ (ys ++ zs)) ≡ length xs + (length ys + length zs) =
        omega (arith, length-append xs (ys ++ zs), length-append ys zs) in
      let gap : length xs + length ys - length xs ≡ length ys = omega arith in
      let fits : (leb (length xs) (length xs + length ys)
            && leb (length xs + length ys) (length (xs ++ (ys ++ zs))))
          ≡ true =
        ground arith in
      rw (fits, gap, drop-length-append xs (ys ++ zs), take-length-append ys zs) refl
