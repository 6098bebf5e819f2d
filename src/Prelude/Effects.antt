-- ===== src/Prelude/Effects.antt =====
-- A fallible action on a state. As in Rust, what an action wrote before it failed stays written:
-- the state comes back with the error too.
use Prim.Native.String.{String}
use mathlib.Core.Path.{◌≡◌, refl}
use mathlib.Core.Logic.{◌⊎◌, inl, inr}
use yarisugi.Prelude.Results.{Result, ok, err}

abbrev pub Action : Type 0 → Type 0 → Type 0
Action S A = S → Result A × S

-- The rest of the action runs on the state that the first part left, if that succeeded.
abbrev pub continue {ℓ} :
    {S A : Type 0} {C : Type ℓ} → Result A × S → (A → S → C) → (String → S → C) → C
continue (ok a, s) f g = f a s
continue (err e, s) f g = g e s

infixl 5 ◌>>=◌ ◌>>◌
abbrev pub ◌>>=◌ : {S A B : Type 0} → Action S A → (A → Action S B) → Action S B
◌>>=◌ m f s = continue (m s) f (λ e s'. (err e, s'))

abbrev pub ◌>>◌ : {S B : Type 0} → Action S (Unit {0}) → Action S B → Action S B
m >> k = m >>= λ _. k

abbrev pub return : {S A : Type 0} → A → Action S A
return a s = (ok a, s)

-- A computation that touches no state.
abbrev pub lift : {S A : Type 0} → Result A → Action S A
lift r s = (r, s)

abbrev pub modify : {S : Type 0} → (S → S) → Action S (Unit {0})
modify f s = (ok tt, f s)

-- `if let Err(error) = m { cleanup; return Err(error) }`
abbrev pub on_error : {S A : Type 0} → Action S A → (S → S) → Action S A
on_error m cleanup s = continue (m s) (λ a s'. (ok a, s')) (λ e s'. (err e, cleanup s'))

-- Inversion of a successful bind.
pub continue-eq-ok :
    {S A B : Type 0} (r : Result A × S) (f : A → S → Result B × S) {b : B} {s' : S}
    → continue r f (λ e s. (err e, s)) ≡ (ok b, s')
    → (a : A) × (s : S) × (r ≡ (ok a, s)) × (f a s ≡ (ok b, s'))
continue-eq-ok (ok a, s) f h = (a, s, refl, h)
continue-eq-ok (err e, s) f h = cc

-- Inversion of a failed bind: the first part failed, or it did not and the rest did.
pub continue-eq-err :
    {S A B : Type 0} (r : Result A × S) (f : A → S → Result B × S) {e : String} {s' : S}
    → continue r f (λ e s. (err e, s)) ≡ (err e, s')
    → (r ≡ (err e, s')) ⊎ ((a : A) × (s : S) × (r ≡ (ok a, s)) × (f a s ≡ (err e, s')))
continue-eq-err (ok a, s) f h = inr (a, s, refl, h)
continue-eq-err (err e, s) f h = inl (cc)
