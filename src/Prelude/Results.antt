-- ===== src/Prelude/Results.antt =====
-- `anyhow::Result`: a value, or an error with the message that `to_string` gives.
use Prim.Native.String.{String}
use mathlib.Core.Path.{◌≡◌, refl}
use mathlib.Core.Bool.{Bool, true, false}

pub data Result {κ} (T : Type κ) : Type κ where
  err : String → Result T
  ok : T → Result T

abbrev pub is_ok {κ} : {T : Type κ} → Result T → Bool
is_ok (err message) = false
is_ok (ok value) = true

-- What `?` does with a result: the rest runs on its value, and its error is the error of the whole.
infixl 5 ◌>>=◌
abbrev pub ◌>>=◌ {κ μ} : {T : Type κ} {U : Type μ} → Result T → (T → Result U) → Result U
err message >>= rest = err message
ok value >>= rest = rest value

infixl 5 ◌>>◌
abbrev pub ◌>>◌ {μ} : {U : Type μ} → Result (Unit {0}) → Result U → Result U
first >> rest = first >>= λ done. rest

-- `if test { bail!(message) }`
abbrev pub bail_if : Bool → String → Result (Unit {0})
bail_if test message = elim test [ false ↦ ok tt | true ↦ err message ]

-- A chain that succeeds has a first part that succeeds.
pub >>=-eq-ok {κ μ} :
    {T : Type κ} {U : Type μ} (first : Result T) (rest : T → Result U) {u : U}
    → (first >>= rest) ≡ ok u
    → (t : T) × (first ≡ ok t) × (rest t ≡ ok u)
>>=-eq-ok (err message) rest h = cc
>>=-eq-ok (ok value) rest h = (value, refl, h)
