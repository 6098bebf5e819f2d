-- ===== src/Prelude/Text.antt =====
-- Text as `format!` writes it: numbers in decimal and in hexadecimal, and `join`.
use Prim.Native.String.{String, ◌++◌}
use Prim.Native.Nat.{ℕ, zero, suc, ◌/◌, ◌%◌}
use mathlib.Core.List.{List, [], ◌∷◌}
use mathlib.Core.Bool.{true, false}
use yarisugi.Prelude.Lists.{get_elem?}
use yarisugi.Prelude.Tests.{ltb, unwrap_or}

-- The digits, in order.
abbrev pub digits : List String
digits =
    "0" ∷ "1" ∷ "2" ∷ "3" ∷ "4" ∷ "5" ∷ "6" ∷ "7" ∷ "8" ∷ "9" ∷ "a" ∷ "b" ∷ "c" ∷ "d" ∷ "e" ∷ "f"
    ∷ []

unfoldable pub digit : ℕ → String
digit n = unwrap_or (get_elem? digits n) ""

-- The digits of a number; a fuel above the number is enough, since each round divides it.
unfoldable pub print : ℕ → ℕ → ℕ → String
unfolding digit
print zero base n = ""
print (suc fuel) base n = elim (ltb n base) [
  | true ↦ digit n
  | false ↦ print fuel base (n / base) ++ digit (n % base)
]

-- `{}` and `{:#x}`
unfoldable pub to_string : ℕ → String
unfolding print
to_string n = print (suc n) 10 n

unfoldable pub to_hex : ℕ → String
unfolding print
to_hex n = "0x" ++ print (suc n) 16 n

unfoldable pub join : String → List String → String
join separator [] = ""
join separator (x ∷ []) = x
join separator (x ∷ y ∷ rest) = x ++ (separator ++ join separator (y ∷ rest))
