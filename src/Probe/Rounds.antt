-- ===== src/Probe/Rounds.antt =====
-- crates/probe/src/socket_health.rs, `collect_message`: when the walk over the attributes ends.
use yarisugi.Prelude.{
  ℕ, zero, suc, ◌+◌, ◌-◌, ◌≤◌, ◌<◌, ◌≡◌, refl, ap, ◌∙◌, ◌⊎◌, inl, inr, Bool, true, false, List, [],
  ◌∷◌, ◌++◌, Option, none, some, arith, ltb, ◌==◌, length, take, drop, if◌then◌else◌,
}
use mathlib.Core.List.{append_assoc}
use yarisugi.Prelude.Ordered.{take-drop}
use yarisugi.Probe.Attributes.{
  Step, done, onward, nlmsg_align, inet_diag_info, attribute_step, walk,
}

length-drop : (n : ℕ) (xs : List ℕ) → length (drop n xs) ≡ length xs - n
length-drop zero xs = omega arith
length-drop (suc n) [] = omega arith
length-drop (suc n) (x ∷ xs) = let rest = length-drop n xs in omega (arith, rest)

-- How the walk goes on: behind some bytes, at least one.
abbrev pub IsBehind : List ℕ → List ℕ → Type 0
IsBehind rest later = (length later < length rest) × ((before : List ℕ) × (before ++ later ≡ rest))

-- The rest of a payload starts with an attribute whose header gives it the length 0.
abbrev pub IsStuck : (ℕ → ℕ → ℕ) → List ℕ → Type 0
IsStuck from_ne_bytes (a ∷ b ∷ c ∷ d ∷ bytes) = from_ne_bytes a b ≡ 0
IsStuck from_ne_bytes _ = ⊥

-- An attribute of no length leaves the walk where it is; any other takes at least four bytes.
Moves : (ℕ → ℕ → ℕ) → List ℕ → Step → Type 0
Moves from_ne_bytes rest (done found) = Unit
Moves from_ne_bytes rest (onward later) =
    IsBehind rest later ⊎ (IsStuck from_ne_bytes rest × (later ≡ rest))

dropped-Moves :
    (from_ne_bytes : ℕ → ℕ → ℕ) (len a b c d : ℕ) (bytes : List ℕ)
    → from_ne_bytes a b ≡ len
    → Moves from_ne_bytes
        (a ∷ b ∷ c ∷ d ∷ bytes)
        (onward (drop (nlmsg_align len) (a ∷ b ∷ c ∷ d ∷ bytes)))
unfolding Moves nlmsg_align
dropped-Moves from_ne_bytes zero a b c d bytes h = inr (h, refl)
dropped-Moves from_ne_bytes (suc n) a b c d bytes h =
    let rest = a ∷ b ∷ c ∷ d ∷ bytes in
    let left = length-drop (nlmsg_align (suc n)) rest in
    inl
      (omega (arith, left), (take (nlmsg_align (suc n)) rest, take-drop (nlmsg_align (suc n)) rest))

if-Moves :
    (from_ne_bytes : ℕ → ℕ → ℕ) (rest : List ℕ) (test : Bool) (x y : Step)
    → Moves from_ne_bytes rest x
    → Moves from_ne_bytes rest y
    → Moves from_ne_bytes rest (if test then x else y)
if-Moves from_ne_bytes rest true x y h g = h
if-Moves from_ne_bytes rest false x y h g = g

module _ (from_ne_bytes : ℕ → ℕ → ℕ) where
  attribute_step-Moves :
      (rest : List ℕ) → Moves from_ne_bytes rest (attribute_step from_ne_bytes rest)
  unfolding attribute_step Moves
  attribute_step-Moves [] = tt
  attribute_step-Moves (a ∷ []) = tt
  attribute_step-Moves (a ∷ b ∷ []) = tt
  attribute_step-Moves (a ∷ b ∷ c ∷ []) = tt
  attribute_step-Moves (a ∷ b ∷ c ∷ d ∷ bytes) =
      let len = from_ne_bytes a b in
      let rest = a ∷ b ∷ c ∷ d ∷ bytes in
      let later = onward (drop (nlmsg_align len) rest) in
      let found = done (some (take (len - 4) bytes)) in
      let info = from_ne_bytes c d == inet_diag_info in
      if-Moves from_ne_bytes rest (ltb (length bytes) (len - 4)) (done none)
        (if info then found else later) tt
        (if-Moves from_ne_bytes rest info found later tt
          (dropped-Moves from_ne_bytes len a b c d bytes refl))

  -- The rest starts with an attribute of no length, which the walk does not get past.
  abbrev pub StaysAt : List ℕ → Type 0
  StaysAt rest = IsStuck from_ne_bytes rest × (attribute_step from_ne_bytes rest ≡ onward rest)

  -- The walk ends the same way in any number of rounds that is large enough, or it comes to an
  -- attribute of no length, and does not end.
  abbrev EndsOrSticks : ℕ → List ℕ → Type 0
  EndsOrSticks n rest =
      ((found : Option (List ℕ)) × ((m : ℕ) → n ≤ m → walk from_ne_bytes m rest ≡ some found))
      ⊎ (((before stuck : List ℕ) × (before ++ stuck ≡ rest) × StaysAt stuck)
          × ((m : ℕ) → walk from_ne_bytes m rest ≡ none))

  stays :
      (rest : List ℕ)
      → attribute_step from_ne_bytes rest ≡ onward rest
      → (m : ℕ) → walk from_ne_bytes m rest ≡ none
  unfolding walk
  stays rest h zero = refl
  stays rest h (suc m) = rw (walk, h) (stays rest h m)

  step-EndsOrSticks :
      (n : ℕ) (rest : List ℕ) (step : Step)
      → attribute_step from_ne_bytes rest ≡ step
      → Moves from_ne_bytes rest step
      → ((later : List ℕ) → length later < length rest → EndsOrSticks n later)
      → EndsOrSticks (suc n) rest
  unfolding walk Moves
  step-EndsOrSticks n rest (done found) h moves shorter = inl (found, ended)
    where
      ended : (m : ℕ) → suc n ≤ m → walk from_ne_bytes m rest ≡ some found
      ended zero le = ground arith
      ended (suc m) le = rw (walk, h) refl
  step-EndsOrSticks n rest (onward later) h (inr (stuck, same)) shorter =
      inr (([], rest, refl, (stuck, h ∙ ap onward same)), stays rest (h ∙ ap onward same))
  step-EndsOrSticks n rest (onward later) h (inl (less, (passed, behind))) shorter =
      elim (shorter later less) [
        | inl (found, ends) ↦ inl (found, λ m le. after found ends m le)
        | inr ((before, stuck, there, is), never) ↦ inr (
          (
            passed ++ before,
            stuck,
            append_assoc passed before stuck ∙ ap (λ xs. passed ++ xs) there ∙ behind,
            is,
          ),
          λ m. later_never never m,
        )
      ]
    where
      after :
          (found : Option (List ℕ))
          → ((m : ℕ) → n ≤ m → walk from_ne_bytes m later ≡ some found)
          → (m : ℕ) → suc n ≤ m
          → walk from_ne_bytes m rest ≡ some found
      after found ends zero le = ground arith
      after found ends (suc m) le = rw (walk, h) (ends m (omega (arith, le)))

      later_never :
          ((m : ℕ) → walk from_ne_bytes m later ≡ none) → (m : ℕ) → walk from_ne_bytes m rest ≡ none
      later_never never zero = refl
      later_never never (suc m) = rw (walk, h) (never m)

  ends_within : (n : ℕ) (rest : List ℕ) → length rest < n → EndsOrSticks n rest
  ends_within zero rest h = ground arith
  ends_within (suc n) rest h =
      step-EndsOrSticks n rest (attribute_step from_ne_bytes rest) refl (attribute_step-Moves rest)
        (λ later less. ends_within n later (omega (arith, h, less)))

  -- The walk over the attributes of a reply ends in one round more than there are bytes, and in the same
  -- way in any number of further rounds; or some rest of the reply starts with an attribute whose
  -- header gives it the length 0 and which the walk does not get past, and it does not end in any
  -- number of rounds.
  pub walk-ends :
      (rest : List ℕ)
      → ((found : Option (List ℕ)) × ((extra : ℕ)
            → walk from_ne_bytes (suc (length rest) + extra) rest ≡ some found))
        ⊎ (((before stuck : List ℕ) × (before ++ stuck ≡ rest) × StaysAt stuck)
            × ((rounds : ℕ) → walk from_ne_bytes rounds rest ≡ none))
  walk-ends rest = elim (ends_within (suc (length rest)) rest (omega arith)) [
    | inl (found, ends) ↦ inl (found, λ extra. ends (suc (length rest) + extra) (omega arith))
    | inr never ↦ inr never
  ]
