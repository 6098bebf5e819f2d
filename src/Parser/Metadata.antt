-- ===== src/Parser/Metadata.antt =====
-- crates/parser/src/metadata.rs and lib.rs: the metadata of a label can always be made.
use yarisugi.Prelude.{
  ℕ, ◌≡◌, refl, inl, inr, Bool, true, false, ◌&&◌, List, [], ◌∷◌, map, Option, none, some, String,
  arith, leb, ltb, length, All, Bool-cases, if◌then◌else◌,
}
use yarisugi.Ir.Hosts.{Text, lower}
use yarisugi.Ir.Node.{is_ascii_uppercase, new_metadata}
use yarisugi.Parser.Country.{
  chars, country_keywords, indicators, first_two, emoji_code, tag_of, tag_at, close_byte, before,
  bracket_bytes, as_bytes, bracket_code, contains, keyword_code, extract_country_code,
}
use yarisugi.Parser.Ingest.{make_metadata, parsed}

-- Two letters that `NodeMetadata::new` takes.
abbrev pub IsCode : ℕ × ℕ → Type 0
IsCode found = (is_ascii_uppercase found.0 && is_ascii_uppercase found.1) ≡ true

-- The answer is a code, if there is one.
abbrev MayBeCode : Option (ℕ × ℕ) → Type 0
MayBeCode none = Unit
MayBeCode (some found) = IsCode found

indicators-All : (label : Text) → All (λ a. is_ascii_uppercase a ≡ true) (indicators label)
unfolding indicators is_ascii_uppercase
indicators-All [] = tt
indicators-All (c ∷ cs) = elim (Bool-cases (leb 127462 c && leb c 127487)) [
  | inl flag ↦ rw (indicators, flag) (ground arith, indicators-All cs)
  | inr other ↦ rw (indicators, other) (indicators-All cs)
]

emoji_code-MayBeCode : (label : Text) → MayBeCode (emoji_code label)
unfolding emoji_code
emoji_code-MayBeCode label = two (indicators label) (indicators-All label)
  where
    two :
        (letters : List ℕ)
        → All (λ a. is_ascii_uppercase a ≡ true) letters
        → MayBeCode (first_two letters)
    two [] all = tt
    two (a ∷ []) all = tt
    two (a ∷ b ∷ rest) (p, (q, all)) = rw (p, q) refl

tag_of-MayBeCode : (candidate : Option (List ℕ)) → MayBeCode (tag_of candidate)
unfolding tag_of
tag_of-MayBeCode none = tt
tag_of-MayBeCode (some []) = tt
tag_of-MayBeCode (some (a ∷ [])) = tt
tag_of-MayBeCode (some (a ∷ b ∷ [])) = checked (is_ascii_uppercase a && is_ascii_uppercase b) refl
  where
    checked :
        (test : Bool)
        → (is_ascii_uppercase a && is_ascii_uppercase b) ≡ test
        → MayBeCode (if test then some (a, b) else none)
    checked true h = h
    checked false h = tt
tag_of-MayBeCode (some (a ∷ b ∷ c ∷ rest)) = tt

tag_at-MayBeCode : (close : Option ℕ) (rest : List ℕ) → MayBeCode (tag_at close rest)
unfolding tag_at
tag_at-MayBeCode none rest = tt
tag_at-MayBeCode (some close) rest = near (ltb 6 (length rest))
  where
    near : (far : Bool) → MayBeCode (if far then none else tag_of (before close rest))
    near true = tt
    near false = tag_of-MayBeCode (before close rest)

first-MayBeCode :
    (tag later : Option (ℕ × ℕ))
    → MayBeCode tag
    → MayBeCode later
    → MayBeCode (elim tag [ some t ↦ some t | none ↦ later ])
first-MayBeCode none later h g = g
first-MayBeCode (some t) later h g = h

bracket_bytes-MayBeCode : (bytes : List ℕ) → MayBeCode (bracket_bytes bytes)
unfolding bracket_bytes
bracket_bytes-MayBeCode [] = tt
bracket_bytes-MayBeCode (b ∷ bs) =
    first-MayBeCode (tag_at (close_byte b) bs) (bracket_bytes bs)
      (tag_at-MayBeCode (close_byte b) bs) (bracket_bytes-MayBeCode bs)

all_codes : List (String × (ℕ × ℕ)) → Bool
all_codes [] = true
all_codes ((keyword, found) ∷ keywords) =
    (is_ascii_uppercase found.0 && is_ascii_uppercase found.1) && all_codes keywords

table-all_codes : all_codes country_keywords ≡ true
unfolding all_codes country_keywords is_ascii_uppercase
table-all_codes = refl

both_true : (a b : Bool) → (a && b) ≡ true → (a ≡ true) × (b ≡ true)
both_true true true h = (refl, refl)
both_true true false h = cc
both_true false b h = cc

if-IsCode :
    (test : Bool) (found other : ℕ × ℕ)
    → IsCode found
    → IsCode other
    → IsCode (if test then found else other)
if-IsCode true found other h g = h
if-IsCode false found other h g = g

keyword_code-IsCode :
    (lowered : Text) (keywords : List (String × (ℕ × ℕ)))
    → all_codes keywords ≡ true
    → IsCode (keyword_code lowered keywords)
unfolding keyword_code is_ascii_uppercase all_codes
keyword_code-IsCode lowered [] h = refl
keyword_code-IsCode lowered ((keyword, found) ∷ keywords) h =
    let (first, others) = both_true _ _ h in
    if-IsCode (contains lowered (chars keyword)) found (keyword_code lowered keywords) first
      (keyword_code-IsCode lowered keywords others)

chosen-IsCode :
    (tag : Option (ℕ × ℕ)) (other : ℕ × ℕ)
    → MayBeCode tag
    → IsCode other
    → IsCode (elim tag [ some found ↦ found | none ↦ other ])
chosen-IsCode none other h g = g
chosen-IsCode (some found) other h g = h

extract_country_code-IsCode : (label : Text) → IsCode (extract_country_code label)
unfolding extract_country_code bracket_code
extract_country_code-IsCode label =
    chosen-IsCode (emoji_code label) _ (emoji_code-MayBeCode label) (
      chosen-IsCode (bracket_code label) _ (bracket_bytes-MayBeCode (as_bytes label))
        (keyword_code-IsCode (map lower label) country_keywords table-all_codes))

-- The metadata of every label can be made: whatever emoji, tags and names the label has, the code
-- that is found in it is two uppercase letters, so that no node is lost to its label, and the metadata
-- keeps the subscription, the label and the time.
pub make_metadata-ok :
    (sub_id : ℕ) (label : String) (import_timestamp : ℕ)
    → (found : ℕ × ℕ) × IsCode found
      × (make_metadata sub_id label import_timestamp
          ≡ parsed (record {
            sub_id = sub_id;
            label = label;
            country_code = found;
            import_timestamp = import_timestamp;
          }))
unfolding make_metadata new_metadata
make_metadata-ok sub_id label import_timestamp =
    let code = extract_country_code-IsCode (chars label) in
    (extract_country_code (chars label), code, rw code refl)
