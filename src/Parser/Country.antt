-- ===== src/Parser/Country.antt =====
-- crates/parser/src/metadata.rs: the country code of a label. A text is the list of its code points.
use Prim.Native.Char.{code}
use yarisugi.Prelude.{
  ℕ, ◌+◌, ◌-◌, ◌/◌, ◌%◌, Bool, true, false, ◌&&◌, ◌||◌, List, [], ◌∷◌, ◌++◌, map, Option, none,
  some, String, ltb, leb, ◌==◌, if◌then◌else◌, length,
}
use yarisugi.Ir.Hosts.{Text, lower}
use yarisugi.Ir.Node.{is_ascii_uppercase}

-- `str::chars`, as code points.
abbrev pub chars : String → Text
chars String.[] = []
chars (String.◌∷◌ c s) = code c ∷ chars s

-- One code point in UTF-8.
abbrev pub utf8 : ℕ → List ℕ
utf8 c =
    if ltb c 128
    then c ∷ []
    else if ltb c 2048
    then (192 + c / 64) ∷ (128 + c % 64) ∷ []
    else if ltb c 65536
    then (224 + c / 4096) ∷ (128 + c / 64 % 64) ∷ (128 + c % 64) ∷ []
    else (240 + c / 262144) ∷ (128 + c / 4096 % 64) ∷ (128 + c / 64 % 64) ∷ (128 + c % 64) ∷ []

-- `str::as_bytes`
abbrev pub as_bytes : Text → List ℕ
as_bytes [] = []
as_bytes (c ∷ cs) = utf8 c ++ as_bytes cs

unfoldable pub country_keywords : List (String × (ℕ × ℕ))
country_keywords =
    ("tokyo", (b'J', b'P'))
    ∷ ("osaka", (b'J', b'P'))
    ∷ ("japan", (b'J', b'P'))
    ∷ ("hong kong", (b'H', b'K'))
    ∷ ("taiwan", (b'T', b'W'))
    ∷ ("taipei", (b'T', b'W'))
    ∷ ("singapore", (b'S', b'G'))
    ∷ ("korea", (b'K', b'R'))
    ∷ ("seoul", (b'K', b'R'))
    ∷ ("frankfurt", (b'D', b'E'))
    ∷ ("germany", (b'D', b'E'))
    ∷ ("deutschland", (b'D', b'E'))
    ∷ ("amsterdam", (b'N', b'L'))
    ∷ ("netherlands", (b'N', b'L'))
    ∷ ("paris", (b'F', b'R'))
    ∷ ("france", (b'F', b'R'))
    ∷ ("london", (b'G', b'B'))
    ∷ ("united kingdom", (b'G', b'B'))
    ∷ ("new york", (b'U', b'S'))
    ∷ ("los angeles", (b'U', b'S'))
    ∷ ("chicago", (b'U', b'S'))
    ∷ ("seattle", (b'U', b'S'))
    ∷ ("dallas", (b'U', b'S'))
    ∷ ("san jose", (b'U', b'S'))
    ∷ ("united states", (b'U', b'S'))
    ∷ ("usa", (b'U', b'S'))
    ∷ ("sydney", (b'A', b'U'))
    ∷ ("australia", (b'A', b'U'))
    ∷ ("bangkok", (b'T', b'H'))
    ∷ ("thailand", (b'T', b'H'))
    ∷ ("vietnam", (b'V', b'N'))
    ∷ ("hanoi", (b'V', b'N'))
    ∷ ("ho chi minh", (b'V', b'N'))
    ∷ ("moscow", (b'R', b'U'))
    ∷ ("russia", (b'R', b'U'))
    ∷ ("mumbai", (b'I', b'N'))
    ∷ ("india", (b'I', b'N'))
    ∷ ("dubai", (b'A', b'E'))
    ∷ ("istanbul", (b'T', b'R'))
    ∷ ("turkey", (b'T', b'R'))
    ∷ ("madrid", (b'E', b'S'))
    ∷ ("spain", (b'E', b'S'))
    ∷ ("helsinki", (b'F', b'I'))
    ∷ ("finland", (b'F', b'I'))
    ∷ ("stockholm", (b'S', b'E'))
    ∷ ("sweden", (b'S', b'E'))
    ∷ ("oslo", (b'N', b'O'))
    ∷ ("norway", (b'N', b'O'))
    ∷ ("copenhagen", (b'D', b'K'))
    ∷ ("denmark", (b'D', b'K'))
    ∷ ("warsaw", (b'P', b'L'))
    ∷ ("poland", (b'P', b'L'))
    ∷ ("prague", (b'C', b'Z'))
    ∷ ("toronto", (b'C', b'A'))
    ∷ ("vancouver", (b'C', b'A'))
    ∷ ("montreal", (b'C', b'A'))
    ∷ ("canada", (b'C', b'A'))
    ∷ ("sao paulo", (b'B', b'R'))
    ∷ ("brazil", (b'B', b'R'))
    ∷ ("chile", (b'C', b'L'))
    ∷ ("argentina", (b'A', b'R'))
    ∷ ("kuala lumpur", (b'M', b'Y'))
    ∷ ("malaysia", (b'M', b'Y'))
    ∷ ("jakarta", (b'I', b'D'))
    ∷ ("indonesia", (b'I', b'D'))
    ∷ ("manila", (b'P', b'H'))
    ∷ ("philippines", (b'P', b'H'))
    ∷ []

-- The letters of the regional indicators, in order.
unfoldable pub indicators : Text → List ℕ
indicators [] = []
indicators (c ∷ cs) =
    let rest = indicators cs in
    if leb 127462 c && leb c 127487 then (b'A' + (c - 127462)) ∷ rest else rest

abbrev pub first_two : List ℕ → Option (ℕ × ℕ)
first_two (a ∷ b ∷ rest) = some (a, b)
first_two _ = none

unfoldable pub emoji_code : Text → Option (ℕ × ℕ)
unfolding indicators
emoji_code label = first_two (indicators label)

-- `b'[' => b']', b'(' => b')'`
abbrev pub close_byte : ℕ → Option ℕ
close_byte byte = if byte == b'[' then some b']' else if byte == b'(' then some b')' else none

-- What stands before the byte, if it is there.
abbrev pub before : ℕ → List ℕ → Option (List ℕ)
before close [] = none
before close (b ∷ bs) =
    let rest = before close bs in
    if b == close then some [] else elim rest [ none ↦ none | some r ↦ some (b ∷ r) ]

-- `candidate.len() == 2 && candidate.iter().all(u8::is_ascii_uppercase)`
unfoldable pub tag_of : Option (List ℕ) → Option (ℕ × ℕ)
unfolding is_ascii_uppercase
tag_of (some (a ∷ b ∷ [])) =
    if is_ascii_uppercase a && is_ascii_uppercase b then some (a, b) else none
tag_of _ = none

-- The tag that an opening byte starts, with the bytes behind it.
unfoldable pub tag_at : Option ℕ → List ℕ → Option (ℕ × ℕ)
unfolding tag_of
tag_at none rest = none
tag_at (some close) rest = if ltb 6 (length rest) then none else tag_of (before close rest)

unfoldable pub bracket_bytes : List ℕ → Option (ℕ × ℕ)
unfolding tag_at
bracket_bytes [] = none
bracket_bytes (b ∷ bs) =
    let later = bracket_bytes bs in
    elim (tag_at (close_byte b) bs) [ some tag ↦ some tag | none ↦ later ]

unfoldable pub bracket_code : Text → Option (ℕ × ℕ)
unfolding bracket_bytes
bracket_code label = bracket_bytes (as_bytes label)

abbrev pub starts_with : Text → Text → Bool
starts_with cs [] = true
starts_with [] (k ∷ ks) = false
starts_with (c ∷ cs) (k ∷ ks) = let rest = starts_with cs ks in if c == k then rest else false

abbrev pub contains : Text → Text → Bool
contains [] keyword = starts_with [] keyword
contains (c ∷ cs) keyword = starts_with (c ∷ cs) keyword || contains cs keyword

unfoldable pub keyword_code : Text → List (String × (ℕ × ℕ)) → ℕ × ℕ
keyword_code lowered [] = (b'U', b'N')
keyword_code lowered ((keyword, found) ∷ keywords) =
    let rest = keyword_code lowered keywords in
    if contains lowered (chars keyword) then found else rest

unfoldable pub extract_country_code : Text → ℕ × ℕ
unfolding emoji_code bracket_code keyword_code country_keywords
extract_country_code label = elim (emoji_code label) [
  | some found ↦ found
  | none ↦ elim (bracket_code label) [
    | some found ↦ found
    | none ↦ keyword_code (map lower label) country_keywords
  ]
]
