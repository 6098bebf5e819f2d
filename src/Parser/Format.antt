-- ===== src/Parser/Format.antt =====
-- crates/parser/src/format.rs: schemes, containers, and bundles in Base64. The decoders of Base64 and
-- the parser of JSON are parameters.
use yarisugi.Prelude.{
  ℕ, ◌*◌, Bool, true, false, not, ◌&&◌, ◌||◌, List, [], ◌∷◌, keep_if, Option, none, some, Result,
  ok, err, ltb, leb, ◌==◌, if◌then◌else◌, length, map,
}
use yarisugi.Ir.Hosts.{
  Text, is_whitespace, lower, trim_start_matches, trim_end_matches, any, is_empty,
}
use yarisugi.Parser.Country.{chars, starts_with}

abbrev pub max_decoded_bytes : ℕ
max_decoded_bytes = 8 * 1024 * 1024

-- `u8::is_ascii_whitespace`
abbrev pub is_ascii_whitespace : ℕ → Bool
is_ascii_whitespace b = b == 32 || (b == 9 || (b == 10 || (b == 12 || b == 13)))

-- The first decoder that takes the input, with an output that is not too long.
unfoldable pub first_decoded : List (List ℕ → Option (List ℕ)) → List ℕ → Option (List ℕ)
first_decoded [] compact = none
first_decoded (decode ∷ engines) compact =
    let later = first_decoded engines compact in
    elim (decode compact) [
      | none ↦ later
      | some decoded ↦ if leb (length decoded) max_decoded_bytes then some decoded else later
    ]

unfoldable pub decode_bundle : List (List ℕ → Option (List ℕ)) → List ℕ → Result (List ℕ)
unfolding first_decoded
decode_bundle engines raw =
    let compact = keep_if (λ byte. not (is_ascii_whitespace byte)) raw in
    if length compact == 0 || ltb (max_decoded_bytes * 2) (length compact)
    then err "empty or oversized Base64 input"
    else elim (first_decoded engines compact) [
      | some decoded ↦ ok decoded
      | none ↦ err "unsupported alphabet, padding, or input length"
    ]

-- `u8::is_ascii_alphanumeric` or one of `+.-`
abbrev pub is_scheme_byte : ℕ → Bool
is_scheme_byte c =
    (leb b'0' c && leb c b'9')
    || ((leb b'A' c && leb c b'Z')
        || ((leb b'a' c && leb c b'z') || (c == b'+' || (c == b'.' || c == b'-'))))

-- `split_once(separator)`, the part before it.
abbrev pub split_before : Text → Text → Option Text
split_before separator [] = if starts_with [] separator then some [] else none
split_before separator (c ∷ cs) =
    let rest = split_before separator cs in
    if starts_with (c ∷ cs) separator
    then some []
    else elim rest [ none ↦ none | some before ↦ some (c ∷ before) ]

abbrev pub valid_scheme : Text → Option Text
valid_scheme scheme =
    if is_empty scheme || any (λ c. not (is_scheme_byte c)) scheme then none else some scheme

unfoldable pub scheme_of : Text → Option Text
scheme_of entry = elim (split_before (chars "://") entry) [
  | none ↦ none
  | some scheme ↦ valid_scheme scheme
]

abbrev pub same_text : Text → Text → Bool
same_text [] [] = true
same_text [] (d ∷ ds) = false
same_text (c ∷ cs) [] = false
same_text (c ∷ cs) (d ∷ ds) = let rest = same_text cs ds in if c == d then rest else false

abbrev pub one_of : Text → List Text → Bool
one_of text [] = false
one_of text (t ∷ ts) = same_text text t || one_of text ts

unfoldable pub is_supported_scheme : Text → Bool
unfolding scheme_of
is_supported_scheme entry = elim (scheme_of entry) [
  | none ↦ false
  | some scheme ↦ one_of (map lower scheme) (
      chars "vless"
      ∷ chars "vmess"
      ∷ chars "trojan"
      ∷ chars "ss"
      ∷ chars "hysteria2"
      ∷ chars "hy2"
      ∷ chars "tuic"
      ∷ [])
]

abbrev pub trim : Text → Text
trim text = trim_end_matches is_whitespace (trim_start_matches is_whitespace text)

-- The first line goes on with the code point.
abbrev pub onto_first : ℕ → List Text → List Text
onto_first c [] = (c ∷ []) ∷ []
onto_first c (line ∷ lines) = (c ∷ line) ∷ lines

-- `str::lines`: a carriage return before a line feed is no part of the line, and the last line counts
-- only if it is not empty or ends with a line feed.
abbrev pub lines : Text → List Text
lines [] = []
lines (c ∷ []) = if c == 10 then [] ∷ [] else (c ∷ []) ∷ []
lines (c ∷ d ∷ cs) =
    let rest = lines (d ∷ cs) in
    if c == 10 then [] ∷ rest else if c == 13 && d == 10 then rest else onto_first c rest

abbrev pub any_line : (Text → Bool) → List Text → Bool
any_line p [] = false
any_line p (line ∷ rest) = p line || any_line p rest

pub data ContainerKind : Type 0 where
  clash_yaml : ContainerKind
  sing_box_json : ContainerKind

unfoldable pub looks_like_clash_yaml : Text → Bool
looks_like_clash_yaml text =
    any_line
      (λ line. one_of (trim line) (chars "proxies:" ∷ chars "proxy-groups:" ∷ chars "rules:" ∷ []))
      (lines text)

-- `has_bounds` parses the document and says whether it has inbounds or outbounds.
unfoldable pub looks_like_singbox_json : (Text → Bool) → Text → Bool
looks_like_singbox_json has_bounds text =
    starts_with (trim_start_matches is_whitespace text) (chars "{") && has_bounds text

unfoldable pub detect_container : (Text → Bool) → Text → Option ContainerKind
unfolding looks_like_clash_yaml looks_like_singbox_json
detect_container has_bounds text =
    if looks_like_clash_yaml text
    then some clash_yaml
    else if looks_like_singbox_json has_bounds text
    then some sing_box_json
    else none
