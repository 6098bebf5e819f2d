-- ===== src/Ir/Hosts.antt =====
-- crates/ir/src/lib.rs, `normalize_host`. A text is the list of its code points; the parser of
-- IP addresses is a parameter.
use yarisugi.Prelude.{
  ℕ, ◌+◌, ◌≡◌, refl, ap, inl, inr, Bool, true, false, ◌&&◌, ◌||◌, List, [], ◌∷◌, map, Result, ok,
  err, ltb, leb, ◌==◌, arith, if◌then◌else◌, Bool-cases,
}

abbrev pub Text : Type 0
Text = List ℕ

-- `char::is_whitespace`: the property White_Space of Unicode.
unfoldable pub is_whitespace : ℕ → Bool
is_whitespace c =
    (leb 9 c && leb c 13)
    || (c == 32
        || (c == 133
            || (c == 160
                || (c == 5760
                    || ((leb 8192 c && leb c 8202)
                        || (c == 8232
                            || (c == 8233 || (c == 8239 || (c == 8287 || c == 12288)))))))))

abbrev pub is_dot : ℕ → Bool
is_dot c = c == b'.'

-- `to_ascii_lowercase` on one code point.
unfoldable pub lower : ℕ → ℕ
lower c = if leb b'A' c && leb c b'Z' then c + 32 else c

abbrev pub trim_start_matches : (ℕ → Bool) → Text → Text
trim_start_matches p [] = []
trim_start_matches p (c ∷ cs) = let rest = trim_start_matches p cs in if p c then rest else c ∷ cs

-- The code point goes too if nothing is left behind it.
abbrev pub keep_before : (ℕ → Bool) → ℕ → Text → Text
keep_before p c [] = if p c then [] else c ∷ []
keep_before p c (d ∷ ds) = c ∷ d ∷ ds

abbrev pub trim_end_matches : (ℕ → Bool) → Text → Text
trim_end_matches p [] = []
trim_end_matches p (c ∷ cs) = keep_before p c (trim_end_matches p cs)

abbrev pub any : (ℕ → Bool) → Text → Bool
any p [] = false
any p (c ∷ cs) = p c || any p cs

abbrev pub is_empty : Text → Bool
is_empty [] = true
is_empty (c ∷ cs) = false

-- `str::len`, in bytes of UTF-8.
abbrev pub utf8_len : ℕ → ℕ
utf8_len c = if ltb c 128 then 1 else if ltb c 2048 then 2 else if ltb c 65536 then 3 else 4

abbrev pub byte_len : Text → ℕ
byte_len [] = 0
byte_len (c ∷ cs) = utf8_len c + byte_len cs

-- The text that `normalize_host` looks at.
unfoldable pub cleaned : Text → Text
cleaned host = map lower (
    trim_end_matches is_dot
      (trim_end_matches is_whitespace (trim_start_matches is_whitespace host)))

unfoldable pub is_malformed : Text → Bool
is_malformed host =
    is_empty host
    || (ltb 253 (byte_len host) || (any (λ c. c == b'/') host || any is_whitespace host))

module _ (is_ip_address : Text → Bool) where
  -- The checks on the cleaned text.
  unfoldable pub accept : Text → Result Text
  unfolding is_malformed
  accept host =
      if is_malformed host
      then err "invalid endpoint hostname"
      else if is_ip_address host
      then err "IP addresses must use EndpointTarget::Ip"
      else ok host

  unfoldable pub normalize_host : Text → Result Text
  unfolding cleaned accept
  normalize_host host = accept (cleaned host)

trim_start-absent : (p : ℕ → Bool) (cs : Text) → any p cs ≡ false → trim_start_matches p cs ≡ cs
trim_start-absent p [] h = refl
trim_start-absent p (c ∷ cs) h = ground arith

trim_end-absent : (p : ℕ → Bool) (cs : Text) → any p cs ≡ false → trim_end_matches p cs ≡ cs
trim_end-absent p [] h = refl
trim_end-absent p (c ∷ []) h = ground arith
trim_end-absent p (c ∷ d ∷ cs) h = ap (keep_before p c) (trim_end-absent p (d ∷ cs) (ground arith))

keep_before-trimmed :
    (p : ℕ → Bool) (c : ℕ) (cs : Text)
    → trim_end_matches p cs ≡ cs
    → trim_end_matches p (keep_before p c cs) ≡ keep_before p c cs
keep_before-trimmed p c [] h = ground arith
keep_before-trimmed p c (d ∷ ds) h = rw h refl

trim_end-twice :
    (p : ℕ → Bool) (cs : Text) → trim_end_matches p (trim_end_matches p cs) ≡ trim_end_matches p cs
trim_end-twice p [] = refl
trim_end-twice p (c ∷ cs) = keep_before-trimmed p c (trim_end_matches p cs) (trim_end-twice p cs)

keep_before-map :
    (p : ℕ → Bool) (f : ℕ → ℕ) (c : ℕ) (cs : Text)
    → p (f c) ≡ p c
    → keep_before p (f c) (map f cs) ≡ map f (keep_before p c cs)
keep_before-map p f c [] h = ground arith
keep_before-map p f c (d ∷ ds) h = refl

trim_end-map :
    (p : ℕ → Bool) (f : ℕ → ℕ) (cs : Text)
    → ((c : ℕ) → p (f c) ≡ p c)
    → trim_end_matches p (map f cs) ≡ map f (trim_end_matches p cs)
trim_end-map p f [] h = refl
trim_end-map p f (c ∷ cs) h = rw (trim_end-map p f cs h) (keep_before-map p f c _ (h c))

lower-is_dot : (c : ℕ) → is_dot (lower c) ≡ is_dot c
unfolding lower
lower-is_dot c = ground arith

lower-lower : (c : ℕ) → lower (lower c) ≡ lower c
unfolding lower
lower-lower c = ground arith

map-lower-lower : (cs : Text) → map lower (map lower cs) ≡ map lower cs
map-lower-lower [] = refl
map-lower-lower (c ∷ cs) = rw (lower-lower c, map-lower-lower cs) refl

-- Cleaning a cleaned text without white space changes nothing.
cleaned-cleaned :
    (host : Text) → any is_whitespace (cleaned host) ≡ false → cleaned (cleaned host) ≡ cleaned host
unfolding cleaned
cleaned-cleaned host h =
    let core =
      trim_end_matches is_dot
        (trim_end_matches is_whitespace (trim_start_matches is_whitespace host)) in
    rw
      (
        trim_start-absent is_whitespace (map lower core) h,
        trim_end-absent is_whitespace (map lower core) h,
        trim_end-map is_dot lower core lower-is_dot,
        trim_end-twice is_dot
            (trim_end_matches is_whitespace (trim_start_matches is_whitespace host)),
      )
      (map-lower-lower core)

no_space : (host : Text) → is_malformed host ≡ false → any is_whitespace host ≡ false
unfolding is_malformed
no_space host h = ground arith

module _ (is_ip_address : Text → Bool) where
  accept-ok :
      (host name : Text)
      → accept is_ip_address host ≡ ok name
      → (name ≡ host) × (is_malformed host ≡ false) × (is_ip_address host ≡ false)
  unfolding accept
  accept-ok host name h = elim (Bool-cases (is_malformed host)) [
    | inl bad ↦ absurd (cc (rw bad at h))
    | inr good ↦ elim (Bool-cases (is_ip_address host)) [
      | inl address ↦ absurd (cc (rw (good, address) at h))
      | inr other ↦ (cc (rw (good, other) at h), good, other)
    ]
  ]

  accept-good :
      (host : Text)
      → is_malformed host ≡ false
      → is_ip_address host ≡ false
      → accept is_ip_address host ≡ ok host
  unfolding accept
  accept-good host good other = rw (good, other) refl

  -- What `normalize_host` gives is a host name that it gives back unchanged, and that is not empty,
  -- not longer than 253 bytes, without a slash or white space, and not an address.
  pub normalize_host-normalize_host :
      (host name : Text)
      → normalize_host is_ip_address host ≡ ok name
      → (normalize_host is_ip_address name ≡ ok name)
        × (is_malformed name ≡ false)
        × (is_ip_address name ≡ false)
  unfolding normalize_host
  normalize_host-normalize_host host name h =
      let (same, good, other) = accept-ok (cleaned host) name h in
      let again = cleaned-cleaned host (no_space (cleaned host) good) in
      rw (same, again) (accept-good (cleaned host) good other, good, other)
