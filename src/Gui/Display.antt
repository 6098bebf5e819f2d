-- ===== src/Gui/Display.antt =====
-- crates/gui/src/virtual_model.rs: how a latency and its provenance are shown.
use Prim.Native.Char.{code}
use Prim.Native.String.{◌++◌ as str_append}
use yarisugi.Prelude.{
  ℕ, ◌≡◌, refl, ap, ◌≢◌, ◌↔◌, Bool, true, false, String, ltb, leb, ◌==◌, ==_iff, ◌&&◌, ◌||◌, not,
  if◌then◌else◌, arith, Bool-cases, inl, inr,
}
use yarisugi.Prelude.Text.{to_string}
use yarisugi.Storage.Store.{untested_latency, CountryCode}

-- Red, green and blue.
abbrev pub Color : Type 0
Color = ℕ × ℕ × ℕ

unfoldable pub latency_display : ℕ → Bool → String × Color
latency_display latency verified =
    if latency == untested_latency
    then ("—", (113, 113, 122))
    else if not verified
    then (str_append "~" (str_append (to_string latency) " ms"), (125, 132, 148))
    else if ltb latency 150
    then (str_append (to_string latency) " ms", (70, 167, 88))
    else if ltb latency 350
    then (str_append (to_string latency) " ms", (245, 166, 35))
    else (str_append (to_string latency) " ms", (229, 72, 77))

unfoldable pub provenance_badge : ℕ → Bool → String × Color
provenance_badge latency verified =
    if latency == untested_latency
    then ("", (63, 63, 70))
    else if verified
    then ("✓", (70, 167, 88))
    else ("≈", (125, 132, 148))

-- `std::str::from_utf8` on two bytes: two of ASCII, or one code point of two bytes.
unfoldable pub country_text : CountryCode → CountryCode
country_text (a, b) =
    if (ltb a 128 && ltb b 128) || ((leb 194 a && leb a 223) && (leb 128 b && leb b 191))
    then (a, b)
    else (b'U', b'N')

abbrev first_code : String → ℕ
first_code String.[] = 0
first_code (String.◌∷◌ c s) = code c

marks_differ : ◌≢◌ {A = String} "≈" "✓"
marks_differ h = let codes : ◌≡◌ {A = ℕ} 8776 10003 = ap first_code h in omega (arith, codes)

-- A row has the mark of a verified reading where it is tested and verified, and the neutral colour
-- of an approximate reading where it is tested and not verified.
pub provenance_badge-latency_display :
    (latency : ℕ) (verified : Bool)
    → (((provenance_badge latency verified).0 ≡ "✓")
        ↔ ((verified ≡ true) × (latency ≢ untested_latency)))
      × (((latency_display latency verified).1 ≡ (125, 132, 148))
          ↔ ((verified ≡ false) × (latency ≢ untested_latency)))
unfolding provenance_badge latency_display
provenance_badge-latency_display latency verified =
    elim (Bool-cases (latency == untested_latency)) [
      | inl untested ↦
          let same = (==_iff latency untested_latency).0 untested in
          rw untested (
            (λ h. cc, λ (v, other). absurd (other same)),
            (λ h. ground arith, λ (v, other). absurd (other same)),
          )
      | inr tested ↦
          let other : latency ≢ untested_latency = λ h. ground arith in
          elim (Bool-cases verified) [
            | inl sure ↦
                rw (tested, sure) ((λ h. (refl, other), λ p. refl), (λ h. ground arith, λ p. cc))
            | inr unsure ↦
                rw (tested, unsure)
                  ((λ h. absurd (marks_differ h), λ p. cc), (λ h. (refl, other), λ p. refl))
          ]
    ]
