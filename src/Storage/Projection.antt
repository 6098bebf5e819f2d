-- ===== src/Storage/Projection.antt =====
-- crates/storage/src/query_engine.rs: what a query gives, in terms of the rows that the store
-- stands for.
use text.Mathlib.Text.{◌==◌ as str_eq, find?}
use yarisugi.Prelude.{
  ℕ, suc, ◌+◌, ◌<◌, ◌≤◌, ◌^◌, ◌≡◌, refl, ap, ◌∙◌, Bool, true, false, ◌&&◌, ◌||◌, List, [], ◌∷◌,
  Option, none, some, String, arith, if◌then◌else◌, is_some, is_none_or, get_elem?, get_elem?-map,
  length, All, inl, inr, Bool-cases,
}
use yarisugi.Prelude.Panics.{◌>>=◌}
use yarisugi.Prelude.Sorting.{flip}
use yarisugi.Storage.Store.{DenseNodeStore, HotNodeRow, CountryCode, contains_id, as_u32}
use yarisugi.Storage.Represents.{Represents, has_source-contains_id}
use yarisugi.Storage.Query.{
  latency_order, country_eq, country_order, in_country, in_sub, name_matches, matches, filter_range,
}

-- An untested row comes after every tested one; tested rows are in the order of their latencies.
pub latency_order-flip : (a b : ℕ) → latency_order a b ≡ flip (latency_order b a)
unfolding latency_order
latency_order-flip a b = ground arith

pub country_order-flip : (x y : CountryCode) → country_order x y ≡ flip (country_order y x)
unfolding country_order
country_order-flip (a, b) (c, d) = ground arith

-- A chain of tests that each pass their turn on only where they hold.
tests-&& :
    (x y z : Option Bool) (a b c : Bool)
    → x ≡ some a
    → y ≡ some b
    → z ≡ some c
    → (x >>= λ p. elim p [
      | false ↦ some false
      | true ↦ y >>= λ q. elim q [ false ↦ some false | true ↦ z ]
    ])
      ≡ some (a && (b && c))
tests-&& x y z true true c hx hy hz = rw (hx, hy) hz
tests-&& x y z true false c hx hy hz = rw (hx, hy) refl
tests-&& x y z false b c hx hy hz = rw hx refl

in_country-none_or :
    (country : Option CountryCode) (own : CountryCode)
    → in_country country (some own) ≡ some (is_none_or country (country_eq own))
unfolding in_country
in_country-none_or none own = refl
in_country-none_or (some c) own = refl

name_matches-find :
    (search name : String)
    → name_matches search (some name) ≡ some (str_eq search "" || is_some (find? name search))
unfolding name_matches
name_matches-find search name = elim (Bool-cases (str_eq search "")) [
  | inl e ↦ rw e refl
  | inr e ↦ rw e refl
]

module _ (to_lowercase : String → String) where
  -- The test of the filter, on a row.
  unfoldable pub row_matches : String → Option CountryCode → Option ℕ → HotNodeRow → Bool
  row_matches term country_filter sub_filter row =
      is_none_or sub_filter (contains_id row.source_sub_ids)
      && (is_none_or country_filter (country_eq row.country_code)
          && (str_eq (to_lowercase term) ""
              || is_some (find? (to_lowercase row.name) (to_lowercase term))))

  -- The positions, counted from `i`, of the rows that pass.
  abbrev pub positions : (HotNodeRow → Bool) → ℕ → List HotNodeRow → List ℕ
  positions test i [] = []
  positions test i (row ∷ rows) =
      let rest = positions test (suc i) rows in if test row then i ∷ rest else rest

  in_sub-has_source :
      (rows : List HotNodeRow) (s : DenseNodeStore) (sub : Option ℕ) (i : ℕ) (row : HotNodeRow)
      → Represents to_lowercase rows s
      → get_elem? rows i ≡ some row
      → in_sub s sub i ≡ some (is_none_or sub (contains_id row.source_sub_ids))
  unfolding in_sub
  in_sub-has_source rows s none i row r h = refl
  in_sub-has_source rows s (some sub_id) i row r h =
      has_source-contains_id to_lowercase rows s i sub_id row r h

  pub matches-row_matches :
      (rows : List HotNodeRow) (s : DenseNodeStore) (term : String) (country : Option CountryCode)
      (sub : Option ℕ) (i : ℕ) (row : HotNodeRow)
      → Represents to_lowercase rows s
      → get_elem? rows i ≡ some row
      → matches s (to_lowercase term) country sub i ≡ some (row_matches term country sub row)
  unfolding matches row_matches
  matches-row_matches rows s term country sub i row r h =
      let own : get_elem? s.country_codes i ≡ some row.country_code =
        ap (λ xs. get_elem? xs i) r.countries ∙ get_elem?-map (λ x. x.country_code) rows i h in
      let lowered : get_elem? s.name_lower i ≡ some (to_lowercase row.name) =
        ap (λ xs. get_elem? xs i) r.lowered ∙ get_elem?-map (λ x. to_lowercase x.name) rows i h in
      tests-&& _ _ _ _ _ _ (in_sub-has_source rows s sub i row r h)
        (ap (in_country country) own ∙ in_country-none_or country row.country_code)
        (ap (name_matches (to_lowercase term)) lowered
          ∙ name_matches-find (to_lowercase term) (to_lowercase row.name))

  pub filter_range-positions :
      (test : HotNodeRow → Bool) (p : ℕ → Option Bool) (i : ℕ) (rows : List HotNodeRow)
      → ((d : ℕ) (row : HotNodeRow) → get_elem? rows d ≡ some row → p (d + i) ≡ some (test row))
      → i + length rows ≤ 2 ^ 32
      → filter_range p (length rows) i ≡ some (positions test i rows)
  unfolding filter_range
  filter_range-positions test p i [] h small = refl
  filter_range-positions test p i (row ∷ rows) h small =
      let now : p i ≡ some (test row) = ap p (omega arith) ∙ h 0 row refl in
      let rest =
        filter_range-positions test p (suc i) rows (λ d r e. ap p (omega arith) ∙ h (suc d) r e)
          (omega arith) in
      let fits : as_u32 i ≡ i = omega arith in rw (now, rest, fits) refl

  pub positions-below :
      (test : HotNodeRow → Bool) (n i : ℕ) (rows : List HotNodeRow)
      → i + length rows ≤ n
      → All (λ j. j < n) (positions test i rows)
  positions-below test n i [] h = tt
  positions-below test n i (row ∷ rows) h =
      ground (arith, positions-below test n (suc i) rows (omega arith))
