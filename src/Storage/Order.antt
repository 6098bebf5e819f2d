-- ===== src/Storage/Order.antt =====
-- crates/storage/src/query_engine.rs: the order of the node list, and what a whole query gives.
use Prim.Native.String.{compare as compare_text}
use mathlib.Core.List.{Perm}
use yarisugi.Prelude.{
  ℕ, ◌+◌, ◌<◌, ◌≤◌, ◌^◌, ◌≡◌, refl, ap, ◌∙◌, List, [], Option, some, String, arith, compare,
  Ordering, map, get_elem?, get_elem?-map, get_elem?-some_of_lt, length, length-map, unwrap_or, min,
}
use yarisugi.Prelude.Panics.{◌>>=◌}
use yarisugi.Prelude.Sorting.{
  then_with, flip, sort_by-IsSorted, IsSorted, compare-flip, compare_text-flip,
}
use yarisugi.Storage.Store.{DenseNodeStore, HotNodeRow, CountryCode, vless, untested_latency}
use yarisugi.Storage.Metrics.{MetricsArena}
use yarisugi.Storage.Represents.{Represents}
use yarisugi.Storage.Query.{
  SortCriteria, latency_asc, latency_desc, country_asc, name_asc, health_score_desc, latency_order,
  country_order, matches, filter_range, criterion_order, row_order, run_query, query,
  query_with_metrics,
}
use yarisugi.Storage.Projection.{
  latency_order-flip, country_order-flip, row_matches, positions, matches-row_matches,
  filter_range-positions, positions-below,
}

abbrev no_row : HotNodeRow
no_row = record {
  id = 0;
  country_code = (0, 0);
  latency_ms = 0;
  health_score = 0;
  name = "";
  protocol = vless;
  source_sub_ids = [];
}

abbrev pub row_at : List HotNodeRow → ℕ → HotNodeRow
row_at rows i = unwrap_or (get_elem? rows i) no_row

-- The order of two rows by the criterion alone, with the latencies and the scores of the list.
unfoldable pub by_criterion : SortCriteria → (ℕ → ℕ) → (ℕ → ℕ) → List HotNodeRow → ℕ → ℕ → Ordering
by_criterion latency_asc latency health rows a b = latency_order (latency a) (latency b)
by_criterion latency_desc latency health rows a b = latency_order (latency b) (latency a)
by_criterion country_asc latency health rows a b =
    let x = row_at rows a in let y = row_at rows b in country_order x.country_code y.country_code
by_criterion name_asc latency health rows a b =
    let x = row_at rows a in let y = row_at rows b in compare_text x.name y.name
by_criterion health_score_desc latency health rows a b = compare (health b) (health a)

-- The order of the list: the criterion, then the ids.
unfoldable pub positions_order :
    SortCriteria → (ℕ → ℕ) → (ℕ → ℕ) → List HotNodeRow → ℕ → ℕ → Ordering
positions_order sort latency health rows a b =
    let x = row_at rows a in
    let y = row_at rows b in
    then_with (by_criterion sort latency health rows a b) (compare x.id y.id)

by_criterion-flip :
    (sort : SortCriteria) (latency health : ℕ → ℕ) (rows : List HotNodeRow) (a b : ℕ)
    → by_criterion sort latency health rows a b ≡ flip (by_criterion sort latency health rows b a)
unfolding by_criterion
by_criterion-flip latency_asc latency health rows a b = latency_order-flip _ _
by_criterion-flip latency_desc latency health rows a b = latency_order-flip _ _
by_criterion-flip country_asc latency health rows a b = country_order-flip _ _
by_criterion-flip name_asc latency health rows a b = compare_text-flip _ _
by_criterion-flip health_score_desc latency health rows a b = compare-flip _ _

then_with-flip :
    (o o' p p' : Ordering) → o ≡ flip o' → p ≡ flip p' → then_with o p ≡ flip (then_with o' p')
then_with-flip o o' p p' h h' = ground arith

positions_order-flip :
    (sort : SortCriteria) (latency health : ℕ → ℕ) (rows : List HotNodeRow) (a b : ℕ)
    → positions_order sort latency health rows a b
      ≡ flip (positions_order sort latency health rows b a)
unfolding positions_order
positions_order-flip sort latency health rows a b =
    then_with-flip _ _ _ _ (by_criterion-flip sort latency health rows a b) (compare-flip _ _)

tie-then_with :
    (o : Ordering) (x y : Option ℕ) (i j : ℕ)
    → x ≡ some i
    → y ≡ some j
    → (elim o [ Ordering.eq ↦ x >>= λ a. y >>= λ b. some (compare a b) | o ↦ some o ])
      ≡ some (then_with o (compare i j))
tie-then_with Ordering.lt x y i j h h' = refl
tie-then_with Ordering.eq x y i j h h' = rw (h, h') refl
tie-then_with Ordering.gt x y i j h h' = refl

pub column-row_at :
    {A : Type 0} (f : HotNodeRow → A) (column : List A) (rows : List HotNodeRow) (i : ℕ)
    → column ≡ map f rows
    → i < length rows
    → get_elem? column i ≡ some (f (row_at rows i))
column-row_at f column rows i h l =
    let (row, e) = get_elem?-some_of_lt rows i l in rw (h, e) (get_elem?-map f rows i e)

-- Agreement, at the positions of the rows, of a reading that can panic with a total one.
abbrev pub Reads : List HotNodeRow → (ℕ → Option ℕ) → (ℕ → ℕ) → Type 0
Reads rows read value = (i : ℕ) → i < length rows → read i ≡ some (value i)

module _ (to_lowercase : String → String) where
  criterion_order-by_criterion :
      (rows : List HotNodeRow) (s : DenseNodeStore) (sort : SortCriteria)
      (read_latency read_health : ℕ → Option ℕ) (latency health : ℕ → ℕ) (a b : ℕ)
      → Represents to_lowercase rows s
      → Reads rows read_latency latency
      → Reads rows read_health health
      → a < length rows
      → b < length rows
      → criterion_order s sort read_latency read_health a b
        ≡ some (by_criterion sort latency health rows a b)
  unfolding criterion_order by_criterion
  criterion_order-by_criterion rows s latency_asc rl rh latency health a b r l h la lb =
      rw (l a la, l b lb) refl
  criterion_order-by_criterion rows s latency_desc rl rh latency health a b r l h la lb =
      rw (l a la, l b lb) refl
  criterion_order-by_criterion rows s country_asc rl rh latency health a b r l h la lb =
      rw (column-row_at _ _ rows a r.countries la, column-row_at _ _ rows b r.countries lb) refl
  criterion_order-by_criterion rows s name_asc rl rh latency health a b r l h la lb =
      rw (column-row_at _ _ rows a r.named la, column-row_at _ _ rows b r.named lb) refl
  criterion_order-by_criterion rows s health_score_desc rl rh latency health a b r l h la lb =
      rw (h a la, h b lb) refl

  row_order-positions_order :
      (rows : List HotNodeRow) (s : DenseNodeStore) (sort : SortCriteria)
      (read_latency read_health : ℕ → Option ℕ) (latency health : ℕ → ℕ) (a b : ℕ)
      → Represents to_lowercase rows s
      → Reads rows read_latency latency
      → Reads rows read_health health
      → a < length rows
      → b < length rows
      → row_order s sort read_latency read_health a b
        ≡ some (positions_order sort latency health rows a b)
  unfolding row_order positions_order
  row_order-positions_order rows s sort rl rh latency health a b r l h la lb =
      let first = criterion_order-by_criterion rows s sort rl rh latency health a b r l h la lb in
      let left = column-row_at _ _ rows a r.ids la in
      let right = column-row_at _ _ rows b r.ids lb in
      rw first (tie-then_with (by_criterion sort latency health rows a b) _ _ _ _ left right)

  filtered :
      (rows : List HotNodeRow) (s : DenseNodeStore) (term : String) (country : Option CountryCode)
      (sub : Option ℕ)
      → Represents to_lowercase rows s
      → length rows ≤ 2 ^ 32
      → filter_range (matches s (to_lowercase term) country sub) (length s.node_ids) 0
        ≡ some (positions to_lowercase (row_matches to_lowercase term country sub) 0 rows)
  filtered rows s term country sub r small =
      let long : length s.node_ids ≡ length rows = ap length r.ids ∙ length-map _ rows in
      rw long (
        filter_range-positions to_lowercase (row_matches to_lowercase term country sub) _ 0 rows
          (λ d row e.
            let back : d + 0 ≡ d = omega arith in
            rw back (matches-row_matches to_lowercase rows s term country sub d row r e))
          (omega arith))

  run_query-IsSorted :
      (rows : List HotNodeRow) (s : DenseNodeStore) (term : String) (country : Option CountryCode)
      (sub : Option ℕ) (sort : SortCriteria) (read_latency read_health : ℕ → Option ℕ)
      (latency health : ℕ → ℕ)
      → Represents to_lowercase rows s
      → length rows ≤ 2 ^ 32
      → Reads rows read_latency latency
      → Reads rows read_health health
      → (found : List ℕ) × (run_query to_lowercase s term country sub sort read_latency read_health
          ≡ some found)
        × Perm (positions to_lowercase (row_matches to_lowercase term country sub) 0 rows) found
        × IsSorted (positions_order sort latency health rows) found
  unfolding run_query
  run_query-IsSorted rows s term country sub sort rl rh latency health r small l h =
      let test = row_matches to_lowercase term country sub in
      let (found, done, perm, _, sorted) =
        sort_by-IsSorted (λ j. j < length rows) (row_order s sort rl rh)
          (positions_order sort latency health rows)
          (λ a b la lb. row_order-positions_order rows s sort rl rh latency health a b r l h la lb)
          (positions_order-flip sort latency health rows) (positions to_lowercase test 0 rows)
          (positions-below to_lowercase test (length rows) 0 rows (omega arith)) in
      (found, rw (filtered rows s term country sub r small) done, perm, sorted)

  -- On a store that stands for at most 2 ^ 32 rows, `query` does not panic; it gives each position
  -- of a row that passes the filter once, in the order of the criterion and then of the ids.
  pub query-IsSorted :
      (rows : List HotNodeRow) (s : DenseNodeStore) (term : String) (country : Option CountryCode)
      (sub : Option ℕ) (sort : SortCriteria)
      → Represents to_lowercase rows s
      → length rows ≤ 2 ^ 32
      → (found : List ℕ) × (query to_lowercase s term country sub sort ≡ some found)
        × Perm (positions to_lowercase (row_matches to_lowercase term country sub) 0 rows) found
        × IsSorted
            (positions_order sort
              (λ i. (row_at rows i).latency_ms)
              (λ i. min (row_at rows i).health_score 100)
              rows)
            found
  unfolding query
  query-IsSorted rows s term country sub sort r small =
      run_query-IsSorted rows s term country sub sort _ _ _ _ r small
        (λ i l. column-row_at _ _ rows i r.latencies l)
        (λ i l. column-row_at _ _ rows i r.healths l)

  -- With any metric arena, even one that does not fit the store, `query_with_metrics` does not
  -- panic on a store that stands for at most 2 ^ 32 rows; it gives the same positions, in the order
  -- of the arena's values, where a missing latency counts as untested and a missing score as 0.
  pub query_with_metrics-IsSorted :
      (rows : List HotNodeRow) (s : DenseNodeStore) (metrics : MetricsArena) (term : String)
      (country : Option CountryCode) (sub : Option ℕ) (sort : SortCriteria)
      → Represents to_lowercase rows s
      → length rows ≤ 2 ^ 32
      → (found : List ℕ) × (query_with_metrics to_lowercase s metrics term country sub sort
          ≡ some found)
        × Perm (positions to_lowercase (row_matches to_lowercase term country sub) 0 rows) found
        × IsSorted
            (positions_order sort
              (λ i. unwrap_or (get_elem? metrics.latencies_ms i) untested_latency)
              (λ i. unwrap_or (get_elem? metrics.health_scores i) 0)
              rows)
            found
  unfolding query_with_metrics
  query_with_metrics-IsSorted rows s metrics term country sub sort r small =
      run_query-IsSorted rows s term country sub sort _ _ _ _ r small (λ i l. refl) (λ i l. refl)
