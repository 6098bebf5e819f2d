-- ===== src/Storage/Query.antt =====
-- crates/storage/src/query_engine.rs: the filter and the order behind the node list.
use Prim.Native.String.{compare as compare_text}
use text.Mathlib.Text.{◌==◌ as str_eq, find?}
use yarisugi.Prelude.{
  ℕ, zero, suc, Bool, true, false, ◌&&◌, List, [], ◌∷◌, Option, none, some, String, compare,
  Ordering, ◌==◌, if◌then◌else◌, is_some, get_elem?, length, unwrap_or,
}
use yarisugi.Prelude.Panics.{◌>>=◌}
use yarisugi.Prelude.Sorting.{then_with, sort_by}
use yarisugi.Storage.Store.{DenseNodeStore, CountryCode, has_source, untested_latency, as_u32}
use yarisugi.Storage.Metrics.{MetricsArena}

pub data SortCriteria : Type 0 where
  latency_asc latency_desc country_asc name_asc health_score_desc : SortCriteria

unfoldable pub latency_order : ℕ → ℕ → Ordering
latency_order left right =
    if left == untested_latency
    then if right == untested_latency then Ordering.eq else Ordering.gt
    else if right == untested_latency
    then Ordering.lt
    else compare left right

-- `[u8; 2]`, compared byte by byte.
unfoldable pub country_eq : CountryCode → CountryCode → Bool
country_eq (a, b) (c, d) = (a == c) && (b == d)

unfoldable pub country_order : CountryCode → CountryCode → Ordering
country_order (a, b) (c, d) = then_with (compare a c) (compare b d)

unfoldable pub in_country : Option CountryCode → Option CountryCode → Option Bool
unfolding country_eq
in_country none own = some true
in_country (some country) own = do code ← own; some (country_eq code country)

unfoldable pub in_sub : DenseNodeStore → Option ℕ → ℕ → Option Bool
unfolding has_source
in_sub store none index = some true
in_sub store (some sub_id) index = has_source store index sub_id

unfoldable pub name_matches : String → Option String → Option Bool
name_matches search name =
    if str_eq search "" then some true else do lowered ← name; some (is_some (find? lowered search))

-- The filter's test: each part is read only if those before it hold.
unfoldable pub matches : DenseNodeStore → String → Option CountryCode → Option ℕ → ℕ → Option Bool
unfolding in_sub in_country name_matches
matches store search country_filter sub_filter index = do
  from_sub ← in_sub store sub_filter index
  elim from_sub [
    | false ↦ some false
    | true ↦ do
      from_country ← in_country country_filter (get_elem? store.country_codes index)
      elim from_country [
        | false ↦ some false
        | true ↦ name_matches search (get_elem? store.name_lower index)
      ]
  ]

-- `(index..index + count).filter(..).map(|index| index as u32).collect()`
unfoldable pub filter_range : (ℕ → Option Bool) → ℕ → ℕ → Option (List ℕ)
filter_range test zero index = some []
filter_range test (suc count) index = do
  keep ← test index
  rest ← filter_range test count (suc index)
  some (if keep then as_u32 index ∷ rest else rest)

-- The first part of the order, by the criterion.
unfoldable pub criterion_order :
    DenseNodeStore → SortCriteria → (ℕ → Option ℕ) → (ℕ → Option ℕ) → ℕ → ℕ → Option Ordering
unfolding latency_order country_order
criterion_order store latency_asc latency health a b = do
  x ← latency a
  y ← latency b
  some (latency_order x y)
criterion_order store latency_desc latency health a b = do
  y ← latency b
  x ← latency a
  some (latency_order y x)
criterion_order store country_asc latency health a b = do
  x ← get_elem? store.country_codes a
  y ← get_elem? store.country_codes b
  some (country_order x y)
criterion_order store name_asc latency health a b = do
  x ← get_elem? store.names a
  y ← get_elem? store.names b
  some (compare_text x y)
criterion_order store health_score_desc latency health a b = do
  y ← health b
  x ← health a
  some (compare y x)

-- The order of two rows; the ids are read only where the criterion finds no difference.
unfoldable pub row_order :
    DenseNodeStore → SortCriteria → (ℕ → Option ℕ) → (ℕ → Option ℕ) → ℕ → ℕ → Option Ordering
unfolding criterion_order
row_order store sort latency health a b = do
  ordering ← criterion_order store sort latency health a b
  elim ordering [
    | Ordering.eq ↦ do
      x ← get_elem? store.node_ids a
      y ← get_elem? store.node_ids b
      some (compare x y)
    | o ↦ some o
  ]

module _ (to_lowercase : String → String) where
  unfoldable pub run_query :
      DenseNodeStore
      → String
      → Option CountryCode
      → Option ℕ
      → SortCriteria
      → (ℕ → Option ℕ)
      → (ℕ → Option ℕ)
      → Option (List ℕ)
  unfolding matches filter_range row_order sort_by
  run_query store search_term country_filter sub_filter sort metric_latency metric_health = do
    indices ←
        filter_range (matches store (to_lowercase search_term) country_filter sub_filter)
          (length store.node_ids) 0
    sort_by (row_order store sort metric_latency metric_health) indices

  unfoldable pub query :
      DenseNodeStore → String → Option CountryCode → Option ℕ → SortCriteria → Option (List ℕ)
  unfolding run_query
  query store search_term country_filter sub_filter sort =
      run_query store search_term country_filter sub_filter sort (get_elem? store.latencies_ms)
        (get_elem? store.health_scores)

  unfoldable pub query_with_metrics :
      DenseNodeStore
      → MetricsArena
      → String
      → Option CountryCode
      → Option ℕ
      → SortCriteria
      → Option (List ℕ)
  unfolding run_query
  query_with_metrics store metrics search_term country_filter sub_filter sort =
      run_query store search_term country_filter sub_filter sort
        (λ index. some (unwrap_or (get_elem? metrics.latencies_ms index) untested_latency))
        (λ index. some (unwrap_or (get_elem? metrics.health_scores index) 0))
