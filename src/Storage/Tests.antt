-- ===== src/Storage/Tests.antt =====
-- Runs of the store and the query engine on small inputs, and their theorems at inputs that meet
-- their hypotheses.
use mathlib.Core.List.{Perm}
use yarisugi.Prelude.{
  ℕ, ◌≡◌, refl, ◌≢◌, true, false, List, [], ◌∷◌, none, some, String, arith, length, min,
}
use yarisugi.Prelude.Sorting.{IsSorted}
use yarisugi.Storage.Store.{
  HotNodeRow, DenseNodeStore, from_hot_rows, index_of, has_source, vless, trojan,
}
use yarisugi.Storage.Represents.{HasDistinctIds, Represents, from_hot_rows-Represents}
use yarisugi.Storage.Metrics.{
  MetricUpdate, StoreSnapshot, new, replace, publish_loaded, publish_metrics,
}
use yarisugi.Storage.Publishing.{IsAligned, reading, after_updates, publish_metrics-after_updates}
use yarisugi.Storage.Aligned.{replace-IsAligned}
use yarisugi.Storage.Query.{latency_asc, country_asc, query}
use yarisugi.Storage.Projection.{row_matches, positions}
use yarisugi.Storage.Order.{row_at, positions_order, query-IsSorted}

abbrev same : String → String
same s = s

abbrev tokyo : HotNodeRow
tokyo = record {
  id = 7;
  country_code = (b'J', b'P');
  latency_ms = 90;
  health_score = 250;
  name = "tokyo";
  protocol = vless;
  source_sub_ids = 1 ∷ 2 ∷ [];
}

abbrev berlin : HotNodeRow
berlin = record {
  id = 3;
  country_code = (b'D', b'E');
  latency_ms = 40;
  health_score = 80;
  name = "berlin";
  protocol = trojan;
  source_sub_ids = 2 ∷ [];
}

abbrev rows : List HotNodeRow
rows = tokyo ∷ berlin ∷ []

abbrev store : DenseNodeStore
store = from_hot_rows same rows

abbrev other_store : DenseNodeStore
other_store = from_hot_rows same (tokyo ∷ [])

distinct : HasDistinctIds rows
distinct = (λ h. ground arith, (λ h. h, tt))

store-Represents : Represents same rows store
store-Represents = from_hot_rows-Represents same rows (omega arith)

alone : Represents same (tokyo ∷ []) other_store
alone = from_hot_rows-Represents same (tokyo ∷ []) (omega arith)

-- The query finds the nodes of a subscription, the fastest first.
query-run : query same store "" none (some 2) latency_asc ≡ some (1 ∷ 0 ∷ [])
unfolding query from_hot_rows
query-run = refl

query-run_country : query same store "o" (some (b'J', b'P')) none country_asc ≡ some (0 ∷ [])
unfolding query from_hot_rows
query-run_country = refl

has_source-run : has_source store 1 1 ≡ some false
unfolding has_source from_hot_rows
has_source-run = refl

from_hot_rows-Represents_example : Represents same rows (from_hot_rows same rows)
from_hot_rows-Represents_example = from_hot_rows-Represents same rows (omega arith)

replace-IsAligned_example : IsAligned (new store) × IsAligned (replace (new other_store) store)
replace-IsAligned_example =
    replace-IsAligned same rows (new other_store) store store-Represents distinct

abbrev updates : List MetricUpdate
updates = record { node_id = 3; latency_ms = 12; health_score = 130; verified = true } ∷ []

publish_metrics-after_updates_example :
    (s' : StoreSnapshot) × (publish_metrics (new store) updates ≡ some s')
    × (s'.store ≡ (new store).store)
    × IsAligned s'
    × ((k i : ℕ)
        → index_of (new store).store k ≡ some i
        → reading s'.metrics i ≡ after_updates k updates (reading (new store).metrics i))
publish_metrics-after_updates_example =
    publish_metrics-after_updates (new store) updates
      (replace-IsAligned same rows (new store) store store-Represents distinct).0

abbrev left_over : StoreSnapshot
left_over = record { store = other_store; metrics = (new store).metrics }

one_of_two : length (new other_store).store.node_ids ≢ length (new store).store.node_ids
unfolding from_hot_rows new
one_of_two = λ h. ground arith

published : publish_loaded (new store).metrics (new other_store) [] ≡ some left_over
unfolding publish_loaded new
published = refl

query-IsSorted_example :
    (found : List ℕ) × (query same store "" none (some 2) latency_asc ≡ some found)
    × Perm (positions same (row_matches same "" none (some 2)) 0 rows) found
    × IsSorted
        (positions_order latency_asc
          (λ i. (row_at rows i).latency_ms)
          (λ i. min (row_at rows i).health_score 100)
          rows)
        found
query-IsSorted_example =
    query-IsSorted same rows store "" none (some 2) latency_asc store-Represents (omega arith)
