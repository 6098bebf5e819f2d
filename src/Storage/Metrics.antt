-- ===== src/Storage/Metrics.antt =====
-- crates/storage/src/soa_store.rs, `MetricsArena`, and crates/storage/src/snapshot.rs: the metrics
-- that change often, apart from the store, and the snapshot that publishes both.
use yarisugi.Prelude.{
  ℕ, Bool, false, List, [], ◌∷◌, Option, none, some, min, leb, if◌then◌else◌, length, get_elem?,
  replicate, unwrap_or,
}
use yarisugi.Prelude.Panics.{◌>>=◌, set_elem?}
use yarisugi.Storage.Store.{DenseNodeStore, index_of, update_metrics}

pub record MetricsArena : Type 0 where
  pub latencies_ms : List ℕ
  pub health_scores : List ℕ
  pub jitter_ms : List ℕ
  pub packet_loss : List ℕ
  pub last_tested : List ℕ
  pub is_operational : List Bool
  pub verified : List Bool

unfoldable pub from_store : DenseNodeStore → MetricsArena
from_store store =
    let capacity = length store.node_ids in
    record {
      latencies_ms = store.latencies_ms;
      health_scores = store.health_scores;
      jitter_ms = replicate capacity 0;
      packet_loss = replicate capacity 0;
      last_tested = replicate capacity 0;
      is_operational = replicate capacity false;
      verified = replicate capacity false;
    }

unfoldable pub apply_update : MetricsArena → ℕ → ℕ → ℕ → Bool → Option MetricsArena
apply_update arena index latency_ms health_score is_verified =
    if leb (length arena.latencies_ms) index then some arena else do
      latencies ← set_elem? arena.latencies_ms index latency_ms
      healths ← set_elem? arena.health_scores index (min health_score 100)
      flags ← set_elem? arena.verified index is_verified
      some (record arena { latencies_ms = latencies; health_scores = healths; verified = flags })

unfoldable pub is_verified : MetricsArena → ℕ → Bool
is_verified arena index = unwrap_or (get_elem? arena.verified index) false

pub record MetricUpdate : Type 0 where
  pub node_id : ℕ
  pub latency_ms : ℕ
  pub health_score : ℕ
  pub verified : Bool

-- The two cells of a `StoreSnapshot`, each of which is read and written atomically.
pub record StoreSnapshot : Type 0 where
  pub store : DenseNodeStore
  pub metrics : MetricsArena

unfoldable pub new : DenseNodeStore → StoreSnapshot
new store = record { store = store; metrics = from_store store }

unfoldable pub replace : StoreSnapshot → DenseNodeStore → StoreSnapshot
replace snapshot store = record { store = store; metrics = from_store store }

-- The loop of `publish_metrics`.
unfoldable pub apply_updates :
    DenseNodeStore → MetricsArena → List MetricUpdate → Option MetricsArena
apply_updates store arena [] = some arena
apply_updates store arena (update ∷ updates) = elim (index_of store update.node_id) [
  | none ↦ apply_updates store arena updates
  | some index ↦ do
    arena' ← apply_update arena index update.latency_ms update.health_score update.verified
    apply_updates store arena' updates
]

-- `publish_metrics` behind its read of the arena: by then the snapshot may be another one.
unfoldable pub publish_loaded :
    MetricsArena → StoreSnapshot → List MetricUpdate → Option StoreSnapshot
unfolding apply_updates
publish_loaded arena snapshot updates = do
  replacement ← apply_updates snapshot.store arena updates
  some (record snapshot { metrics = replacement })

unfoldable pub publish_metrics : StoreSnapshot → List MetricUpdate → Option StoreSnapshot
unfolding publish_loaded
publish_metrics snapshot updates = publish_loaded snapshot.metrics snapshot updates

-- The loop of `update_metrics_batch`.
unfoldable pub update_all : DenseNodeStore → List MetricUpdate → Option DenseNodeStore
update_all store [] = some store
update_all store (update ∷ updates) = do
  store' ← update_metrics store update.node_id update.latency_ms update.health_score
  update_all store' updates

unfoldable pub update_metrics_batch : StoreSnapshot → List MetricUpdate → Option StoreSnapshot
unfolding update_all replace
update_metrics_batch snapshot updates = do
  replacement ← update_all snapshot.store updates
  some (replace snapshot replacement)
