-- ===== src/Storage/Aligned.antt =====
-- crates/storage/src/snapshot.rs: the snapshots that fit their store, from the start and after every
-- `replace`.
use yarisugi.Prelude.{
  ℕ, ◌≡◌, sym, ap, ◌∙◌, List, some, String, get_elem?, length, length-map, length-replicate,
}
use yarisugi.Storage.Store.{DenseNodeStore, HotNodeRow, index_of}
use yarisugi.Storage.Represents.{Represents, HasDistinctIds, index_of_iff}
use yarisugi.Storage.Metrics.{from_store, StoreSnapshot, new, replace}
use yarisugi.Storage.Publishing.{HasRows, IsAligned}

module _ (to_lowercase : String → String) where
  from_store-HasRows :
      (rows : List HotNodeRow) (s : DenseNodeStore)
      → Represents to_lowercase rows s
      → HasRows (length s.node_ids) (from_store s)
  unfolding from_store
  from_store-HasRows rows s r =
      let long : length s.node_ids ≡ length rows = ap length r.ids ∙ length-map _ rows in
      record {
        latencies = ap length r.latencies ∙ length-map _ rows ∙ sym long;
        healths = ap length r.healths ∙ length-map _ rows ∙ sym long;
        flags = length-replicate _ _;
      }

  -- A snapshot that takes in a store of rows with different ids is aligned, be it new or the
  -- replacement of another.
  pub replace-IsAligned :
      (rows : List HotNodeRow) (old : StoreSnapshot) (s : DenseNodeStore)
      → Represents to_lowercase rows s
      → HasDistinctIds rows
      → IsAligned (new s) × IsAligned (replace old s)
  unfolding new replace
  replace-IsAligned rows old s r d =
      let here = from_store-HasRows rows s r in
      let found : (k i : ℕ) → index_of s k ≡ some i → get_elem? s.node_ids i ≡ some k =
        λ k i e. (index_of_iff to_lowercase rows s k i r d).0 e in
      (record { rows = here; indexed = found }, record { rows = here; indexed = found })
