-- ===== src/Storage/Store.antt =====
-- crates/storage/src/soa_store.rs: the node store as one column for each field. `none` is a panic.
-- A `HashMap` is the function that `get` computes; `str::to_lowercase`, which rests on the tables
-- of Unicode, is a parameter.
use yarisugi.Prelude.{
  ℕ, suc, ◌%◌, ◌^◌, ◌&&◌, Bool, true, false, List, [], ◌∷◌, ◌++◌, Option, none, some, String, min,
  leb, ◌==◌, if◌then◌else◌, length, get_elem?, set, replicate, unwrap_or, Result, ok, err,
}
use yarisugi.Prelude.Panics.{◌>>=◌, set_elem?, slice?}
use yarisugi.Prelude.Results.{◌>>=◌ as and_then}

abbrev pub untested_latency : ℕ
untested_latency = 65535

pub data ProtocolKind : Type 0 where
  vless vmess trojan shadowsocks hysteria2 tuic wire_guard : ProtocolKind

unfoldable pub label : ProtocolKind → String
label vless = "VLESS"
label vmess = "VMess"
label trojan = "Trojan"
label shadowsocks = "SS"
label hysteria2 = "HY2"
label tuic = "TUIC"
label wire_guard = "WireGuard"

unfoldable pub discriminant : ProtocolKind → ℕ
discriminant vless = 0
discriminant vmess = 1
discriminant trojan = 2
discriminant shadowsocks = 3
discriminant hysteria2 = 4
discriminant tuic = 5
discriminant wire_guard = 6

unfoldable pub from_discriminant : ℕ → Option ProtocolKind
from_discriminant value =
    if value == 0
    then some vless
    else if value == 1
    then some vmess
    else if value == 2
    then some trojan
    else if value == 3
    then some shadowsocks
    else if value == 4
    then some hysteria2
    else if value == 5
    then some tuic
    else if value == 6
    then some wire_guard
    else none

-- `[u8; 2]`
abbrev pub CountryCode : Type 0
CountryCode = ℕ × ℕ

unfoldable pub is_ascii_uppercase : ℕ → Bool
is_ascii_uppercase c = leb b'A' c && leb c b'Z'

unfoldable pub country_code : List ℕ → CountryCode
unfolding is_ascii_uppercase
country_code (x ∷ y ∷ []) =
    if is_ascii_uppercase x && is_ascii_uppercase y then (x, y) else (b'U', b'N')
country_code bytes = (b'U', b'N')

pub record HotNodeRow : Type 0 where
  pub id : ℕ
  pub country_code : CountryCode
  pub latency_ms : ℕ
  pub health_score : ℕ
  pub name : String
  pub protocol : ProtocolKind
  pub source_sub_ids : List ℕ

pub record DenseNodeStore : Type 0 where
  pub node_ids : List ℕ
  pub country_codes : List CountryCode
  pub latencies_ms : List ℕ
  pub health_scores : List ℕ
  pub protocol_kinds : List ProtocolKind
  pub names : List String
  pub name_lower : List String
  pub source_offsets : List ℕ
  pub source_sub_ids : List ℕ
  pub id_to_index : ℕ → Option ℕ

unfoldable pub with_capacity : DenseNodeStore
with_capacity = record {
  node_ids = [];
  country_codes = [];
  latencies_ms = [];
  health_scores = [];
  protocol_kinds = [];
  names = [];
  name_lower = [];
  source_offsets = [];
  source_sub_ids = [];
  id_to_index = λ id. none;
}

abbrev pub insert : ℕ → ℕ → (ℕ → Option ℕ) → ℕ → Option ℕ
insert key value m k = if k == key then some value else m k

abbrev pub push {ℓ} : {A : Type ℓ} → List A → A → List A
push xs x = xs ++ (x ∷ [])

-- `len as u32`
abbrev pub as_u32 : ℕ → ℕ
as_u32 n = n % 2 ^ 32

-- A row of `nodes` with its diagnostics, in the types that it is read at.
pub record NodeRow : Type 0 where
  pub id : ℕ
  pub country : List ℕ
  pub name : String
  pub kind : ℕ
  pub latency : ℕ
  pub health : ℕ

module _ (to_lowercase : String → String) where
  -- The body of the loop of `from_hot_rows`.
  unfoldable pub push_row : DenseNodeStore → HotNodeRow → DenseNodeStore
  push_row store row = record {
    node_ids = push store.node_ids row.id;
    country_codes = push store.country_codes row.country_code;
    latencies_ms = push store.latencies_ms row.latency_ms;
    health_scores = push store.health_scores (min row.health_score 100);
    protocol_kinds = push store.protocol_kinds row.protocol;
    names = push store.names row.name;
    name_lower = push store.name_lower (to_lowercase row.name);
    source_offsets =
        push store.source_offsets (as_u32 (length (store.source_sub_ids ++ row.source_sub_ids)));
    source_sub_ids = store.source_sub_ids ++ row.source_sub_ids;
    id_to_index = insert row.id (length store.node_ids) store.id_to_index;
  }

  unfoldable pub push_rows : DenseNodeStore → List HotNodeRow → DenseNodeStore
  unfolding push_row
  push_rows store [] = store
  push_rows store (row ∷ rows) = push_rows (push_row store row) rows

  unfoldable pub from_hot_rows : List HotNodeRow → DenseNodeStore
  unfolding push_rows with_capacity
  from_hot_rows rows = push_rows (record with_capacity { source_offsets = 0 ∷ [] }) rows

  unfoldable pub push_node : DenseNodeStore → NodeRow → DenseNodeStore
  push_node store row = record store {
    node_ids = push store.node_ids row.id;
    country_codes = push store.country_codes (country_code row.country);
    latencies_ms = push store.latencies_ms row.latency;
    health_scores = push store.health_scores row.health;
    protocol_kinds = push store.protocol_kinds (unwrap_or (from_discriminant row.kind) vless);
    name_lower = push store.name_lower (to_lowercase row.name);
    names = push store.names row.name;
    id_to_index = insert row.id (length store.node_ids) store.id_to_index;
  }

  unfoldable pub push_nodes : DenseNodeStore → List NodeRow → DenseNodeStore
  unfolding push_node
  push_nodes store [] = store
  push_nodes store (row ∷ rows) = push_nodes (push_node store row) rows

-- `sources[index].push(sub_id)`
unfoldable pub push_at : List (List ℕ) → ℕ → ℕ → Option (List (List ℕ))
push_at sources index sub_id = do
  ids ← get_elem? sources index
  some (set sources index (push ids sub_id))

-- The loop over `node_sources`; a link to a node that is not loaded is skipped.
unfoldable pub distribute : (ℕ → Option ℕ) → List (List ℕ) → List (ℕ × ℕ) → Option (List (List ℕ))
distribute id_to_index sources [] = some sources
distribute id_to_index sources ((node_id, sub_id) ∷ links) = elim (id_to_index node_id) [
  | none ↦ distribute id_to_index sources links
  | some index ↦ do sources' ← push_at sources index sub_id; distribute id_to_index sources' links
]

-- The last loop of `hydrate_from_db`.
unfoldable pub push_sources : DenseNodeStore → List (List ℕ) → DenseNodeStore
push_sources store [] = store
push_sources store (ids ∷ sources) =
    let all = store.source_sub_ids ++ ids in
    push_sources
      (record store {
        source_sub_ids = all;
        source_offsets = push store.source_offsets (as_u32 (length all));
      })
      sources

-- The rows of a query, of which the first that cannot be read is the error of the whole.
unfoldable pub read_all {ℓ} : {A : Type ℓ} → List (Result A) → Result (List A)
read_all [] = ok []
read_all (row ∷ rows) = and_then row λ a. and_then (read_all rows) λ rest. ok (a ∷ rest)

-- `hydrate_from_db` on what its two queries give.
unfoldable pub hydrate_from_db :
    (String → String)
    → List (Result NodeRow)
    → List (Result (ℕ × ℕ))
    → Option (Result DenseNodeStore)
unfolding read_all push_nodes with_capacity push_at distribute push_sources
hydrate_from_db to_lowercase nodes links = elim (read_all nodes) [
  | err e ↦ some (err e)
  | ok rows ↦
      let store = push_nodes to_lowercase with_capacity rows in
      elim (read_all links) [
        | err e ↦ some (err e)
        | ok pairs ↦ do
          sources ← distribute store.id_to_index (replicate (length store.node_ids) []) pairs
          some (ok (push_sources (record store { source_offsets = 0 ∷ [] }) sources))
      ]
]

unfoldable pub update_metrics : DenseNodeStore → ℕ → ℕ → ℕ → Option DenseNodeStore
update_metrics store node_id latency_ms health_score = elim (store.id_to_index node_id) [
  | none ↦ some store
  | some index ↦ do
    latencies ← set_elem? store.latencies_ms index latency_ms
    healths ← set_elem? store.health_scores index (min health_score 100)
    some (record store { latencies_ms = latencies; health_scores = healths })
]

unfoldable pub index_of : DenseNodeStore → ℕ → Option ℕ
index_of store node_id = store.id_to_index node_id

unfoldable pub contains_id : List ℕ → ℕ → Bool
contains_id [] a = false
contains_id (x ∷ xs) a = let rest = contains_id xs a in if x == a then true else rest

unfoldable pub has_source : DenseNodeStore → ℕ → ℕ → Option Bool
unfolding contains_id
has_source store index sub_id = do
  start ← get_elem? store.source_offsets index
  end ← get_elem? store.source_offsets (suc index)
  ids ← slice? store.source_sub_ids start end
  some (contains_id ids sub_id)
