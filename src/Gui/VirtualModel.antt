-- ===== src/Gui/VirtualModel.antt =====
-- crates/gui/src/virtual_model.rs: the list model. A shared store has an address, by which
-- `Arc::ptr_eq` compares it. The channels are the lists of what was sent and not yet received;
-- `notices` is what the model told its view. `none` is a panic.
use yarisugi.Prelude.{
  ℕ, suc, ◌&&◌, Bool, true, false, List, [], ◌∷◌, ◌++◌, Option, none, some, String, ltb, leb, ◌==◌,
  is_some_eq, if◌then◌else◌, length, get_elem?, unwrap_or,
}
use yarisugi.Prelude.Panics.{◌>>=◌}
use yarisugi.Storage.Store.{DenseNodeStore, CountryCode, label, untested_latency, insert}
use yarisugi.Storage.Metrics.{MetricsArena, is_verified}
use yarisugi.Gui.ViewState.{ViewState, projection}
use yarisugi.Gui.Display.{Color, latency_display, provenance_badge, country_text}

abbrev pub point_update_limit : ℕ
point_update_limit = 2048

pub record Shared : Type 0 where
  pub address : ℕ
  pub value : DenseNodeStore

-- The two cells of the snapshot.
pub record Snapshots : Type 0 where
  pub store : Shared
  pub metrics : MetricsArena

pub record Projection : Type 0 where
  pub store : Shared
  pub indices : List ℕ

pub data Notice : Type 0 where
  reset : Notice
  row_changed : ℕ → Notice

pub record VirtualNodeModel : Type 0 where
  pub snapshots : Snapshots
  pub projection : Projection
  pub reverse : ℕ → Option ℕ
  pub active_node_id : Option ℕ
  pub active_name : String
  pub desired_view : ViewState
  pub requests : List ViewState
  pub results : List Projection
  pub notices : List Notice

-- `NodeRowData`; `id` is the 32 bits of `node_id as i32`.
pub record NodeRowData : Type 0 where
  pub id : ℕ
  pub name : String
  pub country : CountryCode
  pub protocol : String
  pub latency_text : String
  pub latency_color : Color
  pub is_active : Bool
  pub badge_text : String
  pub badge_color : Color

-- The loop of `new`, from a row on.
unfoldable pub reverse_rows : List ℕ → (ℕ → Option ℕ) → ℕ → List ℕ → Option (ℕ → Option ℕ)
reverse_rows node_ids reverse row [] = some reverse
reverse_rows node_ids reverse row (dense_index ∷ indices) = do
  id ← get_elem? node_ids dense_index
  reverse_rows node_ids (insert id row reverse) (suc row) indices

-- The loop of `rebuild_reverse`, from a row on: an index out of range is skipped.
unfoldable pub rebuilt : List ℕ → (ℕ → Option ℕ) → ℕ → List ℕ → ℕ → Option ℕ
rebuilt node_ids reverse row [] = reverse
rebuilt node_ids reverse row (dense_index ∷ indices) = elim (get_elem? node_ids dense_index) [
  | none ↦ rebuilt node_ids reverse (suc row) indices
  | some id ↦ rebuilt node_ids (insert id row reverse) (suc row) indices
]

unfoldable pub new : (String → String) → Snapshots → ViewState → Option VirtualNodeModel
unfolding projection reverse_rows
new to_lowercase snapshots state = do
  indices ← projection to_lowercase state snapshots.store.value snapshots.metrics
  reverse ← reverse_rows snapshots.store.value.node_ids (λ id. none) 0 indices
  some (record {
    snapshots = snapshots;
    projection = record { store = snapshots.store; indices = indices };
    reverse = reverse;
    active_node_id = none;
    active_name = "No node selected";
    desired_view = state;
    requests = [];
    results = [];
    notices = [];
  })

abbrev pub last : {A : Type 0} → List A → Option A
last [] = none
last (x ∷ xs) = elim (last xs) [ none ↦ some x | some y ↦ some y ]

-- One round of the worker's loop: the newest request, if there is one, is projected. (While four
-- results wait, the sending blocks: the round has then not ended.)
unfoldable pub work : (String → String) → VirtualNodeModel → Option VirtualNodeModel
unfolding projection
work to_lowercase model = elim (last model.requests) [
  | none ↦ some model
  | some view ↦ do
    indices ← projection to_lowercase view model.snapshots.store.value model.snapshots.metrics
    some (record model {
      requests = [];
      results = model.results ++ (record { store = model.snapshots.store; indices = indices } ∷ []);
    })
]

unfoldable pub request_latest : VirtualNodeModel → VirtualNodeModel
request_latest model = record model { requests = model.requests ++ (model.desired_view ∷ []) }

unfoldable pub refresh : VirtualNodeModel → ViewState → VirtualNodeModel
unfolding request_latest
refresh model state = request_latest (record model { desired_view = state })

unfoldable pub rebuild_reverse : VirtualNodeModel → List ℕ → VirtualNodeModel
unfolding rebuilt
rebuild_reverse model indices = record model {
  reverse = rebuilt model.projection.store.value.node_ids (λ id. none) 0 indices;
}

abbrev pub notify : VirtualNodeModel → List Notice → VirtualNodeModel
notify model more = record model { notices = model.notices ++ more }

unfoldable pub apply_completed_projection : VirtualNodeModel → Bool × VirtualNodeModel
unfolding request_latest rebuild_reverse
apply_completed_projection model =
    let drained = record model { results = [] } in
    elim (last model.results) [
      | none ↦ (false, drained)
      | some projection ↦
          if projection.store.address == model.snapshots.store.address
          then (
            true,
            notify (rebuild_reverse (record drained { projection = projection }) projection.indices)
                (reset ∷ []),
          )
          else (false, request_latest drained)
    ]

-- The rows of the ids that are on the list.
unfoldable pub known_rows : (ℕ → Option ℕ) → List ℕ → List ℕ
known_rows reverse [] = []
known_rows reverse (id ∷ ids) = elim (reverse id) [
  | none ↦ known_rows reverse ids
  | some row ↦ row ∷ known_rows reverse ids
]

abbrev pub changes : List ℕ → List Notice
changes [] = []
changes (row ∷ rows) = row_changed row ∷ changes rows

unfoldable pub notify_metrics : VirtualNodeModel → List ℕ → Bool × VirtualNodeModel
unfolding known_rows
notify_metrics model node_ids =
    let rows = known_rows model.reverse node_ids in
    if ltb point_update_limit (length rows)
    then (true, notify model (reset ∷ []))
    else (false, notify model (changes rows))

-- The name of the first index on the list that is in range and has the id.
unfoldable pub name_of : DenseNodeStore → ℕ → List ℕ → Option String
name_of store node_id [] = some "No node selected"
name_of store node_id (index ∷ indices) =
    if ltb index (length store.node_ids) && is_some_eq (get_elem? store.node_ids index) node_id
    then get_elem? store.names index
    else name_of store node_id indices

unfoldable pub refresh_active_name : VirtualNodeModel → ℕ → Option VirtualNodeModel
unfolding name_of
refresh_active_name model node_id = do
  name ← name_of model.projection.store.value node_id model.projection.indices
  some (record model { active_name = name })

-- `[prior, Some(node_id)].into_iter().flatten()`
unfoldable pub selected_ids : Option ℕ → ℕ → List ℕ
selected_ids none node_id = node_id ∷ []
selected_ids (some prior) node_id = prior ∷ node_id ∷ []

unfoldable pub select_node : VirtualNodeModel → ℕ → Option VirtualNodeModel
unfolding refresh_active_name known_rows selected_ids
select_node model node_id = do
  named ← refresh_active_name (record model { active_node_id = some node_id }) node_id
  some (
      notify named (changes (known_rows named.reverse (selected_ids model.active_node_id node_id))))

unfoldable pub row_count : VirtualNodeModel → ℕ
row_count model = length model.projection.indices

-- The row of an index in range.
unfoldable pub row_of : VirtualNodeModel → ℕ → Option NodeRowData
unfolding latency_display provenance_badge country_text is_verified label
row_of model dense_index =
    let store = model.projection.store.value in
    let metrics = model.snapshots.metrics in
    let latency = unwrap_or (get_elem? metrics.latencies_ms dense_index) untested_latency in
    let verified = is_verified metrics dense_index in
    do
      country ← get_elem? store.country_codes dense_index
      node_id ← get_elem? store.node_ids dense_index
      name ← get_elem? store.names dense_index
      protocol ← get_elem? store.protocol_kinds dense_index
      some (record {
        id = node_id;
        name = name;
        country = country_text country;
        protocol = label protocol;
        latency_text = (latency_display latency verified).0;
        latency_color = (latency_display latency verified).1;
        is_active = is_some_eq model.active_node_id node_id;
        badge_text = (provenance_badge latency verified).0;
        badge_color = (provenance_badge latency verified).1;
      })

-- The outer option is a panic, the inner one the answer of `row_data`.
unfoldable pub row_data : VirtualNodeModel → ℕ → Option (Option NodeRowData)
unfolding row_of
row_data model row = elim (get_elem? model.projection.indices row) [
  | none ↦ some none
  | some dense_index ↦
      if leb (length model.projection.store.value.node_ids) dense_index
      then some none
      else do shown ← row_of model dense_index; some (some shown)
]
