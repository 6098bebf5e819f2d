-- ===== src/Gui/Tests.antt =====
-- Runs of the list model, and its theorems at inputs that meet their hypotheses.
use yarisugi.Prelude.{◌<◌, ◌≤◌, ◌≡◌, refl, [], ◌∷◌, none, some, String, arith, length}
use yarisugi.Storage.Store.{HotNodeRow, DenseNodeStore, from_hot_rows, vless, label}
use yarisugi.Storage.Represents.{from_hot_rows-Represents}
use yarisugi.Storage.Metrics.{from_store}
use yarisugi.Storage.Order.{row_at}
use yarisugi.Gui.ViewState.{default_view}
use yarisugi.Gui.VirtualModel.{
  Shared, VirtualNodeModel, NodeRowData, apply_completed_projection, row_data,
}
use yarisugi.Gui.Reverse.{ModelFits}
use yarisugi.Gui.Rows.{Installs, apply_completed_projection-ModelFits, row_data-row_at}

abbrev same : String → String
same s = s

abbrev tokyo : HotNodeRow
tokyo = record {
  id = 7;
  country_code = (b'J', b'P');
  latency_ms = 90;
  health_score = 50;
  name = "tokyo";
  protocol = vless;
  source_sub_ids = 1 ∷ [];
}

abbrev store : DenseNodeStore
store = from_hot_rows same (tokyo ∷ [])

abbrev shared : Shared
shared = record { address = 1; value = store }

-- A model of an empty list, to which the worker has sent a list of one row.
abbrev model : VirtualNodeModel
model = record {
  snapshots = record { store = shared; metrics = from_store store };
  projection = record { store = shared; indices = [] };
  reverse = λ id. none;
  active_node_id = none;
  active_name = "No node selected";
  desired_view = default_view;
  requests = [];
  results = record { store = shared; indices = 0 ∷ [] } ∷ [];
  notices = [];
}

abbrev full : VirtualNodeModel
full = record model { projection = record { store = shared; indices = 0 ∷ [] } }

installed : (apply_completed_projection model).1.reverse 7 ≡ some 0
unfolding apply_completed_projection from_hot_rows
installed = refl

apply_completed_projection-ModelFits_example :
    ModelFits (apply_completed_projection model).1
    × Installs model (apply_completed_projection model)
apply_completed_projection-ModelFits_example =
    apply_completed_projection-ModelFits model (λ id row h. cc, λ row d id h g. cc)

row_data-row_at_example :
    (0 < length (tokyo ∷ [])
      → (shown : NodeRowData) × (row_data full 0 ≡ some (some shown))
        × (shown.id ≡ (row_at (tokyo ∷ []) 0).id)
        × (shown.name ≡ (row_at (tokyo ∷ []) 0).name)
        × (shown.protocol ≡ label (row_at (tokyo ∷ []) 0).protocol))
    × (length (tokyo ∷ []) ≤ 0 → row_data full 0 ≡ some none)
row_data-row_at_example =
    row_data-row_at same full (tokyo ∷ []) 0 0
      (from_hot_rows-Represents same (tokyo ∷ []) (omega arith)) refl
