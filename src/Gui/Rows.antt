-- ===== src/Gui/Rows.antt =====
-- crates/gui/src/virtual_model.rs: which projections are installed, what is told of metrics, and what a
-- row shows.
use yarisugi.Prelude.{
  ℕ, suc, ◌⊎◌, ◌≢◌, Bool, ◌+◌, ◌<◌, ◌≤◌, ◌≡◌, refl, ap, ◌∙◌, inl, inr, true, false, List, [], ◌∷◌,
  none, some, String, arith, ltb, leb, ◌==◌, ==_iff, Bool-cases, Option-cases, length,
  length-append, length-map, get_elem?, unwrap_or, is_some_eq,
}
use yarisugi.Storage.Store.{HotNodeRow, label, untested_latency}
use yarisugi.Storage.Metrics.{is_verified}
use yarisugi.Gui.Display.{latency_display, provenance_badge, country_text}
use yarisugi.Storage.Represents.{Represents}
use yarisugi.Storage.Order.{row_at, column-row_at}
use yarisugi.Gui.Reverse.{ModelFits, rebuilt-Fits, rebuilt-Covers}
use yarisugi.Gui.VirtualModel.{
  reset, VirtualNodeModel, Projection, NodeRowData, last, request_latest, rebuild_reverse,
  apply_completed_projection, known_rows, changes, notify_metrics, row_of, row_data,
}

-- What the newest result makes of the view: there is none, or its store is not the published one,
-- and the list and the map stay; or it is installed.
abbrev pub Installs : VirtualNodeModel → Bool × VirtualNodeModel → Type 0
Installs model (answer, after) =
    (((last model.results ≡ none)
        ⊎ ((stale : Projection) × (last model.results ≡ some stale)
            × (stale.store.address ≢ model.snapshots.store.address)))
      × (answer ≡ false)
      × (after.projection ≡ model.projection)
      × (after.reverse ≡ model.reverse))
    ⊎ ((newest : Projection) × (last model.results ≡ some newest)
        × (newest.store.address ≡ model.snapshots.store.address)
        × (answer ≡ true)
        × (after.projection ≡ newest))

-- The newest finished projection becomes the list exactly where its store is the one that is published,
-- and the answer says so; otherwise the list and the map stay. If the map fitted the list before, it
-- fits it afterwards: each of its rows is the row of a node with the id, and each node on the list has a row.
pub apply_completed_projection-ModelFits :
    (model : VirtualNodeModel)
    → ModelFits model
    → ModelFits (apply_completed_projection model).1
      × Installs model (apply_completed_projection model)
unfolding apply_completed_projection rebuild_reverse request_latest
apply_completed_projection-ModelFits model f = elim (Option-cases (last model.results)) [
  | inl e ↦ rw (e, apply_completed_projection) (f, inl (inl refl, refl, refl, refl))
  | inr (p, e) ↦ elim (Bool-cases (p.store.address == model.snapshots.store.address)) [
    | inl current ↦
        rw (e, apply_completed_projection, current)
          (
            (
              rebuilt-Fits p.indices p.store.value.node_ids (λ id. none) 0 p.indices
                  (λ d. ap (get_elem? p.indices) (omega arith)) (λ id row h. cc),
              rebuilt-Covers p.store.value.node_ids (λ id. none) 0 p.indices,
            ),
            inr (
              p,
              refl,
              (==_iff p.store.address model.snapshots.store.address).0 current,
              refl,
              refl,
            ),
          )
    | inr stale ↦
        let other : p.store.address ≢ model.snapshots.store.address = ground (arith, stale) in
        rw (e, apply_completed_projection, stale) (f, inl (inr (p, refl, other), refl, refl, refl))
  ]
]

length-changes : (rows : List ℕ) → length (changes rows) ≡ length rows
length-changes [] = refl
length-changes (row ∷ rows) = ap suc (length-changes rows)

-- A batch of metrics gives the view at most 2048 notices; it says true where it gives one reset,
-- which is where more than 2048 of the ids are on the list.
pub notify_metrics-le :
    (model : VirtualNodeModel) (ids : List ℕ)
    → (length (notify_metrics model ids).1.notices ≤ length model.notices + 2048)
      × ((notify_metrics model ids).0 ≡ ltb 2048 (length (known_rows model.reverse ids)))
unfolding notify_metrics
notify_metrics-le model ids = elim (Bool-cases (ltb 2048 (length (known_rows model.reverse ids)))) [
  | inl many ↦ rw many (omega (arith, length-append model.notices (reset ∷ [])), refl)
  | inr few ↦ rw few (
    omega (
      arith,
      length-append model.notices (changes (known_rows model.reverse ids)),
      length-changes (known_rows model.reverse ids),
      not_more (length (known_rows model.reverse ids)) few,
    ),
    refl,
  )
]
  where
    not_more : (n : ℕ) → ltb 2048 n ≡ false → n ≤ 2048
    not_more n h = ground arith

abbrev shown_row : VirtualNodeModel → HotNodeRow → ℕ → NodeRowData
shown_row model row d =
    let latency = unwrap_or (get_elem? model.snapshots.metrics.latencies_ms d) untested_latency in
    let verified = is_verified model.snapshots.metrics d in
    record {
      id = row.id;
      name = row.name;
      country = country_text row.country_code;
      protocol = label row.protocol;
      latency_text = (latency_display latency verified).0;
      latency_color = (latency_display latency verified).1;
      is_active = is_some_eq model.active_node_id row.id;
      badge_text = (provenance_badge latency verified).0;
      badge_color = (provenance_badge latency verified).1;
    }

module _ (to_lowercase : String → String) where
  -- Where the list's store stands for rows, `row_data` does not panic at an index in range, and shows
  -- the id, the name and the protocol of its row; past the end of the store it shows nothing.
  pub row_data-row_at :
      (model : VirtualNodeModel) (rows : List HotNodeRow) (row d : ℕ)
      → Represents to_lowercase rows model.projection.store.value
      → get_elem? model.projection.indices row ≡ some d
      → (d < length rows
          → (shown : NodeRowData) × (row_data model row ≡ some (some shown))
            × (shown.id ≡ (row_at rows d).id)
            × (shown.name ≡ (row_at rows d).name)
            × (shown.protocol ≡ label (row_at rows d).protocol))
        × (length rows ≤ d → row_data model row ≡ some none)
  unfolding row_data
  row_data-row_at model rows row d r at =
      let long : length model.projection.store.value.node_ids ≡ length rows =
        ap length r.ids ∙ length-map _ rows in
      (
        λ inside.
            let within : leb (length model.projection.store.value.node_ids) d ≡ false =
              ground arith in
            let countries = column-row_at _ _ rows d r.countries inside in
            let ids = column-row_at _ _ rows d r.ids inside in
            let named = column-row_at _ _ rows d r.named inside in
            let protocols = column-row_at _ _ rows d r.protocols inside in
            (
              shown_row model (row_at rows d) d,
              rw (at, row_data, within, row_of, countries, ids, named, protocols) refl,
              refl,
              refl,
              refl,
            ),
        λ outside.
            let past : leb (length model.projection.store.value.node_ids) d ≡ true = ground arith in
            rw (at, row_data, past) refl,
      )
