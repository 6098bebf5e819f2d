-- ===== src/Storage/Represents.antt =====
-- crates/storage/src/soa_store.rs: the columns of a store against the rows that they stand for.
use mathlib.Core.List.{map-append, append-nil, append_assoc}
use yarisugi.Prelude.{
  ℕ, zero, suc, ◌+◌, ◌^◌, ◌<◌, ◌≡◌, refl, sym, ap, ◌∙◌, ◌↔◌, ◌⊎◌, inl, inr, List, [], ◌∷◌, ◌++◌,
  map, Option, none, some, String, arith, min, ◌==◌, if◌then◌else◌, length, length-append,
  length-map, get_elem?, get_elem?-map, get_elem?-map_inv, Option-cases,
}
use yarisugi.Prelude.Panics.{slice?, slice?-append_middle}
use yarisugi.Storage.Store.{
  HotNodeRow, DenseNodeStore, push, push_row, push_rows, from_hot_rows, as_u32, contains_id,
  has_source, index_of,
}

abbrev pub all_sources : List HotNodeRow → List ℕ
all_sources [] = []
all_sources (row ∷ rows) = row.source_sub_ids ++ all_sources rows

-- Where the sources of each row end, if those before them take `n` places.
abbrev pub ends_from : ℕ → List HotNodeRow → List ℕ
ends_from n [] = []
ends_from n (row ∷ rows) =
    (n + length row.source_sub_ids) ∷ ends_from (n + length row.source_sub_ids) rows

-- The last position, counted from `i`, of a row with the id.
abbrev pub last_index : ℕ → ℕ → List HotNodeRow → Option ℕ
last_index k i [] = none
last_index k i (row ∷ rows) = elim (last_index k (suc i) rows) [
  | some j ↦ some j
  | none ↦ if row.id == k then some i else none
]

pub record Represents (to_lowercase : String → String) (rows : List HotNodeRow) (s : DenseNodeStore)
    : Type 0 where
  pub ids : s.node_ids ≡ map (λ row. row.id) rows
  pub countries : s.country_codes ≡ map (λ row. row.country_code) rows
  pub latencies : s.latencies_ms ≡ map (λ row. row.latency_ms) rows
  pub healths : s.health_scores ≡ map (λ row. min row.health_score 100) rows
  pub protocols : s.protocol_kinds ≡ map (λ row. row.protocol) rows
  pub named : s.names ≡ map (λ row. row.name) rows
  pub lowered : s.name_lower ≡ map (λ row. to_lowercase row.name) rows
  pub sources : s.source_sub_ids ≡ all_sources rows
  pub offsets : s.source_offsets ≡ 0 ∷ ends_from 0 rows
  pub indexed : (k : ℕ) → s.id_to_index k ≡ last_index k 0 rows

-- Some row has the id.
abbrev pub Has : ℕ → List HotNodeRow → Type 0
Has k [] = ⊥
Has k (row ∷ rows) = (row.id ≡ k) ⊎ Has k rows

abbrev pub HasDistinctIds : List HotNodeRow → Type 0
HasDistinctIds [] = Unit {0}
HasDistinctIds (row ∷ rows) = (¬ Has row.id rows) × HasDistinctIds rows

all_sources-append :
    (rows more : List HotNodeRow)
    → all_sources (rows ++ more) ≡ all_sources rows ++ all_sources more
all_sources-append [] more = refl
all_sources-append (row ∷ rows) more =
    rw (all_sources-append rows more) (sym (append_assoc row.source_sub_ids _ _))

ends_from-append :
    (n : ℕ) (rows more : List HotNodeRow)
    → ends_from n (rows ++ more)
      ≡ ends_from n rows ++ ends_from (n + length (all_sources rows)) more
ends_from-append n [] more = ap (λ k. ends_from k more) (omega arith)
ends_from-append n (row ∷ rows) more = ap (◌∷◌ (n + length row.source_sub_ids)) (
    ends_from-append (n + length row.source_sub_ids) rows more
    ∙ ap (λ k. ends_from (n + length row.source_sub_ids) rows ++ ends_from k more)
        (omega (arith, length-append row.source_sub_ids (all_sources rows))))

last_index-push :
    (k i : ℕ) (rows : List HotNodeRow) (row : HotNodeRow)
    → last_index k i (rows ++ (row ∷ []))
      ≡ (if row.id == k then some (i + length rows) else last_index k i rows)
last_index-push k i [] row = ground arith
last_index-push k i (r ∷ rows) row = ground (arith, last_index-push k (suc i) rows row)

all_sources-push :
    (rows : List HotNodeRow) (row : HotNodeRow)
    → all_sources (rows ++ (row ∷ [])) ≡ all_sources rows ++ row.source_sub_ids
all_sources-push rows row =
    all_sources-append rows (row ∷ [])
    ∙ ap (◌++◌ (all_sources rows)) (append-nil row.source_sub_ids)

ends_from-push :
    (rows : List HotNodeRow) (row : HotNodeRow)
    → ends_from 0 (rows ++ (row ∷ []))
      ≡ push (ends_from 0 rows) (length (all_sources rows ++ row.source_sub_ids))
ends_from-push rows row =
    ends_from-append 0 rows (row ∷ [])
    ∙ ap (λ k. push (ends_from 0 rows) k)
        (omega (arith, length-append (all_sources rows) row.source_sub_ids))

module _ (to_lowercase : String → String) where
  push_row-Represents :
      (rows : List HotNodeRow) (row : HotNodeRow) (s : DenseNodeStore)
      → length (all_sources (rows ++ (row ∷ []))) < 2 ^ 32
      → Represents to_lowercase rows s
      → Represents to_lowercase (rows ++ (row ∷ [])) (push_row to_lowercase s row)
  unfolding push_row
  push_row-Represents rows row s small r = record {
    ids = rw (r.ids, map-append) refl;
    countries = rw (r.countries, map-append) refl;
    latencies = rw (r.latencies, map-append) refl;
    healths = rw (r.healths, map-append) refl;
    protocols = rw (r.protocols, map-append) refl;
    named = rw (r.named, map-append) refl;
    lowered = rw (r.lowered, map-append) refl;
    sources = rw (r.sources, all_sources-push rows row) refl;
    offsets =
        let total = length (all_sources rows ++ row.source_sub_ids) in
        let fits : as_u32 total ≡ total = omega (arith, ap length (all_sources-push rows row)) in
        rw (r.sources, r.offsets, fits, ends_from-push rows row) refl;
    indexed = λ k.
        let long : length s.node_ids ≡ length rows = ap length r.ids ∙ length-map _ rows in
        ground (arith, long, r.indexed k, last_index-push k 0 rows row);
  }

  push_rows-Represents :
      (done rows : List HotNodeRow) (s : DenseNodeStore)
      → length (all_sources (done ++ rows)) < 2 ^ 32
      → Represents to_lowercase done s
      → Represents to_lowercase (done ++ rows) (push_rows to_lowercase s rows)
  unfolding push_rows
  push_rows-Represents done [] s small r = rw append-nil r
  push_rows-Represents done (row ∷ rows) s small r =
      let e : done ++ (row ∷ rows) ≡ push done row ++ rows =
        sym (append_assoc done (row ∷ []) rows) in
      let small' = rw e at small in
      rw e (
        push_rows-Represents (push done row) rows _ small' (
          push_row-Represents done row s
            (omega (
              arith,
              ap length (all_sources-append (push done row) rows),
              length-append (all_sources (push done row)) (all_sources rows),
            ))
            r))

  -- The columns that `from_hot_rows` builds stand for its rows: each field in its column, the
  -- health score capped at 100, the sources of all rows in one list with the place where each
  -- row's end, and for each id the last row that has it; if there are fewer than 2 ^ 32 sources.
  pub from_hot_rows-Represents :
      (rows : List HotNodeRow)
      → length (all_sources rows) < 2 ^ 32
      → Represents to_lowercase rows (from_hot_rows to_lowercase rows)
  unfolding from_hot_rows
  from_hot_rows-Represents rows small = push_rows-Represents [] rows _ small (record {
    ids = refl;
    countries = refl;
    latencies = refl;
    healths = refl;
    protocols = refl;
    named = refl;
    lowered = refl;
    sources = refl;
    offsets = refl;
    indexed = λ k. refl;
  })

  has_source-from :
      (pre : List ℕ) (rows : List HotNodeRow) (i : ℕ) (row : HotNodeRow)
      → get_elem? rows i ≡ some row
      → (start end : ℕ) × (get_elem? (length pre ∷ ends_from (length pre) rows) i ≡ some start)
        × (get_elem? (ends_from (length pre) rows) i ≡ some end)
        × (slice? (pre ++ all_sources rows) start end ≡ some row.source_sub_ids)
  has_source-from pre [] i row h = cc
  has_source-from pre (r ∷ rows) zero row h = (
    length pre,
    length pre + length r.source_sub_ids,
    refl,
    refl,
    slice?-append_middle pre r.source_sub_ids (all_sources rows) ∙ ground arith,
  )
  has_source-from pre (r ∷ rows) (suc i) row h =
      let ih = has_source-from (pre ++ r.source_sub_ids) rows i row h in
      rw (length-append pre r.source_sub_ids, append_assoc pre r.source_sub_ids (all_sources rows))
        at ih

  -- On a store that stands for some rows, `has_source` does not panic at a row, and says whether
  -- that row has the source.
  pub has_source-contains_id :
      (rows : List HotNodeRow) (s : DenseNodeStore) (i sub_id : ℕ) (row : HotNodeRow)
      → Represents to_lowercase rows s
      → get_elem? rows i ≡ some row
      → has_source s i sub_id ≡ some (contains_id row.source_sub_ids sub_id)
  unfolding has_source
  has_source-contains_id rows s i sub_id row r h =
      let (start, end, at_start, at_end, sliced) = has_source-from [] rows i row h in
      rw (r.offsets, r.sources, at_start, at_end, sliced) refl

  -- Where the ids of the rows differ, the index of each row is found by its id.
  last_index-none : (k i : ℕ) (rows : List HotNodeRow) → ¬ Has k rows → last_index k i rows ≡ none
  last_index-none k i [] h = refl
  last_index-none k i (row ∷ rows) h = ground (arith, last_index-none k (suc i) rows)

  last_index-some :
      (i j : ℕ) (rows : List HotNodeRow) (row : HotNodeRow)
      → HasDistinctIds rows
      → get_elem? rows j ≡ some row
      → last_index row.id i rows ≡ some (i + j)
  last_index-some i j [] row d h = cc
  last_index-some i zero (r ∷ rows) row d h = ground (arith, last_index-none r.id (suc i) rows)
  last_index-some i (suc j) (r ∷ rows) row d h =
      ground (arith, last_index-some (suc i) j rows row d.1 h)

  last_index-get :
      (k i j : ℕ) (rows : List HotNodeRow)
      → last_index k i rows ≡ some j
      → (d : ℕ) × (row : HotNodeRow) × (j ≡ i + d) × (get_elem? rows d ≡ some row) × (row.id ≡ k)
  last_index-get k i j [] h = cc
  last_index-get k i j (row ∷ rows) h = elim (Option-cases (last_index k (suc i) rows)) [
    | inl e ↦ (0, row, ground arith, refl, ground arith)
    | inr (j', e) ↦
        let (d, row', at_d, found, named) = last_index-get k (suc i) j' rows e in
        (suc d, row', ground arith, found, named)
  ]

  -- A store that stands for rows with different ids finds each of them, and nothing else.
  pub index_of_iff :
      (rows : List HotNodeRow) (s : DenseNodeStore) (k i : ℕ)
      → Represents to_lowercase rows s
      → HasDistinctIds rows
      → (index_of s k ≡ some i) ↔ (get_elem? s.node_ids i ≡ some k)
  unfolding index_of
  index_of_iff rows s k i r d = (
    λ h.
        let (j, row, at_j, found, named) = last_index-get k 0 i rows (sym (r.indexed k) ∙ h) in
        let at_row : i ≡ j = omega (arith, at_j) in
        rw (r.ids, at_row) (get_elem?-map (λ x. x.id) rows j found ∙ ap some named),
    λ h.
        let (row, found, named) = get_elem?-map_inv (λ x. x.id) rows i (rw r.ids at h) in
        r.indexed k ∙ rw (← named) (last_index-some 0 i rows row d found ∙ ap some (omega arith)),
  )
