-- ===== src/Gui/Reverse.antt =====
-- crates/gui/src/virtual_model.rs, `rebuild_reverse`: the map from ids to rows against the list.
use yarisugi.Prelude.{
  ℕ, zero, suc, ◌+◌, ◌≡◌, refl, ap, ◌∙◌, inl, inr, List, [], ◌∷◌, Option, some, arith, ◌==◌, ==_iff,
  Bool-cases, Option-cases, get_elem?,
}
use yarisugi.Storage.Store.{insert}
use yarisugi.Gui.VirtualModel.{VirtualNodeModel, rebuilt}

-- Each row of the map is the row of an index whose node has the id.
abbrev pub Fits : List ℕ → List ℕ → (ℕ → Option ℕ) → Type 0
Fits indices node_ids reverse =
    (id row : ℕ)
    → reverse id ≡ some row
    → (d : ℕ) × (get_elem? indices row ≡ some d) × (get_elem? node_ids d ≡ some id)

-- The map has a row for the id of each node on the list.
abbrev pub Covers : List ℕ → List ℕ → (ℕ → Option ℕ) → Type 0
Covers indices node_ids reverse =
    (row d id : ℕ)
    → get_elem? indices row ≡ some d
    → get_elem? node_ids d ≡ some id
    → (other : ℕ) × (reverse id ≡ some other)

abbrev pub ModelFits : VirtualNodeModel → Type 0
ModelFits model =
    Fits model.projection.indices model.projection.store.value.node_ids model.reverse
    × Covers model.projection.indices model.projection.store.value.node_ids model.reverse

insert-Fits :
    (indices node_ids : List ℕ) (reverse : ℕ → Option ℕ) (id row d : ℕ)
    → get_elem? indices row ≡ some d
    → get_elem? node_ids d ≡ some id
    → Fits indices node_ids reverse
    → Fits indices node_ids (insert id row reverse)
insert-Fits indices node_ids reverse id row d at_row at_d f id' row' h =
    elim (Bool-cases (id' == id)) [
      | inl hit ↦
          let same : id' ≡ id = (==_iff id' id).0 hit in
          let here : row ≡ row' = ground (arith, rw hit at h) in
          (d, rw (← here) at_row, rw same at_d)
      | inr miss ↦ f id' row' (rw miss at h)
    ]

pub rebuilt-Fits :
    (all node_ids : List ℕ) (reverse : ℕ → Option ℕ) (row : ℕ) (indices : List ℕ)
    → ((d : ℕ) → get_elem? all (d + row) ≡ get_elem? indices d)
    → Fits all node_ids reverse
    → Fits all node_ids (rebuilt node_ids reverse row indices)
unfolding rebuilt
rebuilt-Fits all node_ids reverse row [] at f = f
rebuilt-Fits all node_ids reverse row (x ∷ xs) at f =
    let here : get_elem? all row ≡ some x = ap (get_elem? all) (omega arith) ∙ at 0 in
    let next : (d : ℕ) → get_elem? all (d + suc row) ≡ get_elem? xs d =
      λ d. ap (get_elem? all) (omega arith) ∙ at (suc d) in
    elim (Option-cases (get_elem? node_ids x)) [
      | inl e ↦ rw (e, rebuilt) (rebuilt-Fits all node_ids reverse (suc row) xs next f)
      | inr (id, e) ↦
          rw (e, rebuilt)
            (rebuilt-Fits all node_ids (insert id row reverse) (suc row) xs next
              (insert-Fits all node_ids reverse id row x here e f))
    ]

-- An id that the map has stays in it.
insert-has :
    (reverse : ℕ → Option ℕ) (id row wanted old : ℕ)
    → reverse wanted ≡ some old
    → (other : ℕ) × (insert id row reverse wanted ≡ some other)
insert-has reverse id row wanted old h = elim (Bool-cases (wanted == id)) [
  | inl hit ↦ (row, rw hit refl)
  | inr miss ↦ (old, rw miss h)
]

rebuilt-has :
    (node_ids : List ℕ) (reverse : ℕ → Option ℕ) (row : ℕ) (indices : List ℕ) (wanted old : ℕ)
    → reverse wanted ≡ some old
    → (other : ℕ) × (rebuilt node_ids reverse row indices wanted ≡ some other)
unfolding rebuilt
rebuilt-has node_ids reverse row [] wanted old h = (old, h)
rebuilt-has node_ids reverse row (x ∷ xs) wanted old h =
    elim (Option-cases (get_elem? node_ids x)) [
      | inl e ↦ rw (e, rebuilt) (rebuilt-has node_ids reverse (suc row) xs wanted old h)
      | inr (id, e) ↦
          let (other, kept) = insert-has reverse id row wanted old h in
          rw (e, rebuilt)
            (rebuilt-has node_ids (insert id row reverse) (suc row) xs wanted other kept)
    ]

pub rebuilt-Covers :
    (node_ids : List ℕ) (reverse : ℕ → Option ℕ) (row : ℕ) (indices : List ℕ)
    → Covers indices node_ids (rebuilt node_ids reverse row indices)
unfolding rebuilt
rebuilt-Covers node_ids reverse row [] r d id at_row at_d = cc
rebuilt-Covers node_ids reverse row (x ∷ xs) zero d id at_row at_d =
    let same : x ≡ d = cc in
    let here : get_elem? node_ids x ≡ some id = ap (get_elem? node_ids) same ∙ at_d in
    let there : insert id row reverse id ≡ some row = rw ((==_iff id id).1 refl) refl in
    rw (here, rebuilt) (rebuilt-has node_ids (insert id row reverse) (suc row) xs id row there)
rebuilt-Covers node_ids reverse row (x ∷ xs) (suc r) d id at_row at_d =
    elim (Option-cases (get_elem? node_ids x)) [
      | inl e ↦ rw (e, rebuilt) (rebuilt-Covers node_ids reverse (suc row) xs r d id at_row at_d)
      | inr (first, e) ↦
          rw (e, rebuilt)
            (rebuilt-Covers node_ids (insert first row reverse) (suc row) xs r d id at_row at_d)
    ]
