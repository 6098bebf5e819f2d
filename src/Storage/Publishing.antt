-- ===== src/Storage/Publishing.antt =====
-- crates/storage/src/snapshot.rs: what a published batch of metrics does to the arena.
use yarisugi.Prelude.{
  ℕ, zero, suc, ◌<◌, ◌≡◌, refl, ap, ◌∙◌, ◌≢◌, Bool, false, List, [], ◌∷◌, Option, none, some, arith,
  min, ◌==◌, ==_iff, leb, if◌then◌else◌, length, get_elem?, set, length-set, get_elem?-set_self,
  get_elem?-set_ne, lt_of_get_elem?, Bool-cases, replicate, unwrap_or, Option-cases, inl, inr,
}
use yarisugi.Prelude.Panics.{set_elem?-some}
use yarisugi.Storage.Store.{DenseNodeStore, index_of}
use yarisugi.Storage.Metrics.{
  MetricsArena, from_store, apply_update, is_verified, MetricUpdate, StoreSnapshot, replace,
  apply_updates, publish_loaded, publish_metrics,
}

-- The columns that are written have one entry for each of `n` rows.
pub record HasRows (n : ℕ) (arena : MetricsArena) : Type 0 where
  pub latencies : length arena.latencies_ms ≡ n
  pub healths : length arena.health_scores ≡ n
  pub flags : length arena.verified ≡ n

-- The arena has a row for each node, and an index that the store gives is the node's row.
pub record IsAligned (s : StoreSnapshot) : Type 0 where
  pub rows : HasRows (length s.store.node_ids) s.metrics
  pub indexed : (k i : ℕ) → index_of s.store k ≡ some i → get_elem? s.store.node_ids i ≡ some k

-- The arena with one row written.
abbrev pub written : MetricsArena → ℕ → MetricUpdate → MetricsArena
written arena i u = record arena {
  latencies_ms = set arena.latencies_ms i u.latency_ms;
  health_scores = set arena.health_scores i (min u.health_score 100);
  verified = set arena.verified i u.verified;
}

apply_update-written :
    (n i : ℕ) (arena : MetricsArena) (u : MetricUpdate)
    → HasRows n arena
    → i < n
    → apply_update arena i u.latency_ms u.health_score u.verified ≡ some (written arena i u)
unfolding apply_update
apply_update-written n i arena u r h =
    let inside : leb (length arena.latencies_ms) i ≡ false = ground arith in
    rw
      (
        inside,
        set_elem?-some arena.latencies_ms i u.latency_ms (omega arith),
        set_elem?-some arena.health_scores i (min u.health_score 100) (omega arith),
        set_elem?-some arena.verified i u.verified (omega arith),
      )
      refl

apply_update-skipped :
    (n i : ℕ) (arena : MetricsArena) (u : MetricUpdate)
    → HasRows n arena
    → (i < n → ⊥)
    → apply_update arena i u.latency_ms u.health_score u.verified ≡ some arena
unfolding apply_update
apply_update-skipped n i arena u r h = ground arith

written-HasRows :
    (n i : ℕ) (arena : MetricsArena) (u : MetricUpdate)
    → HasRows n arena
    → HasRows n (written arena i u)
written-HasRows n i arena u r = record {
  latencies = length-set arena.latencies_ms i u.latency_ms ∙ r.latencies;
  healths = length-set arena.health_scores i (min u.health_score 100) ∙ r.healths;
  flags = length-set arena.verified i u.verified ∙ r.flags;
}

-- What the arena holds of a row.
abbrev pub reading : MetricsArena → ℕ → Option ℕ × Option ℕ × Option Bool
reading arena i =
    (get_elem? arena.latencies_ms i, get_elem? arena.health_scores i, get_elem? arena.verified i)

-- What the last update of the batch for a node makes of its row.
abbrev pub after_updates :
    ℕ → List MetricUpdate → Option ℕ × Option ℕ × Option Bool → Option ℕ × Option ℕ × Option Bool
after_updates k [] old = old
after_updates k (u ∷ us) old = after_updates k us (
    if u.node_id == k
    then (some u.latency_ms, some (min u.health_score 100), some u.verified)
    else old)

module _ (store : DenseNodeStore)
    (indexed : (k i : ℕ) → index_of store k ≡ some i → get_elem? store.node_ids i ≡ some k) where
  reading-absent :
      (arena : MetricsArena) (u : MetricUpdate) (k i : ℕ)
      → index_of store u.node_id ≡ none
      → index_of store k ≡ some i
      → reading arena i ≡ (
          if u.node_id == k
          then (some u.latency_ms, some (min u.health_score 100), some u.verified)
          else reading arena i)
  reading-absent arena u k i e h = elim (Bool-cases (u.node_id == k)) [
    | inl hit ↦ absurd (cc (e, h, ap (index_of store) ((==_iff u.node_id k).0 hit)))
    | inr miss ↦ rw miss refl
  ]

  reading-written :
      (arena : MetricsArena) (u : MetricUpdate) (j k i : ℕ)
      → HasRows (length store.node_ids) arena
      → index_of store u.node_id ≡ some j
      → index_of store k ≡ some i
      → reading (written arena j u) i ≡ (
          if u.node_id == k
          then (some u.latency_ms, some (min u.health_score 100), some u.verified)
          else reading arena i)
  reading-written arena u j k i r e h = elim (Bool-cases (u.node_id == k)) [
    | inl hit ↦
        let here : j ≡ i = cc (e, h, ap (index_of store) ((==_iff u.node_id k).0 hit)) in
        let small : j < length store.node_ids =
          lt_of_get_elem? store.node_ids j (indexed u.node_id j e) in
        rw (hit, ← here)
          (cc (
            get_elem?-set_self arena.latencies_ms j u.latency_ms (omega arith),
            get_elem?-set_self arena.health_scores j (min u.health_score 100) (omega arith),
            get_elem?-set_self arena.verified j u.verified (omega arith),
          ))
    | inr miss ↦
        let other : j ≢ i =
          λ here. ground (arith, indexed u.node_id j e, indexed k i h, ==_iff u.node_id k) in
        rw
          (
            miss,
            get_elem?-set_ne arena.latencies_ms j i u.latency_ms other,
            get_elem?-set_ne arena.health_scores j i (min u.health_score 100) other,
            get_elem?-set_ne arena.verified j i u.verified other,
          )
          refl
  ]

  apply_updates-reading :
      (arena : MetricsArena) (us : List MetricUpdate)
      → HasRows (length store.node_ids) arena
      → (arena' : MetricsArena) × (apply_updates store arena us ≡ some arena')
        × HasRows (length store.node_ids) arena'
        × ((k i : ℕ)
            → index_of store k ≡ some i
            → reading arena' i ≡ after_updates k us (reading arena i))
  unfolding apply_updates
  apply_updates-reading arena [] r = (arena, refl, r, λ k i h. refl)
  apply_updates-reading arena (u ∷ us) r = elim (Option-cases (index_of store u.node_id)) [
    | inl e ↦
        let (arena', done, r', ih) = apply_updates-reading arena us r in
        (
          arena',
          rw (e, apply_updates) done,
          r',
          λ k i h. ih k i h ∙ ap (after_updates k us) (reading-absent arena u k i e h),
        )
    | inr (j, e) ↦
        let small = lt_of_get_elem? store.node_ids j (indexed u.node_id j e) in
        let (arena', done, r', ih) =
          apply_updates-reading (written arena j u) us (written-HasRows _ j arena u r) in
        (
          arena',
          rw (e, apply_updates, apply_update-written _ j arena u r small) done,
          r',
          λ k i h. ih k i h ∙ ap (after_updates k us) (reading-written arena u j k i r e h),
        )
  ]

-- On an aligned snapshot a batch is published without a panic. The store is untouched, the
-- snapshot stays aligned, and the row of each node holds what the last update of the batch for
-- that node says, health capped at 100, or what it held if there is none.
pub publish_metrics-after_updates :
    (s : StoreSnapshot) (us : List MetricUpdate)
    → IsAligned s
    → (s' : StoreSnapshot) × (publish_metrics s us ≡ some s')
      × (s'.store ≡ s.store)
      × IsAligned s'
      × ((k i : ℕ)
          → index_of s.store k ≡ some i
          → reading s'.metrics i ≡ after_updates k us (reading s.metrics i))
unfolding publish_metrics
publish_metrics-after_updates s us a =
    let (arena, done, r, readings) = apply_updates-reading s.store a.indexed s.metrics us a.rows in
    (
      record s { metrics = arena },
      rw done refl,
      refl,
      record { rows = r; indexed = a.indexed },
      readings,
    )

unverified : (n i : ℕ) → unwrap_or (get_elem? (replicate n false) i) false ≡ false
unverified zero i = refl
unverified (suc n) zero = refl
unverified (suc n) (suc i) = unverified n i

-- A snapshot that replaces another certifies nothing: no row is verified.
pub is_verified-replace :
    (s : StoreSnapshot) (store : DenseNodeStore) (i : ℕ)
    → is_verified (replace s store).metrics i ≡ false
unfolding is_verified replace from_store
is_verified-replace s store i = unverified (length store.node_ids) i

apply_update-length :
    (arena arena' : MetricsArena) (i latency health : ℕ) (flag : Bool)
    → apply_update arena i latency health flag ≡ some arena'
    → length arena'.latencies_ms ≡ length arena.latencies_ms
unfolding apply_update
apply_update-length arena arena' i latency health flag h =
    ground (arith, length-set arena.latencies_ms i latency)

apply_updates-length :
    (store : DenseNodeStore) (arena arena' : MetricsArena) (us : List MetricUpdate)
    → apply_updates store arena us ≡ some arena'
    → length arena'.latencies_ms ≡ length arena.latencies_ms
unfolding apply_updates
apply_updates-length store arena arena' [] h = ground arith
apply_updates-length store arena arena' (u ∷ us) h =
    elim (Option-cases (index_of store u.node_id)) [
      | inl e ↦ apply_updates-length store arena arena' us (rw (e, apply_updates) at h)
      | inr (j, e) ↦
          elim (Option-cases (apply_update arena j u.latency_ms u.health_score u.verified)) [
            | inl panics ↦ absurd (cc (rw (e, apply_updates, panics) at h))
            | inr (mid, done) ↦
                apply_updates-length store mid arena' us (rw (e, apply_updates, done) at h)
                ∙ apply_update-length arena mid j u.latency_ms u.health_score u.verified done
          ]
    ]

-- A batch that loads the arena of one aligned snapshot and is published over another, with another number
-- of nodes, leaves a snapshot that is not aligned: its arena has the rows of the first.
pub publish_loaded-misaligned :
    (s t t' : StoreSnapshot) (us : List MetricUpdate)
    → IsAligned s
    → length t.store.node_ids ≢ length s.store.node_ids
    → publish_loaded s.metrics t us ≡ some t'
    → ¬ IsAligned t'
unfolding publish_loaded
publish_loaded-misaligned s t t' us a other h b =
    elim (Option-cases (apply_updates t.store s.metrics us)) [
      | inl panics ↦ absurd (cc (rw panics at h))
      | inr (arena, done) ↦
          ground (arith, rw done at h, apply_updates-length t.store s.metrics arena us done)
    ]
