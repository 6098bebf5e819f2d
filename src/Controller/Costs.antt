-- ===== src/Controller/Costs.antt =====
-- crates/controller/src/auto_select.rs: the order of the costs, without NaN.
use yarisugi.Prelude.{
  ℕ, ◌≡◌, ◌≢◌, refl, sym, ap, ◌∙◌, Option, none, some, Ordering, compare, arith, unwrap_or,
}
use yarisugi.Prelude.Sorting.{then_with, flip, compare-flip}
use yarisugi.Controller.Tracks.{Floats}
use yarisugi.Controller.AutoSelect.{RankedNode, rank_order}

-- An answer, reversed.
abbrev pub reversed : Option Ordering → Option Ordering
reversed none = none
reversed (some o) = some (flip o)

-- What `partial_cmp` documents of floats that are not NaN: it has an answer, is dual, and is
-- transitive. With a NaN among the costs the order of `sort_by` is not total, and it may panic.
pub record FloatLaws (floats : Floats) : Type 0 where
  pub partial_cmp_total : (a b : floats.F64) → (o : Ordering) × (floats.partial_cmp a b ≡ some o)
  pub partial_cmp_dual :
      (a b : floats.F64) → floats.partial_cmp a b ≡ reversed (floats.partial_cmp b a)
  pub partial_cmp_trans :
      (a b c : floats.F64)
      → floats.partial_cmp a b ≢ some Ordering.gt
      → floats.partial_cmp b c ≢ some Ordering.gt
      → floats.partial_cmp a c ≢ some Ordering.gt

flip_lt : (o : Ordering) → Ordering.lt ≡ flip o → o ≡ Ordering.gt
flip_lt Ordering.lt h = cc
flip_lt Ordering.eq h = cc
flip_lt Ordering.gt h = refl

flip_eq : (o : Ordering) → Ordering.eq ≡ flip o → o ≡ Ordering.eq
flip_eq Ordering.lt h = cc
flip_eq Ordering.eq h = refl
flip_eq Ordering.gt h = cc

-- Two transitive orders, one after the other.
then_with_trans :
    (ab ba bc cb ac ca : Ordering)
    → ab ≡ flip ba
    → bc ≡ flip cb
    → ac ≡ flip ca
    → (ab ≢ Ordering.gt → bc ≢ Ordering.gt → ac ≢ Ordering.gt)
    → (bc ≢ Ordering.gt → ca ≢ Ordering.gt → ba ≢ Ordering.gt)
    → (ca ≢ Ordering.gt → ab ≢ Ordering.gt → cb ≢ Ordering.gt)
    → (i j k : ℕ) → then_with ab (compare i j) ≢ Ordering.gt
    → then_with bc (compare j k) ≢ Ordering.gt
    → then_with ac (compare i k) ≢ Ordering.gt
then_with_trans Ordering.gt ba bc cb ac ca d e f t u v i j k h g = absurd (h refl)
then_with_trans ab ba Ordering.gt cb ac ca d e f t u v i j k h g = absurd (g refl)
then_with_trans ab ba bc cb Ordering.lt ca d e f t u v i j k h g = λ k. cc
then_with_trans Ordering.lt ba Ordering.lt cb Ordering.gt ca d e f t u v i j k h g =
    absurd (t (λ k. cc) (λ k. cc) refl)
then_with_trans Ordering.lt ba Ordering.eq cb Ordering.gt ca d e f t u v i j k h g =
    absurd (t (λ k. cc) (λ k. cc) refl)
then_with_trans Ordering.eq ba Ordering.lt cb Ordering.gt ca d e f t u v i j k h g =
    absurd (t (λ k. cc) (λ k. cc) refl)
then_with_trans Ordering.eq ba Ordering.eq cb Ordering.gt ca d e f t u v i j k h g =
    absurd (t (λ k. cc) (λ k. cc) refl)
then_with_trans Ordering.eq ba Ordering.eq cb Ordering.eq ca d e f t u v i j k h g = ground arith
then_with_trans Ordering.lt ba bc cb Ordering.eq ca d e f t u v i j k h g =
    let same = flip_eq ca f in absurd (u (λ k. cc) (λ k. cc) (flip_lt ba d))
then_with_trans ab ba Ordering.lt cb Ordering.eq ca d e f t u v i j k h g =
    let same = flip_eq ca f in absurd (v (λ k. cc) (λ k. cc) (flip_lt cb e))

module _ (floats : Floats) (laws : FloatLaws floats) where
  pub rank_order-flip :
      (a b : RankedNode floats) → rank_order floats a b ≡ flip (rank_order floats b a)
  unfolding rank_order
  rank_order-flip a b =
      rw (laws.partial_cmp_dual a.cost b.cost)
        (dual (floats.partial_cmp b.cost a.cost) a.node_index b.node_index)
    where
      dual :
          (o : Option Ordering) (i j : ℕ)
          → then_with (unwrap_or (reversed o) Ordering.eq) (compare i j)
            ≡ flip (then_with (unwrap_or o Ordering.eq) (compare j i))
      dual none i j = compare-flip i j
      dual (some Ordering.lt) i j = refl
      dual (some Ordering.eq) i j = compare-flip i j
      dual (some Ordering.gt) i j = refl

  -- The costs come first, and then the indices.
  cost_order : RankedNode floats → RankedNode floats → Ordering
  cost_order a b = (laws.partial_cmp_total a.cost b.cost).0

  rank_order-cost_order :
      (a b : RankedNode floats)
      → rank_order floats a b ≡ then_with (cost_order a b) (compare a.node_index b.node_index)
  unfolding rank_order cost_order
  rank_order-cost_order a b = rw ((laws.partial_cmp_total a.cost b.cost).1) refl

  cost_order-flip : (a b : RankedNode floats) → cost_order a b ≡ flip (cost_order b a)
  unfolding cost_order
  cost_order-flip a b =
      let (o, ab) = laws.partial_cmp_total a.cost b.cost in
      let (o', ba) = laws.partial_cmp_total b.cost a.cost in
      let dual = laws.partial_cmp_dual a.cost b.cost in
      some-injective (sym ab ∙ dual ∙ ap reversed ba)
    where
      some-injective : {o o' : Ordering} → some o ≡ some o' → o ≡ o'
      some-injective h = cc

  cost_order_trans :
      (a b c : RankedNode floats)
      → cost_order a b ≢ Ordering.gt
      → cost_order b c ≢ Ordering.gt
      → cost_order a c ≢ Ordering.gt
  unfolding cost_order
  cost_order_trans a b c h g =
      answers (laws.partial_cmp_total a.cost b.cost) (laws.partial_cmp_total b.cost c.cost)
        (laws.partial_cmp_total a.cost c.cost) (laws.partial_cmp_trans a.cost b.cost c.cost) h g
    where
      answers :
          {x y z : Option Ordering} (p : (o : Ordering) × (x ≡ some o))
          (q : (o : Ordering) × (y ≡ some o)) (r : (o : Ordering) × (z ≡ some o))
          → (x ≢ some Ordering.gt → y ≢ some Ordering.gt → z ≢ some Ordering.gt)
          → p.0 ≢ Ordering.gt
          → q.0 ≢ Ordering.gt
          → r.0 ≢ Ordering.gt
      answers (o, x_is) (o', y_is) (o'', z_is) trans h g e =
          trans (λ k. h (cc)) (λ k. g (cc)) (z_is ∙ ap some e)

  -- The order of the ranking is transitive.
  pub rank_order_trans :
      (a b c : RankedNode floats)
      → rank_order floats a b ≢ Ordering.gt
      → rank_order floats b c ≢ Ordering.gt
      → rank_order floats a c ≢ Ordering.gt
  rank_order_trans a b c h g = rw rank_order-cost_order (
      then_with_trans (cost_order a b) (cost_order b a) (cost_order b c) (cost_order c b)
        (cost_order a c) (cost_order c a) (cost_order-flip a b) (cost_order-flip b c)
        (cost_order-flip a c) (cost_order_trans a b c) (cost_order_trans b c a)
        (cost_order_trans c a b) a.node_index b.node_index c.node_index
        (rw rank_order-cost_order at h) (rw rank_order-cost_order at g))
