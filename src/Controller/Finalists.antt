-- ===== src/Controller/Finalists.antt =====
-- crates/controller/src/proxy_controller.rs, `select_finalists`: who is promoted to a full trial.
use mathlib.Core.List.{Perm}
use mathlib.Core.List.Perm
use yarisugi.Prelude.{
  ℕ, zero, suc, ◌+◌, ◌≤◌, ◌<◌, min, compare, ◌≡◌, refl, ap, subst, ◌∙◌, true, List, ◌++◌, keep_if,
  some, arith, All, length, take, drop,
}
use yarisugi.Prelude.Sorting.{sort_by-IsSorted, IsSorted, compare-flip}
use yarisugi.Prelude.Ordered.{
  compare_iff, take-drop, length-take, All-map, All-and, All-take, All-keep_if, sort_by-length,
  IsSorted-split,
}
use yarisugi.Adapter.Scatter.{range}
use yarisugi.Controller.Scoring.{sort_numbers}
use yarisugi.Controller.Shortlist.{CheapOutcome, alive, latency_key, select_finalists}

range-below : (start n top : ℕ) → start + n ≤ top → All (λ i. i < top) (range start n)
range-below start zero top h = tt
range-below start (suc n) top h = (omega arith, range-below (suc start) n top (omega arith))

-- The row of the index is of a node that is not proven dead.
abbrev pub IsAlive : List CheapOutcome → ℕ → Type 0
IsAlive outcomes index = (alive outcomes index ≡ true) × (index < length outcomes)

sort_numbers-IsSorted :
    (P : ℕ → Type 0) (xs : List ℕ)
    → All P xs
    → (r : List ℕ) × (sort_numbers xs ≡ some r) × Perm xs r × All P r × IsSorted compare r
unfolding sort_numbers
sort_numbers-IsSorted P xs all =
    sort_by-IsSorted P (λ a b. some (compare a b)) compare (λ x y p q. refl) compare-flip xs all

-- The finalists are chosen without a panic. They are live candidates in ascending order, as many as
-- asked for or all that live; with the rest they are all live candidates, each once, and none of the
-- rest has answered faster.
pub select_finalists-fastest :
    (outcomes : List CheapOutcome) (finalists : ℕ)
    → (chosen rest : List ℕ) × (select_finalists outcomes finalists ≡ some chosen)
      × Perm (keep_if (alive outcomes) (range 0 (length outcomes))) (chosen ++ rest)
      × (length chosen
          ≡ min finalists (length (keep_if (alive outcomes) (range 0 (length outcomes)))))
      × IsSorted compare chosen
      × All (IsAlive outcomes) chosen
      × All (λ i. All (λ j. latency_key outcomes i ≤ latency_key outcomes j) rest) chosen
unfolding select_finalists sort_numbers
select_finalists-fastest outcomes finalists =
    let n = length outcomes in
    let key = latency_key outcomes in
    let living =
      All-keep_if (λ i. i < n) (alive outcomes) (range 0 n) (range-below 0 n n (omega arith)) in
    let (order, done, perm, all, sorted) =
      sort_by-IsSorted (IsAlive outcomes) (λ a b. some (compare (key a) (key b)))
        (λ a b. compare (key a) (key b)) (λ x y p q. refl) (λ x y. compare-flip (key x) (key y)) _
        living in
    let faster =
      IsSorted-split (λ a b. compare (key a) (key b)) (λ x y z h g. ground arith) finalists order
        sorted in
    let both = All-and _ _ (take finalists order) (All-take _ finalists order all) faster in
    let (chosen, done', perm', all', sorted') =
      sort_numbers-IsSorted _ (take finalists order) both in
    (
      chosen,
      drop finalists order,
      rw done done',
      Perm.trans perm (
          subst (λ xs. Perm xs (chosen ++ drop finalists order)) (take-drop finalists order)
            (Perm.append_right (drop finalists order) perm')),
      sort_by-length (λ a b. some (compare a b)) (take finalists order) done'
          ∙ length-take finalists order
          ∙ ap (min finalists) (sort_by-length (λ a b. some (compare (key a) (key b))) _ done),
      sorted',
      All-map _ _ chosen (λ i p. p.0) all',
      All-map _ _ chosen
          (λ i p. All-map _ _ (drop finalists order) (λ j. compare_iff (key i) (key j)) p.1) all',
    )
