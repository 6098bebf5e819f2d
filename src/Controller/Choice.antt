-- ===== src/Controller/Choice.antt =====
-- crates/controller/src/auto_select.rs: what is ranked, and what can be chosen.
use mathlib.Core.List.{Perm}
use mathlib.Core.List.Perm
use yarisugi.Prelude.{
  ℕ, suc, ◌⊎◌, ◌≡◌, refl, subst, inl, inr, Bool, true, false, List, [], ◌∷◌, map, keep_if, Option,
  none, some, String, ◌==◌, ==_iff, Bool-cases, Option-cases, All, get_elem?,
}
use yarisugi.Prelude.Sorting.{sort_by-IsSorted, IsSorted, IsFirstLeast, IsSorted-IsFirstLeast}
use yarisugi.Controller.Costs.{FloatLaws, rank_order-flip, rank_order_trans}
use yarisugi.Controller.Tracks.{Floats, NodeTrack, AutoSelectConfig, CandidateScore}
use yarisugi.Controller.AutoSelect.{
  RankedNode, AutoDecision, adopted, kept, switch, no_verified_node, AutoSelector, ranked_node,
  rank_order, rank_working_nodes, should_switch, label_of, find_node, decide_best,
  decide_with_margin, decide,
}

-- Some score that passed its quorum is of the node.
abbrev pub IsVerified : List CandidateScore → ℕ → Type 0
IsVerified scores index =
    (i : ℕ) × (score : CandidateScore) × (get_elem? scores i ≡ some score)
    × (score.passes ≡ true)
    × (score.node_index ≡ index)

-- The incumbent is not ranked, or the cost with the margin is below its cost.
abbrev pub Yields :
    (floats : Floats) → List (RankedNode floats) → floats.F64 → ℕ → floats.F64 → Type 0
Yields floats ranked margin old cost =
    (find_node floats old ranked ≡ none)
    ⊎ ((current : RankedNode floats) × (find_node floats old ranked ≡ some current)
        × (floats.lt (floats.add cost margin) current.cost ≡ true))

-- What a decision may be, with the ranking, the margin and the incumbent that it is about.
abbrev pub IsSound :
    (floats : Floats)
    → List CandidateScore
    → List (RankedNode floats)
    → floats.F64
    → Option ℕ
    → AutoDecision floats
    → Type 0
IsSound floats scores ranked margin incumbent (adopted index label cost) =
    (incumbent ≡ none) × IsVerified scores index
IsSound floats scores ranked margin incumbent (kept index reason) =
    (incumbent ≡ some index) × IsVerified scores index
IsSound floats scores ranked margin incumbent (switch index label cost) =
    ((old : ℕ) × (incumbent ≡ some old) × Yields floats ranked margin old cost)
    × IsVerified scores index
IsSound floats scores ranked margin incumbent no_verified_node =
    keep_if (λ score. score.passes) scores ≡ []

pub IsVerified-cons :
    (score : CandidateScore) (scores : List CandidateScore) (index : ℕ)
    → IsVerified scores index
    → IsVerified (score ∷ scores) index
IsVerified-cons score scores index (i, s, at, passes, same) = (suc i, s, at, passes, same)

pub keep_if-nil : {A B : Type 0} (f : A → B) (xs : List A) → map f xs ≡ [] → xs ≡ []
keep_if-nil f [] h = refl
keep_if-nil f (x ∷ xs) h = cc

All-map :
    {A : Type 0} (P Q : A → Type 0) (xs : List A) → ((x : A) → P x → Q x) → All P xs → All Q xs
All-map P Q [] f h = tt
All-map P Q (x ∷ xs) f (p, ps) = (f x p, All-map P Q xs f ps)

kept_head :
    {A B : Type 0} (P : B → Type 0) (f : A → B) (b : Bool) (x : A) (xs : List A)
    → (b ≡ true → P (f x))
    → All P (map f xs)
    → All P (map f (elim b [ true ↦ x ∷ xs | false ↦ xs ]))
kept_head P f true x xs h all = (h refl, all)
kept_head P f false x xs h all = all

module _ (floats : Floats) (laws : FloatLaws floats) where
  passing-IsVerified :
      (tracks : ℕ → Option (NodeTrack floats)) (ids : List ℕ) (config : AutoSelectConfig floats)
      (now : ℕ) (scores : List CandidateScore)
      → All
          (λ node. IsVerified scores node.node_index)
          (map (ranked_node floats tracks ids config now) (keep_if (λ score. score.passes) scores))
  unfolding ranked_node
  passing-IsVerified tracks ids config now [] = tt
  passing-IsVerified tracks ids config now (score ∷ scores) =
      kept_head (λ node. IsVerified (score ∷ scores) node.node_index)
        (ranked_node floats tracks ids config now) score.passes score
        (keep_if (λ x. x.passes) scores) (λ passes. (0, score, refl, passes, refl))
        (All-map _ (λ node. IsVerified (score ∷ scores) node.node_index) _
          (λ node. IsVerified-cons score scores node.node_index)
          (passing-IsVerified tracks ids config now scores))

  -- Where no float is NaN (`FloatLaws`), ranking does not panic. It gives each score that passed its quorum once, and no other, in the
  -- order of the costs and then of the indices.
  pub rank_working_nodes-IsSorted :
      (scores : List CandidateScore) (tracks : ℕ → Option (NodeTrack floats)) (ids : List ℕ)
      (config : AutoSelectConfig floats) (now : ℕ)
      → (ranked : List (RankedNode floats)) × (rank_working_nodes floats scores tracks ids config
            now
          ≡ some ranked)
        × Perm
            (map
              (ranked_node floats tracks ids config now)
              (keep_if (λ score. score.passes) scores))
            ranked
        × All (λ node. IsVerified scores node.node_index) ranked
        × IsSorted (rank_order floats) ranked
  unfolding rank_working_nodes
  rank_working_nodes-IsSorted scores tracks ids config now =
      sort_by-IsSorted (λ node. IsVerified scores node.node_index)
        (λ a b. some (rank_order floats a b)) (rank_order floats) (λ a b p q. refl)
        (rank_order-flip floats laws) _ (passing-IsVerified tracks ids config now scores)

  find_node-IsVerified :
      (P : ℕ → Type 0) (index : ℕ) (ranked : List (RankedNode floats)) (node : RankedNode floats)
      → All (λ n. P n.node_index) ranked
      → find_node floats index ranked ≡ some node
      → P index
  unfolding find_node
  find_node-IsVerified P index [] node all h = cc
  find_node-IsVerified P index (n ∷ ranked) node (p, ps) h =
      elim (Bool-cases (n.node_index == index)) [
        | inl hit ↦ subst P ((==_iff n.node_index index).0 hit) p
        | inr miss ↦ find_node-IsVerified P index ranked node ps (rw miss at h)
      ]

  decide_best-IsSound :
      (scores : List CandidateScore) (best : RankedNode floats) (ranked : List (RankedNode floats))
      (label : String) (incumbent : Option ℕ) (margin : floats.F64)
      → IsVerified scores best.node_index
      → All (λ node. IsVerified scores node.node_index) ranked
      → IsSound floats scores ranked margin incumbent
          (decide_best floats best ranked label incumbent margin)
  unfolding decide_best should_switch
  decide_best-IsSound scores best ranked label none margin p ps = (refl, p)
  decide_best-IsSound scores best ranked label (some old) margin p ps =
      elim (Option-cases (find_node floats old ranked)) [
        | inl lost ↦ rw (decide_best, lost) ((old, refl, inl lost), p)
        | inr (current, found) ↦ elim (Bool-cases (should_switch floats best current margin)) [
          | inl better ↦
              rw (decide_best, found, better) ((old, refl, inr (current, found, better)), p)
          | inr close ↦
              rw (decide_best, found, close)
                (refl, find_node-IsVerified (IsVerified scores) old ranked current ps found)
        ]
      ]

  decide_with_margin-IsSound :
      (scores : List CandidateScore) (f : CandidateScore → RankedNode floats)
      (ranked : List (RankedNode floats)) (incumbent : Option ℕ) (margin : floats.F64)
      → Perm (map f (keep_if (λ score. score.passes) scores)) ranked
      → All (λ node. IsVerified scores node.node_index) ranked
      → IsSound floats scores ranked margin incumbent
          (decide_with_margin floats ranked scores incumbent margin)
  unfolding decide_with_margin
  decide_with_margin-IsSound scores f [] incumbent margin perm all =
      keep_if-nil f _ (Perm.eq-nil perm)
  decide_with_margin-IsSound scores f (best ∷ rest) incumbent margin perm (p, ps) =
      decide_best-IsSound scores best (best ∷ rest) (label_of floats scores best.node_index)
        incumbent margin p (p, ps)

  -- Where no float is NaN (`FloatLaws`: `partial_cmp` is a total order), auto mode always decides. It
  -- adopts or switches to a node only if the node passed its quorum in this round, it keeps only an
  -- incumbent that passed it, it switches only if the incumbent is not ranked or costs more than the
  -- new node's cost and the margin, it says that there is no verified node only where no score passed,
  -- and the first of its ranking comes after no other one, by cost and then by index.
  pub decide-IsSound :
      (selector : AutoSelector floats) (scores : List CandidateScore) (ids : List ℕ)
      (incumbent : Option ℕ) (now : ℕ)
      → (decision : AutoDecision floats) × (ranked : List (RankedNode floats)) × (decide floats
            selector scores ids incumbent now
          ≡ some (decision, ranked))
        × IsSound floats scores ranked selector.config.switch_margin incumbent decision
        × IsFirstLeast (rank_order floats) ranked
  unfolding decide
  decide-IsSound selector scores ids incumbent now =
      let (ranked, done, perm, verified, sorted) =
        rank_working_nodes-IsSorted scores selector.tracks ids selector.config now in
      (
        decide_with_margin floats ranked scores incumbent selector.config.switch_margin,
        ranked,
        rw done refl,
        decide_with_margin-IsSound scores _ ranked incumbent selector.config.switch_margin perm
            verified,
        IsSorted-IsFirstLeast (rank_order floats) (rank_order_trans floats laws) ranked sorted,
      )
