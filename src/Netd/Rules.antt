-- ===== src/Netd/Rules.antt =====
-- crates/netd/src/netfilter.rs: the laws of `ip` and `nft`, and what the commands of the policy
-- routing leave in the kernel's table of policy rules.
use yarisugi.Prelude.{
  ℕ, zero, suc, ◌<◌, ◌⊎◌, inl, inr, ◌+◌, ◌-◌, ◌≡◌, refl, ap, Bool, true, false, List, [], ◌∷◌,
  String, arith, ok, if◌then◌else◌,
}
use yarisugi.Prelude.Effects.{continue-eq-ok}
use yarisugi.Netd.Config.{TProxySettings}
use yarisugi.Netd.Netfilter.{
  Shell, Output, exited, not_started, Op, add, del, rule_args, route_args, run_ip, ran,
  apply_ruleset, ensure_prerequisites, install_policy_routing, remove_policy_routing, run_all,
}

-- 1 where two families are the same.
abbrev pub same : Bool → Bool → ℕ
same true true = 1
same true false = 0
same false true = 0
same false false = 1

-- What `ip` documents of its rules. `rules s v4 settings` counts the rules of the family that
-- send the mark of the settings to their table.
pub record IpLaws (shell : Shell) : Type 1 where
  pub rules : shell.State → Bool → TProxySettings → ℕ
  -- `ip rule add` that succeeds adds one rule of its family, and one that fails adds none.
  pub rule_add :
      (v4 f : Bool) (settings : TProxySettings) (s s' : shell.State) (success : Bool) (e : String)
      → shell.run (rule_args v4 add settings) s ≡ (exited success e, s')
      → rules s' f settings ≡ rules s f settings + (if success then same v4 f else 0)
  -- `ip rule del` that succeeds removes one rule of its family, and one that fails removes none.
  pub rule_del :
      (v4 f : Bool) (settings : TProxySettings) (s s' : shell.State) (success : Bool) (e : String)
      → shell.run (rule_args v4 del settings) s ≡ (exited success e, s')
      → rules s f settings ≡ rules s' f settings + (if success then same v4 f else 0)
  -- An `ip rule` that cannot be started, `ip route` and `nft` leave the rules alone.
  pub rule_not_started :
      (v4 f : Bool) (op : Op) (settings : TProxySettings) (s s' : shell.State)
      → shell.run (rule_args v4 op settings) s ≡ (not_started, s')
      → rules s' f settings ≡ rules s f settings
  pub route_keeps :
      (v4 f : Bool) (op : Op) (settings : TProxySettings) (s : shell.State)
      → rules (shell.run (route_args v4 op settings) s).1 f settings ≡ rules s f settings
  pub nft_keeps :
      (text : String) (f : Bool) (settings : TProxySettings) (s : shell.State)
      → rules (shell.feed_nft text s).1 f settings ≡ rules s f settings

-- `ip rule del` can be started, and succeeds where there is a rule that it is told to delete.
abbrev pub CanDelete : (shell : Shell) → IpLaws shell → TProxySettings → Type 0
CanDelete shell laws settings =
    (v4 : Bool) (s : shell.State)
    → 0 < laws.rules s v4 settings
    → (e : String) × (s' : shell.State) × (shell.run (rule_args v4 del settings) s
        ≡ (exited true e, s'))

module _ (shell : Shell) (laws : IpLaws shell) (settings : TProxySettings) where
  open shell use {State, run, feed_nft}
  open laws use {rules, rule_add, rule_del, rule_not_started, route_keeps, nft_keeps}

  run_ip-state : (args : List String) (s : State) → (run_ip shell args s).1 ≡ (run args s).1
  unfolding run_ip
  run_ip-state args s = ground arith

  pub apply_ruleset-state :
      (text : String) (s : State) → (apply_ruleset shell text s).1 ≡ (feed_nft text s).1
  unfolding apply_ruleset
  apply_ruleset-state text s = ground arith

  zero_or_more : (n : ℕ) → (n ≡ 0) ⊎ (0 < n)
  zero_or_more zero = inl refl
  zero_or_more (suc n) = inr (omega arith)

  none_left :
      (v4 f : Bool) (s s' : State)
      → rules s v4 settings ≡ 0
      → rules s f settings ≡ rules s' f settings + 0
      → rules s' f settings ≡ rules s f settings - same v4 f
  none_left true true s s' nothing kept = omega (arith, nothing, kept)
  none_left true false s s' nothing kept = omega (arith, kept)
  none_left false true s s' nothing kept = omega (arith, kept)
  none_left false false s s' nothing kept = omega (arith, nothing, kept)

  -- What a deletion leaves, by its answer.
  deleted :
      (v4 f : Bool) (s : State) (o : Output × State)
      → run (rule_args v4 del settings) s ≡ o
      → (0 < rules s v4 settings
          → (e : String) × (s' : State) × (run (rule_args v4 del settings) s ≡ (exited true e, s')))
      → rules o.1 f settings ≡ rules s f settings - same v4 f
  deleted v4 f s (exited true e, s') h can = omega (arith, rule_del v4 f settings s s' true e h)
  deleted v4 f s (exited false e, s') h can = elim (zero_or_more (rules s v4 settings)) [
    | inl nothing ↦ none_left v4 f s s' nothing (rule_del v4 f settings s s' false e h)
    | inr some_rule ↦ let (e', t, exits) = can some_rule in cc
  ]
  deleted v4 f s (not_started, s') h can = elim (zero_or_more (rules s v4 settings)) [
    | inl nothing ↦
        none_left v4 f s s' nothing
          (let kept = rule_not_started v4 f del settings s s' h in omega (arith, kept))
    | inr some_rule ↦ let (e', t, exits) = can some_rule in cc
  ]

  -- A deletion that can be done takes one rule of its family, if there is one.
  rule_del-rules :
      (v4 f : Bool) (s : State)
      → CanDelete shell laws settings
      → rules (run_ip shell (rule_args v4 del settings) s).1 f settings
        ≡ rules s f settings - same v4 f
  rule_del-rules v4 f s deletes =
      rw run_ip-state (deleted v4 f s (run (rule_args v4 del settings) s) refl (deletes v4 s))

  pub route-rules :
      (v4 f : Bool) (op : Op) (s : State)
      → rules (run_ip shell (route_args v4 op settings) s).1 f settings ≡ rules s f settings
  route-rules v4 f op s = rw run_ip-state (route_keeps v4 f op settings s)

  ran-ok :
      (args : List String) (o : Output × State) (s' : State)
      → ran shell args o ≡ (ok tt, s')
      → (e : String) × (o ≡ (exited true e, s'))
  unfolding ran
  ran-ok args (not_started, s) s' h = cc
  ran-ok args (exited true e, s) s' h = (e, cc)
  ran-ok args (exited false e, s) s' h = cc

  pub rule_add-rules :
      (v4 f : Bool) (s s' : State)
      → run_ip shell (rule_args v4 add settings) s ≡ (ok tt, s')
      → rules s' f settings ≡ rules s f settings + same v4 f
  unfolding run_ip
  rule_add-rules v4 f s s' h =
      let (e, exits) =
        ran-ok (rule_args v4 add settings) (run (rule_args v4 add settings) s) s' h in
      rule_add v4 f settings s s' true e exits

  same_total : (f : Bool) → same true f + same false f ≡ 1
  same_total true = refl
  same_total false = refl

  pub remove-rules :
      (f : Bool) (s : State)
      → CanDelete shell laws settings
      → rules (remove_policy_routing shell settings s).1 f settings ≡ rules s f settings - 1
  unfolding remove_policy_routing
  remove-rules f s deletes =
      let s₁ = (run_ip shell (rule_args true del settings) s).1 in
      let s₂ = (run_ip shell (route_args true del settings) s₁).1 in
      let s₃ = (run_ip shell (rule_args false del settings) s₂).1 in
      omega (
        arith,
        rule_del-rules true f s deletes,
        route-rules true f del s₁,
        rule_del-rules false f s₂ deletes,
        route-rules false f del s₃,
        same_total f,
      )

  -- What a sequence of commands ends in, if all of them succeed.
  run_all-ok :
      (args : List String) (rest : List (List String)) (s s' : State)
      → run_all shell (args ∷ rest) s ≡ (ok tt, s')
      → (t : State) × (run_ip shell args s ≡ (ok tt, t)) × (run_all shell rest t ≡ (ok tt, s'))
  unfolding run_all
  run_all-ok args rest s s' h =
      let (_, t, e, h') = continue-eq-ok (run_ip shell args s) (λ _. run_all shell rest) h in
      (t, e, h')

  route_add-rules :
      (v4 f : Bool) (s s' : State)
      → run_ip shell (route_args v4 add settings) s ≡ (ok tt, s')
      → rules s' f settings ≡ rules s f settings
  route_add-rules v4 f s s' h = rw (ap (λ o. o.1) h) at (route-rules v4 f add s)

  pub install-rules :
      (f : Bool) (s s' : State)
      → install_policy_routing shell settings s ≡ (ok tt, s')
      → rules s' f settings ≡ rules s f settings + 1
  unfolding install_policy_routing run_all
  install-rules f s s' h =
      let rule₆ = rule_args false add settings in
      let route₆ = route_args false add settings in
      let route₄ = route_args true add settings in
      let (s₁, e₁, h₁) = run_all-ok _ (route₄ ∷ rule₆ ∷ route₆ ∷ []) s s' h in
      let (s₂, e₂, h₂) = run_all-ok route₄ (rule₆ ∷ route₆ ∷ []) s₁ s' h₁ in
      let (s₃, e₃, h₃) = run_all-ok rule₆ (route₆ ∷ []) s₂ s' h₂ in
      let (s₄, e₄, h₄) = run_all-ok route₆ [] s₃ s' h₃ in
      let total : rules s₄ f settings ≡ rules s f settings + 1 = omega (
        arith,
        rule_add-rules true f s s₁ e₁,
        route_add-rules true f s₁ s₂ e₂,
        rule_add-rules false f s₂ s₃ e₃,
        route_add-rules false f s₃ s₄ e₄,
        same_total f,
      ) in
      rw (ap (λ o. o.1) h₄) at total

  pub ensure_prerequisites-state : (s : State) → (ensure_prerequisites shell s).1 ≡ s
  unfolding ensure_prerequisites
  ensure_prerequisites-state s = ground arith
