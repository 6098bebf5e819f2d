-- ===== src/Netd/Backend.antt =====
-- crates/netd/src/netfilter.rs, `NftablesBackend`: what a call leaves in the kernel's table of
-- policy rules.
use yarisugi.Prelude.{
  ◌+◌, ◌-◌, ◌≡◌, refl, sym, ap, ◌∙◌, inl, inr, Bool, true, Option, none, some, String, arith, ok,
  err,
}
use yarisugi.Prelude.Effects.{Action, continue, ◌>>◌, continue-eq-ok, continue-eq-err}
use yarisugi.Netd.Config.{TProxySettings}
use yarisugi.Netd.Netfilter.{
  Shell, add, rule_args, route_args, run_ip, apply_ruleset, ensure_prerequisites,
  install_policy_routing, remove_policy_routing, run_all,
}
use yarisugi.Netd.Ruleset.{render_ruleset}
use yarisugi.Netd.Rules.{
  IpLaws, CanDelete, apply_ruleset-state, route-rules, rule_add-rules, remove-rules, install-rules,
  ensure_prerequisites-state,
}

module _ (shell : Shell) where
  open shell use {State, run, feed_nft}

  -- The last part of `enable`: if the ruleset is refused, the policy routing is removed again.
  unfoldable pub apply_or_remove : TProxySettings → Action State (Unit {0})
  apply_or_remove settings s =
      continue (apply_ruleset shell (render_ruleset settings) s) (λ _ s'. (ok tt, s'))
        λ e s'. (
          err "nftables ruleset failed; policy routing was rolled back",
          (remove_policy_routing shell settings s').1,
        )

  unfoldable pub nft_enable : TProxySettings → Action State (Unit {0})
  nft_enable settings = do
    ensure_prerequisites shell
    install_policy_routing shell settings
    apply_or_remove settings

  unfoldable pub nft_disable : Option TProxySettings → Action State (Unit {0})
  nft_disable none s = (ok tt, (apply_ruleset shell "delete table inet myproxy" s).1)
  nft_disable (some settings) s =
      remove_policy_routing shell settings (apply_ruleset shell "delete table inet myproxy" s).1

module _ (shell : Shell) (laws : IpLaws shell) (settings : TProxySettings) where
  open shell use {State, run, feed_nft}
  open laws use {rules, rule_add, rule_del, rule_not_started, route_keeps, nft_keeps}

  apply_or_remove-ok :
      (f : Bool) (s s' : State)
      → apply_or_remove shell settings s ≡ (ok tt, s')
      → rules s' f settings ≡ rules s f settings
  unfolding apply_or_remove
  apply_or_remove-ok f s s' h = ground (
    arith,
    apply_ruleset-state shell laws settings (render_ruleset settings) s,
    nft_keeps (render_ruleset settings) f settings s,
  )

  apply_or_remove-err :
      (f : Bool) (s s' : State) (e : String)
      → CanDelete shell laws settings
      → apply_or_remove shell settings s ≡ (err e, s')
      → rules s' f settings ≡ rules s f settings - 1
  unfolding apply_or_remove
  apply_or_remove-err f s s' e deletes h = ground (
    arith,
    apply_ruleset-state shell laws settings (render_ruleset settings) s,
    nft_keeps (render_ruleset settings) f settings s,
    remove-rules shell laws settings f (apply_ruleset shell (render_ruleset settings) s).1 deletes,
  )

  -- Where `ip` and `nft` obey `IpLaws`, a call of `enable` that succeeds leaves one more rule of each
  -- family.
  pub nft_enable-ok :
      (f : Bool) (s s' : State)
      → nft_enable shell settings s ≡ (ok tt, s')
      → rules s' f settings ≡ rules s f settings + 1
  unfolding nft_enable
  nft_enable-ok f s s' h =
      let (_, s₁, e₁, h₁) = continue-eq-ok (ensure_prerequisites shell s) _ h in
      let (_, s₂, e₂, h₂) = continue-eq-ok (install_policy_routing shell settings s₁) _ h₁ in
      let same_state : s₁ ≡ s =
        sym (ap (λ o. o.1) e₁) ∙ ensure_prerequisites-state shell laws settings s in
      let kept : rules s₁ f settings ≡ rules s f settings =
        ap (λ t. rules t f settings) same_state in
      omega
        (arith, install-rules shell laws settings f s₁ s₂ e₂, apply_or_remove-ok f s₂ s' h₂, kept)

  -- Where `ip` and `nft` obey `IpLaws` and `ip rule del` succeeds where there is a rule (`CanDelete`), a
  -- call of `enable` that fails once all of its policy routing was installed leaves as many rules of
  -- each family as there were.
  pub nft_enable-err :
      (f : Bool) (s s' t : State) (e : String)
      → CanDelete shell laws settings
      → install_policy_routing shell settings s ≡ (ok tt, t)
      → nft_enable shell settings s ≡ (err e, s')
      → rules s' f settings ≡ rules s f settings
  unfolding nft_enable
  nft_enable-err f s s' t e deletes installs h =
      elim (continue-eq-err (ensure_prerequisites shell s) _ h) [
        | inl refused ↦
            ap (λ t. rules t f settings)
              (sym (ap (λ o. o.1) refused) ∙ ensure_prerequisites-state shell laws settings s)
        | inr (_, s₁, e₁, h₁) ↦
            let same_state : s₁ ≡ s =
              sym (ap (λ o. o.1) e₁) ∙ ensure_prerequisites-state shell laws settings s in
            let h₂ = rw same_state at h₁ in
            let h₃ : apply_or_remove shell settings t ≡ (err e, s') = rw installs at h₂ in
            omega (
              arith,
              install-rules shell laws settings f s t installs,
              apply_or_remove-err f t s' e deletes h₃,
            )
      ]

  nft_disable-rules :
      (f : Bool) (s : State)
      → CanDelete shell laws settings
      → rules (nft_disable shell (some settings) s).1 f settings ≡ rules s f settings - 1
  unfolding nft_disable
  nft_disable-rules f s deletes =
      let text : String = "delete table inet myproxy" in
      let t = (apply_ruleset shell text s).1 in
      remove-rules shell laws settings f t deletes
      ∙ ap (λ n. n - 1)
          (ap (λ u. rules u f settings) (apply_ruleset-state shell laws settings text s)
            ∙ nft_keeps text f settings s)

  -- Where `ip` and `nft` obey `IpLaws` and `ip rule del` succeeds where there is a rule (`CanDelete`),
  -- disabling with the settings that were enabled takes back what enabling added: as many rules of
  -- each family are left as there were before.
  pub nft_disable-nft_enable :
      (f : Bool) (s s' : State)
      → CanDelete shell laws settings
      → nft_enable shell settings s ≡ (ok tt, s')
      → rules (nft_disable shell (some settings) s').1 f settings ≡ rules s f settings
  nft_disable-nft_enable f s s' deletes h =
      omega (arith, nft_disable-rules f s' deletes, nft_enable-ok f s s' h)

  -- Where `ip` and `nft` obey `IpLaws`, and the first command of the installation succeeds and the
  -- second fails, `enable` fails and leaves the IPv4 rule that the first one added: what was installed is not removed.
  pub nft_enable-partial :
      (s s₁ s₂ : State) (e : String)
      → ensure_prerequisites shell s ≡ (ok tt, s)
      → run_ip shell (rule_args true add settings) s ≡ (ok tt, s₁)
      → run_ip shell (route_args true add settings) s₁ ≡ (err e, s₂)
      → (nft_enable shell settings s ≡ (err e, s₂))
        × (rules s₂ true settings ≡ rules s true settings + 1)
  unfolding nft_enable install_policy_routing run_all
  nft_enable-partial s s₁ s₂ e ready added failed = (
    rw (ready, added, failed) refl,
    omega (
      arith,
      rule_add-rules shell laws settings true true s s₁ added,
      rw (ap (λ o. o.1) failed) at (route-rules shell laws settings true true add s₁),
    ),
  )
