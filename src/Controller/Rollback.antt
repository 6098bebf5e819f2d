-- ===== src/Controller/Rollback.antt =====
-- crates/controller/src/proxy_controller.rs, `switch_node`: what a rejected configuration leaves behind.
use yarisugi.Prelude.{◌≡◌, sym, ap, subst, ◌∙◌, inl, inr, Bool, some, String, Result, ok, err}
use yarisugi.Ir.Node.{CanonicalNode}
use yarisugi.Adapter.Steps.{config_file}
use yarisugi.Adapter.Swaps.{apply_config-restored}
use yarisugi.Controller.Session.{Environment, ProxyController, switch_node}
use yarisugi.Controller.Routing.{MachineLaws, KeepsState}
use yarisugi.Controller.Switching.{Failure, Outcome, switch_node-Outcome}

module _ (env : Environment) (laws : MachineLaws env) where
  open env use {host}

  -- What is there after a switch that the core did not take.
  abbrev pub IsRestored : ProxyController env → host.Bytes → ProxyController env → Type 0
  IsRestored c old d =
      (config_file host d.session ≡ some old)
      × (d.session.supervisor.child ≡ c.session.supervisor.child)
      × (d.active_node ≡ c.active_node)

  Failure-IsRestored :
      (c d : ProxyController env) (node : CanonicalNode) (old : host.Bytes) (e : String)
      → config_file host c.session ≡ some old
      → ((b : host.Bytes) (w : host.World)
          → (w' : host.World) × (host.write c.session.supervisor.config_path b w ≡ (ok tt, w')))
      → e ≡ "apply core config"
      → KeepsState env c d
      → Failure env laws c node e d
      → IsRestored c old d
  Failure-IsRestored c d node old e before writable is keeps (inl (_, same)) =
      (ap (config_file host) same ∙ before, ap (λ s. s.supervisor.child) same, keeps.active_node)
  Failure-IsRestored c d node old e before writable is keeps
        (inr (inl (_, bytes, e', _, applied))) =
      let (file, child) =
        apply_config-restored host laws.files c.session d.session bytes old e' before writable
          applied in
      (file, child, keeps.active_node)
  Failure-IsRestored c d node old e before writable is keeps (inr (inr failure)) =
      absurd (differ (sym is ∙ failure.0))
    where
      differ : ◌≡◌ {A = String} "apply core config" "netd enable routing" → ⊥
      differ h = cc

  Outcome-IsRestored :
      (c : ProxyController env) (node : CanonicalNode) (automatic : Bool) (old : host.Bytes)
      (p : Result String × ProxyController env)
      → config_file host c.session ≡ some old
      → ((b : host.Bytes) (w : host.World)
          → (w' : host.World) × (host.write c.session.supervisor.config_path b w ≡ (ok tt, w')))
      → p.0 ≡ err "apply core config"
      → Outcome env laws c node automatic p
      → IsRestored c old p.1
  Outcome-IsRestored c node automatic old p before writable is (inl (e, failed, keeps, failure)) =
      Failure-IsRestored c p.1 node old e before writable (cc) keeps failure
  Outcome-IsRestored c node automatic old p before writable is (inr success) =
      let done = success.0 in cc

  -- Where files obey `FileLaws` and the daemon does not write the core's file (`MachineLaws`), a
  -- switch whose configuration the core does not take leaves the old file, the old child and the
  -- active node, if there was a configuration and the file can be written.
  pub switch_node-IsRestored :
      (c d : ProxyController env) (node : CanonicalNode) (automatic : Bool) (old : host.Bytes)
      → config_file host c.session ≡ some old
      → ((b : host.Bytes) (w : host.World)
          → (w' : host.World) × (host.write c.session.supervisor.config_path b w ≡ (ok tt, w')))
      → switch_node env node automatic c ≡ (err "apply core config", d)
      → IsRestored c old d
  switch_node-IsRestored c d node automatic old before writable h =
      subst (IsRestored c old) (ap (λ p. p.1) h) (
        Outcome-IsRestored c node automatic old (switch_node env node automatic c) before writable
          (ap (λ p. p.0) h) (switch_node-Outcome env laws c node automatic))
