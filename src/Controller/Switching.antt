-- ===== src/Controller/Switching.antt =====
-- crates/controller/src/proxy_controller.rs, `switch_node` and the end of a session: what they leave.
use Prim.Native.String.{◌++◌ as str_append}
use yarisugi.Prelude.{
  ◌≡◌, refl, sym, ap, subst, ◌∙◌, ◌⊎◌, inl, inr, Bool, true, false, some, String, Result, ok, err,
}
use yarisugi.Prelude.Effects.{Action, continue, modify, return, ◌>>◌}
use yarisugi.Ir.Node.{CanonicalNode}
use yarisugi.Adapter.Supervisor.{Session, is_running, apply_config}
use yarisugi.Adapter.Steps.{config_file}
use yarisugi.Adapter.Swaps.{apply_config-checked}
use yarisugi.Controller.Session.{Environment, ProxyController, route, adopted_node, switch_node}
use yarisugi.Controller.Routing.{MachineLaws, KeepsState, same_state, Routed, route_if-Routed}

module _ (env : Environment) (laws : MachineLaws env) where
  open env use {host, now, compile_full_config}

  -- The bytes that a switch writes, or why there are none.
  abbrev pub compiled : ProxyController env → CanonicalNode → Result host.Bytes
  compiled c node =
      compile_full_config node c.settings.tproxy_port c.settings.fwmark c.settings.dns_provider
        c.settings.local_dns

  -- How a switch fails: the node does not compile, and nothing has been done; the supervisor rejects
  -- the configuration; or the daemon does not route, and the new configuration is already in the file
  -- of the supervisor's child.
  abbrev pub Failure : ProxyController env → CanonicalNode → String → ProxyController env → Type 0
  Failure c node e d =
      ((compiled c node ≡ err e) × (d.session ≡ c.session))
      ⊎ ((e ≡ "apply core config")
          × (bytes : host.Bytes) × (e' : String) × (compiled c node ≡ ok bytes)
          × (apply_config host bytes c.session ≡ (err e', d.session)))
      ⊎ ((e ≡ "netd enable routing")
          × (c.netd ≡ true)
          × (bytes : host.Bytes) × (compiled c node ≡ ok bytes)
          × (config_file host d.session ≡ some bytes)
          × (is_running d.session.supervisor ≡ true))

  -- The time of this switch is set, by who asked for it, and the other one is as it was.
  abbrev pub Stamped : Bool → ProxyController env → ProxyController env → Type 0
  Stamped true c d =
      (d.last_auto_switch ≡ some (now d.session.world))
      × (d.last_manual_switch ≡ c.last_manual_switch)
  Stamped false c d =
      (d.last_manual_switch ≡ some (now d.session.world))
      × (d.last_auto_switch ≡ c.last_auto_switch)

  -- How a switch ends: it fails and changes no more than the session of the core, or it succeeds, and
  -- the supervisor has a child and the node's configuration is in its file.
  abbrev pub Outcome :
      ProxyController env → CanonicalNode → Bool → Result String × ProxyController env → Type 0
  Outcome c node automatic p =
      ((e : String) × (p.0 ≡ err e) × KeepsState env c p.1 × Failure c node e p.1)
      ⊎ ((p.0 ≡ ok (str_append "switched to " node.meta.label))
          × ((bytes : host.Bytes) × (compiled c node ≡ ok bytes)
              × (config_file host p.1.session ≡ some bytes))
          × (is_running p.1.session.supervisor ≡ true)
          × (p.1.active_node ≡ some node)
          × (p.1.degraded ≡ false)
          × (p.1.settings ≡ c.settings)
          × Stamped automatic c p.1)

  -- The steps of a switch behind the compilation.
  abbrev routing : CanonicalNode → Bool → Action (ProxyController env) String
  routing node automatic = do
    route env
    modify (adopted_node env node automatic)
    return (str_append "switched to " node.meta.label)

  adopted :
      (c d : ProxyController env) (node : CanonicalNode) (automatic : Bool) (bytes : host.Bytes)
      → compiled c node ≡ ok bytes
      → config_file host d.session ≡ some bytes
      → is_running d.session.supervisor ≡ true
      → d.settings ≡ c.settings
      → d.last_auto_switch ≡ c.last_auto_switch
      → d.last_manual_switch ≡ c.last_manual_switch
      → Outcome c node automatic
          (ok (str_append "switched to " node.meta.label), adopted_node env node automatic d)
  unfolding adopted_node
  adopted c d node true bytes is stored running same auto manual =
      inr (refl, (bytes, is, stored), running, refl, refl, same, (refl, manual))
  adopted c d node false bytes is stored running same auto manual =
      inr (refl, (bytes, is, stored), running, refl, refl, same, (refl, auto))

  -- What follows the daemon's answer, where there is a child with the configuration in its file.
  routing-Outcome :
      (c d : ProxyController env) (node : CanonicalNode) (automatic : Bool) (bytes : host.Bytes)
      (p : Result (Unit {0}) × ProxyController env)
      → Routed env laws d p
      → KeepsState env c d
      → compiled c node ≡ ok bytes
      → config_file host d.session ≡ some bytes
      → is_running d.session.supervisor ≡ true
      → Outcome c node automatic (
          continue p
            (λ _.
              modify (adopted_node env node automatic)
              >> return (str_append "switched to " node.meta.label))
            (λ e x. (err e, x)))
  routing-Outcome c d node automatic bytes (ok done, x) (w, at, same, _) keeps is stored running =
      adopted c x node automatic bytes is
        (subst (λ y. config_file host y.session ≡ some bytes) (sym at) (same ∙ stored))
        (subst (λ y. is_running y.session.supervisor ≡ true) (sym at) running)
        (ap (λ y. y.settings) at ∙ keeps.settings)
        (ap (λ y. y.last_auto_switch) at ∙ keeps.last_auto_switch)
        (ap (λ y. y.last_manual_switch) at ∙ keeps.last_manual_switch)
  routing-Outcome c d node automatic bytes (err e, x) (w, at, same, inl fine) keeps is stored
        running =
      cc
  routing-Outcome c d node automatic bytes (err e, x) (w, at, same, inr (what, reached)) keeps is
        stored running =
      inl (
        e,
        refl,
        subst (KeepsState env c) (sym at) (record {
          netd = keeps.netd;
          settings = keeps.settings;
          active_node = keeps.active_node;
          last_auto_switch = keeps.last_auto_switch;
          last_manual_switch = keeps.last_manual_switch;
          degraded = keeps.degraded;
        }),
        inr (
            inr (
              cc,
              sym keeps.netd ∙ reached,
              bytes,
              is,
              subst (λ y. config_file host y.session ≡ some bytes) (sym at) (same ∙ stored),
              subst (λ y. is_running y.session.supervisor ≡ true) (sym at) running,
            )),
      )

  -- What follows the supervisor's answer.
  applied-Outcome :
      (c : ProxyController env) (node : CanonicalNode) (automatic : Bool) (bytes : host.Bytes)
      (o : Result (Unit {0}) × Session host)
      → compiled c node ≡ ok bytes
      → apply_config host bytes c.session ≡ o
      → Outcome c node automatic (
          continue
            (continue o
              (λ _ s. (ok tt, record c { session = s }))
              (λ e s. (err "apply core config", record c { session = s })))
            (λ _. routing node automatic)
            (λ e x. (err e, x)))
  unfolding route
  applied-Outcome c node automatic bytes (ok done, s) is h =
      let d = record c { session = s } in
      let (stored, running, _) = apply_config-checked host laws.files c.session s bytes h in
      routing-Outcome c d node automatic bytes (route env d)
        (route_if-Routed env laws d d.netd refl) (same_state env c s) is stored running
  applied-Outcome c node automatic bytes (err e, s) is h =
      inl ("apply core config", refl, same_state env c s, inr (inl (refl, bytes, e, is, h)))

  compiled-Outcome :
      (c : ProxyController env) (node : CanonicalNode) (automatic : Bool) (r : Result host.Bytes)
      → compiled c node ≡ r
      → Outcome c node automatic (
          continue
            (r, c)
            (λ bytes x.
              continue
                (continue
                  (apply_config host bytes x.session)
                  (λ _ s. (ok tt, record x { session = s }))
                  (λ e s. (err "apply core config", record x { session = s })))
                (λ _. routing node automatic)
                (λ e x. (err e, x)))
            (λ e x. (err e, x)))
  compiled-Outcome c node automatic (ok bytes) is =
      applied-Outcome c node automatic bytes (apply_config host bytes c.session) is refl
  compiled-Outcome c node automatic (err e) is =
      inl (e, refl, same_state env c c.session, inl (is, refl))

  -- Where files obey `FileLaws` and the daemon does not write the core's file (`MachineLaws`), a
  -- switch that fails leaves the active node, the times of the switches, the settings and the flag
  -- alone, and has failed in one of the ways of `Failure`. One that succeeds makes the node the active
  -- one, clears the flag, sets the time for who asked, and leaves the supervisor with a child, which need not
  -- run any more, and the node's configuration in its file.
  pub switch_node-Outcome :
      (c : ProxyController env) (node : CanonicalNode) (automatic : Bool)
      → Outcome c node automatic (switch_node env node automatic c)
  unfolding switch_node
  switch_node-Outcome c node automatic = compiled-Outcome c node automatic (compiled c node) refl
