-- ===== src/Controller/Routing.antt =====
-- crates/controller/src/proxy_controller.rs: what the daemon's part of a switch can change.
use yarisugi.Prelude.{◌≡◌, refl, ◌⊎◌, inl, inr, Bool, true, false, String, Result, ok, err}
use yarisugi.Prelude.Effects.{continue}
use yarisugi.Adapter.Supervisor.{Session}
use yarisugi.Adapter.Steps.{FileLaws}
use yarisugi.Controller.Session.{
  Environment, ProxyController, RoutingSpec, routing_spec, route_if, with_world,
}

-- What the machine does: files obey `FileLaws`, and the daemon does not write the core's file.
pub record MachineLaws (env : Environment) : Type 1 where
  pub files : FileLaws env.host
  pub read_enable_routing :
      (path : String) (spec : RoutingSpec) (w : env.host.World)
      → env.host.read path (env.enable_routing spec w).1 ≡ env.host.read path w

-- Everything but the session of the core is as it was.
pub record KeepsState (env : Environment) (c d : ProxyController env) : Type 0 where
  pub netd : d.netd ≡ c.netd
  pub settings : d.settings ≡ c.settings
  pub active_node : d.active_node ≡ c.active_node
  pub last_auto_switch : d.last_auto_switch ≡ c.last_auto_switch
  pub last_manual_switch : d.last_manual_switch ≡ c.last_manual_switch
  pub degraded : d.degraded ≡ c.degraded

-- A new session changes nothing else.
pub same_state :
    (env : Environment) (c : ProxyController env) (s : Session env.host)
    → KeepsState env c (record c { session = s })
same_state env c s = record {
  netd = refl;
  settings = refl;
  active_node = refl;
  last_auto_switch = refl;
  last_manual_switch = refl;
  degraded = refl;
}

module _ (env : Environment) (laws : MachineLaws env) where
  open env use {host, now, compile_full_config, enable_routing}

  -- The daemon changes the machine alone, and not the core's file.
  abbrev pub Routed : ProxyController env → Result (Unit {0}) × ProxyController env → Type 0
  Routed c p =
      (w : host.World) × (p.1 ≡ with_world env c w)
      × (host.read c.session.supervisor.config_path w
          ≡ host.read c.session.supervisor.config_path c.session.world)
      × ((p.0 ≡ ok tt) ⊎ ((p.0 ≡ err "netd enable routing") × (c.netd ≡ true)))

  routed :
      (c : ProxyController env) (o : Result (Unit {0}) × host.World)
      → c.netd ≡ true
      → host.read c.session.supervisor.config_path o.1
        ≡ host.read c.session.supervisor.config_path c.session.world
      → Routed c (
          continue o
            (λ _ w. (ok tt, with_world env c w))
            (λ e w. (err "netd enable routing", with_world env c w)))
  routed c (ok done, w) reached same = (w, refl, same, inl refl)
  routed c (err e, w) reached same = (w, refl, same, inr (refl, reached))

  pub route_if-Routed :
      (c : ProxyController env) (reached : Bool)
      → c.netd ≡ reached
      → Routed c (route_if env reached c)
  unfolding route_if
  route_if-Routed c false e = (c.session.world, refl, refl, inl refl)
  route_if-Routed c true e = routed c (enable_routing (routing_spec c.settings) c.session.world) e (
      laws.read_enable_routing c.session.supervisor.config_path (routing_spec c.settings)
        c.session.world)
