-- ===== src/Controller/Session.antt =====
-- crates/controller/src/proxy_controller.rs: the settings and the controller's state, and how it
-- switches to a node, stops, and drops to direct internet. The machine is a parameter.
use Prim.Native.String.{◌++◌ as str_append}
use yarisugi.Prelude.{
  ℕ, ◌%◌, ◌^◌, Bool, true, false, List, [], ◌∷◌, Option, none, some, String, Result, ok, err,
  if◌then◌else◌,
}
use yarisugi.Prelude.Effects.{Action, continue, lift, modify, ◌>>=◌, ◌>>◌, return}
use yarisugi.Prelude.Results.{◌>>=◌ as and_then}
use yarisugi.Prelude.Text.{to_string}
use yarisugi.Ir.Node.{CanonicalNode}
use yarisugi.Netd.Proto.{Ipv4Addr}
use yarisugi.Adapter.Supervisor.{Host, Session, stop, apply_config}
use yarisugi.Adapter.Targets.{ScatterConfig, default_scatter}

pub data DnsProvider : Type 0 where
  cloudflare : DnsProvider
  quad9 : DnsProvider
  google : DnsProvider
  ad_guard : DnsProvider
  custom : String → DnsProvider

pub record LocalDns : Type 0 where
  pub ipv4 : Ipv4Addr
  pub port : ℕ

pub record ProxySettings : Type 0 where
  pub tproxy_port : ℕ
  pub fwmark : ℕ
  pub table_id : ℕ
  pub dns_provider : DnsProvider
  pub dns_ipv4 : Option Ipv4Addr
  pub core_uid : Option ℕ
  pub bypass_subnets : List String
  pub bypass_subnets_v6 : List String
  pub local_dns : Option LocalDns
  pub egress_real_count : ℕ
  pub egress_timeout : ℕ
  pub egress_min_verified : ℕ

abbrev pub single_fw_mark : ℕ
single_fw_mark = 1

-- The default settings, with the gateway that the system has.
unfoldable pub default_settings : Option Ipv4Addr → ProxySettings
default_settings gateway = record {
  tproxy_port = 12345;
  fwmark = single_fw_mark;
  table_id = 100;
  dns_provider = cloudflare;
  dns_ipv4 = some (record { a = 1; b = 1; c = 1; d = 1 });
  core_uid = none;
  bypass_subnets = "10.0.0.0/8" ∷ "172.16.0.0/12" ∷ "192.168.0.0/16" ∷ [];
  bypass_subnets_v6 = "fc00::/7" ∷ [];
  local_dns = elim gateway [ none ↦ none | some ip ↦ some (record { ipv4 = ip; port = 53 }) ];
  egress_real_count = 2;
  egress_timeout = 10000000000;
  egress_min_verified = 2;
}

unfoldable pub scatter_config : ProxySettings → ScatterConfig
scatter_config settings = record default_scatter {
  real_count = settings.egress_real_count;
  min_verified = settings.egress_min_verified;
  timeout = settings.egress_timeout;
}

pub record RoutingSpec : Type 0 where
  pub tproxy_port : ℕ
  pub fwmark : ℕ
  pub table_id : ℕ
  pub dns_ipv4 : Option Ipv4Addr
  pub bypass_subnets : List String
  pub bypass_subnets_v6 : List String
  pub core_uid : Option ℕ

-- What the controller calls: the host of the core, the clocks (`Instant::now`, and the seconds since
-- 1970), the rows of the table of nodes and the decoding of one, the compilation of a node to the
-- text of a configuration, and the daemon.
pub record Environment : Type 1 where
  pub host : Host
  pub now : host.World → ℕ
  pub unix_time : host.World → ℕ
  pub node_rows : host.World → Result (List (Result (ℕ × host.Bytes)))
  pub decode_node_payload : host.Bytes → Result CanonicalNode
  pub compile_full_config :
      CanonicalNode → ℕ → ℕ → DnsProvider → Option LocalDns → Result host.Bytes
  pub enable_routing : RoutingSpec → host.World → Result (Unit {0}) × host.World
  pub disable_routing : host.World → Result (Unit {0}) × host.World

-- The core's supervisor with the machine, whether the daemon was reached, and the rest of the state.
pub record ProxyController (env : Environment) : Type 0 where
  pub session : Session env.host
  pub netd : Bool
  pub settings : ProxySettings
  pub active_node : Option CanonicalNode
  pub last_auto_switch : Option ℕ
  pub last_manual_switch : Option ℕ
  pub degraded : Bool

-- `.context(message)`: the message is what the error then says first.
abbrev pub context {ℓ} : {A : Type ℓ} → String → Result A → Result A
context message (err e) = err message
context message (ok a) = ok a

unfoldable pub routing_spec : ProxySettings → RoutingSpec
routing_spec settings = record {
  tproxy_port = settings.tproxy_port;
  fwmark = settings.fwmark;
  table_id = settings.table_id;
  dns_ipv4 = settings.dns_ipv4;
  bypass_subnets = settings.bypass_subnets;
  bypass_subnets_v6 = settings.bypass_subnets_v6;
  core_uid = settings.core_uid;
}

module _ (env : Environment) where
  open env use {
    host, now, node_rows, decode_node_payload, compile_full_config, enable_routing, disable_routing,
  }

  -- The loop over the rows: an identifier is cut to 32 bits.
  unfoldable pub decode_rows : List (Result (ℕ × host.Bytes)) → Result (List (ℕ × CanonicalNode))
  decode_rows [] = ok []
  decode_rows (err e ∷ rows) = err e
  decode_rows (ok (id, payload) ∷ rows) =
      and_then
        (context (str_append "corrupt node payload for id " (to_string (id % 2 ^ 32)))
          (decode_node_payload payload))
        (λ node. and_then (decode_rows rows) (λ rest. ok ((id % 2 ^ 32, node) ∷ rest)))

  unfoldable pub load_probe_targets : ProxyController env → Result (List (ℕ × CanonicalNode))
  unfolding decode_rows
  load_probe_targets c = and_then (node_rows c.session.world) decode_rows

  -- An action of the supervisor, with its error in a context.
  abbrev pub supervised :
      String → Action (Session host) (Unit {0}) → Action (ProxyController env) (Unit {0})
  supervised message m c =
      continue (m c.session) (λ _ s. (ok tt, record c { session = s }))
        (λ e s. (err message, record c { session = s }))

  -- What is asked of the daemon, and what it says.
  abbrev pub with_world : ProxyController env → host.World → ProxyController env
  with_world c w = record c { session = record c.session { world = w } }

  -- `if let Some(netd) = &self.netd { … }`
  unfoldable pub route_if : Bool → Action (ProxyController env) (Unit {0})
  unfolding routing_spec
  route_if false c = (ok tt, c)
  route_if true c =
      continue (enable_routing (routing_spec c.settings) c.session.world)
        (λ _ w. (ok tt, with_world c w)) (λ e w. (err "netd enable routing", with_world c w))

  unfoldable pub route : Action (ProxyController env) (Unit {0})
  unfolding route_if
  route c = route_if c.netd c

  unfoldable pub note_manual_switch : ProxyController env → ProxyController env
  note_manual_switch c = record c { last_manual_switch = some (now c.session.world) }

  unfoldable pub note_auto_switch : ProxyController env → ProxyController env
  note_auto_switch c = record c { last_auto_switch = some (now c.session.world) }

  -- The part of a switch that follows the calls: it cannot fail.
  unfoldable pub adopted_node : CanonicalNode → Bool → ProxyController env → ProxyController env
  adopted_node node automatic c =
      let c = record c { active_node = some node } in
      let at = some (now c.session.world) in
      let c =
        if automatic
        then record c { last_auto_switch = at }
        else record c { last_manual_switch = at } in
      record c { degraded = false }

  unfoldable pub switch_node : CanonicalNode → Bool → Action (ProxyController env) String
  unfolding route adopted_node
  switch_node node automatic c =
      let s = c.settings in
      (do
        rendered ← lift (compile_full_config node s.tproxy_port s.fwmark s.dns_provider s.local_dns)
        supervised "apply core config" (apply_config host rendered)
        route
        modify (adopted_node node automatic)
        return (str_append "switched to " node.meta.label))
        c

  -- `let _ = netd.disable_routing()`
  unfoldable pub unroute : ProxyController env → ProxyController env
  unroute c = if c.netd then with_world c (disable_routing c.session.world).1 else c

  -- The supervisor's `stop`, which gives the controller's answer.
  unfoldable pub stop_core : Action (ProxyController env) (Unit {0})
  stop_core c =
      continue (stop host c.session) (λ _ s. (ok tt, record c { session = s }))
        (λ e s. (err e, record c { session = s }))

  unfoldable pub stop_controller : Action (ProxyController env) (Unit {0})
  unfolding unroute stop_core
  stop_controller c =
      let stopped = stop_core (unroute c) in (stopped.0, record stopped.1 { active_node = none })

  unfoldable pub degrade_to_direct : ProxyController env → ProxyController env
  unfolding unroute stop_core
  degrade_to_direct c = record (stop_core (unroute c)).1 { active_node = none; degraded = true }

  unfoldable pub last_switch : ProxyController env → Option ℕ
  last_switch c = elim c.last_manual_switch [ some at ↦ some at | none ↦ c.last_auto_switch ]
