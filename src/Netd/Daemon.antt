-- ===== src/Netd/Daemon.antt =====
-- crates/netd/src/main.rs: the daemon's state and its handlers. A section that holds the lock on
-- the state is one function; the backend runs between two such sections. An `Instant` is a number
-- of nanoseconds, an argument of each section.
use yarisugi.Prelude.{
  ℕ, ◌-◌, ◌*◌, Bool, true, false, ◌&&◌, not, Option, none, some, String, ltb, ◌==◌, if◌then◌else◌,
  is_some, is_some_eq, Result, ok, err, bail_if, List, [], ◌∷◌,
}
use yarisugi.Prelude.Effects.{Action, continue, ◌>>=◌, ◌>>◌, return, lift, modify, on_error}
use yarisugi.Netd.Proto.{
  EnableArgs, NetdRequest, NetdResponse, handshake, enable_routing, disable_routing, heartbeat,
  handshake_ok, routing_enabled, routing_disabled, heartbeat_ack, error, protocol_version,
  watchdog_timeout_secs,
}
use yarisugi.Netd.Config.{NetType, RoutingConfig, validate_config, TProxySettings, from_config}

-- What the daemon runs on: the two network types, and a routing backend over a system state.
pub record Environment : Type 1 where
  pub v4 : NetType
  pub v6 : NetType
  pub Os : Type 0
  pub enable : TProxySettings → Os → Result (Unit {0}) × Os
  pub disable : Option TProxySettings → Os → Result (Unit {0}) × Os

-- `NoopBackend`: both calls succeed and do nothing.
unfoldable pub noop : {A S : Type 0} → A → S → Result (Unit {0}) × S
noop settings os = (ok tt, os)

abbrev pub nanos_per_sec : ℕ
nanos_per_sec = 1000000000

unfoldable pub require_controller : ℕ → ℕ → Result (Unit {0})
require_controller request_session connection_session =
    bail_if (not (request_session == connection_session)) "session does not own the controller"

unfoldable pub heartbeat_allowed : Option ℕ → Bool → ℕ → Bool
heartbeat_allowed active_session routing_active session_id =
    routing_active && is_some_eq active_session session_id

module _ (env : Environment) where
  open env use {v4, v6, Os, enable, disable}

  pub record DaemonState : Type 0 where
    pub active_session : Option ℕ
    pub routing_active : Bool
    pub last_heartbeat : ℕ
    pub routing_config : Option (RoutingConfig v4 v6)

  -- `AppState`: the locked state and the system behind the backend.
  pub record App : Type 0 where
    pub daemon : DaemonState
    pub os : Os

  -- `main`, on a system state.
  unfoldable pub initial : ℕ → Os → App
  initial now os = record {
    daemon = record {
      active_session = none;
      routing_active = false;
      last_heartbeat = now;
      routing_config = none;
    };
    os = os;
  }

  abbrev pub set_daemon : (DaemonState → DaemonState) → App → App
  set_daemon f app = record app { daemon = f app.daemon }

  unfoldable pub claim : ℕ → ℕ → DaemonState → DaemonState
  claim session_id now d = record d { active_session = some session_id; last_heartbeat = now }

  unfoldable pub claim_controller : ℕ → ℕ → Action App (Unit {0})
  unfolding claim
  claim_controller session_id now app =
      if is_some app.daemon.active_session && not (is_some_eq app.daemon.active_session session_id)
      then (err "another controller session is already active", app)
      else (ok tt, set_daemon (claim session_id now) app)

  unfoldable pub release_session : ℕ → App → App
  release_session session_id app =
      if is_some_eq app.daemon.active_session session_id
      then record app { daemon = record (app.daemon) { active_session = none } }
      else app

  -- The last section of `EnableRouting`.
  unfoldable pub commit : ℕ → RoutingConfig v4 v6 → App → App
  commit now config =
      set_daemon
        λ d. record d { routing_active = true; last_heartbeat = now; routing_config = some config }

  unfoldable pub backend_enable : TProxySettings → Action App (Unit {0})
  backend_enable settings app =
      let (result, os') = enable settings app.os in (result, record app { os = os' })

  unfoldable pub backend_disable : Option TProxySettings → Action App (Unit {0})
  backend_disable settings app =
      let (result, os') = disable settings app.os in (result, record app { os = os' })

  -- What `rollback` reads under its first lock, and what it writes under its second.
  unfoldable pub rollback_settings : App → Option TProxySettings
  rollback_settings app = elim app.daemon.routing_config [
    | none ↦ none
    | some config ↦ some (from_config config)
  ]

  unfoldable pub clear : App → App
  clear =
      set_daemon
        λ d. record d { active_session = none; routing_active = false; routing_config = none }

  unfoldable pub rollback : Action App (Unit {0})
  rollback app = (do backend_disable (rollback_settings app); modify clear) app

  unfoldable pub beat : ℕ → App → App
  beat now = set_daemon λ d. record d { last_heartbeat = now }

  unfoldable pub handle_heartbeat : ℕ → ℕ → ℕ → Action App NetdResponse
  handle_heartbeat session_id sequence now app =
      if heartbeat_allowed app.daemon.active_session app.daemon.routing_active session_id
      then (ok (heartbeat_ack sequence), beat now app)
      else (err "session does not own the active controller", app)

  -- `now` is the time of the claim, `later` that of the commit.
  unfoldable pub handle_enable : ℕ → EnableArgs → ℕ → ℕ → Action App NetdResponse
  handle_enable session_id args now later = do
    config ← lift (validate_config v4 v6 args)
    claim_controller session_id now
    on_error (backend_enable (from_config config)) (release_session session_id)
    modify (commit later config)
    return routing_enabled

  unfoldable pub process_request : ℕ → NetdRequest → ℕ → ℕ → Action App NetdResponse
  process_request session_id (enable_routing request_session args) now later = do
    lift (require_controller request_session session_id)
    handle_enable session_id args now later
  process_request session_id (disable_routing request_session) now later = do
    lift (require_controller request_session session_id)
    rollback
    return routing_disabled
  process_request session_id (heartbeat request_session sequence) now later = do
    lift (require_controller request_session session_id)
    handle_heartbeat session_id sequence now
  process_request session_id (handshake client_version) now later =
      lift (err "handshake may only be sent once")

  -- One round of `spawn_watchdog`. `elapsed` stops at zero, as subtraction does here.
  unfoldable pub watchdog_expired : ℕ → App → Bool
  watchdog_expired now app =
      app.daemon.routing_active
      && ltb (watchdog_timeout_secs * nanos_per_sec) (now - app.daemon.last_heartbeat)

  -- A rollback that fails is logged; the state that it left stays.
  unfoldable pub watchdog_round : ℕ → App → App
  watchdog_round now app = if watchdog_expired now app then (rollback app).1 else app

  -- What a client connection delivers: a frame that was read and decoded, with the times of its
  -- handling and the outcome of writing the reply; or a frame that could not be read or decoded.
  pub data Frame : Type 0 where
    received : NetdRequest → ℕ → ℕ → Result (Unit {0}) → Frame
    broken : String → Frame

  unfoldable pub reply : Result NetdResponse → NetdResponse
  reply (ok response) = response
  reply (err e) = error e

  -- The request loop of `handle_client`, and the replies that were written.
  unfoldable pub serve : ℕ → List Frame → Action App (List NetdResponse)
  serve session_id [] app = (ok [], app)
  serve session_id (broken e ∷ frames) app = (err e, app)
  serve session_id (received request now later written ∷ frames) app =
      let (result, app') = process_request session_id request now later app in
      let rest = serve session_id frames app' in
      elim written [
        | err e ↦ (err e, app')
        | ok _ ↦ continue rest (λ replies s. (ok (reply result ∷ replies), s)) (λ e s. (err e, s))
      ]

  -- The end of a connection that was closed in order.
  unfoldable pub disconnect : ℕ → Action App (Unit {0})
  disconnect session_id app =
      if is_some_eq app.daemon.active_session session_id && app.daemon.routing_active
      then rollback app
      else (ok tt, release_session session_id app)

  unfoldable pub first_request : NetdRequest → Result (Unit {0})
  first_request (handshake client_version) =
      bail_if (not (client_version == protocol_version)) "protocol version mismatch"
  first_request (enable_routing _ _) = err "handshake is required before other requests"
  first_request (disable_routing _) = err "handshake is required before other requests"
  first_request (heartbeat _ _) = err "handshake is required before other requests"

  -- `handle_client` behind `authorize_uid`, for the session id that the counter hands out.
  unfoldable pub handle_client : ℕ → List Frame → Action App (List NetdResponse)
  handle_client session_id [] = lift (err "client closed before handshake")
  handle_client session_id (broken e ∷ frames) = lift (err e)
  handle_client session_id (received request now later written ∷ frames) = do
    lift (first_request request)
    lift written
    replies ← serve session_id frames
    disconnect session_id
    return (handshake_ok protocol_version session_id ∷ replies)
