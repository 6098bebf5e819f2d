-- ===== src/Netd/Handlers.antt =====
-- crates/netd/src/main.rs, `process_request` and the end of `handle_client`, one call at a time.
use yarisugi.Prelude.{
  ℕ, ◌≡◌, ◌≢◌, ◌↔◌, ◌⊎◌, true, false, Option, none, some, String, arith, Result, ok, err,
}
use yarisugi.Netd.Proto.{
  EnableArgs, NetdRequest, NetdResponse, handshake, enable_routing, disable_routing, heartbeat,
  routing_enabled, routing_disabled, heartbeat_ack,
}
use yarisugi.Netd.Config.{RoutingConfig, validate_config, from_config}
use yarisugi.Netd.Daemon.{
  Environment, App, require_controller, heartbeat_allowed, claim, claim_controller, release_session,
  commit, backend_enable, backend_disable, rollback_settings, clear, rollback, handle_heartbeat,
  handle_enable, process_request, disconnect,
}

-- The session that a request names.
abbrev pub named_session : NetdRequest → Option ℕ
named_session (handshake _) = none
named_session (enable_routing session_id _) = some session_id
named_session (disable_routing session_id) = some session_id
named_session (heartbeat session_id _) = some session_id

abbrev not_owner : String
not_owner = "session does not own the controller"

abbrev contended : String
contended = "another controller session is already active"

module _ (env : Environment) where
  -- A request that names another session than its connection's is refused, and nothing changes.
  pub process_request-foreign :
      (session_id other now later : ℕ) (request : NetdRequest) (app : App env)
      → named_session request ≡ some other
      → other ≢ session_id
      → process_request env session_id request now later app ≡ (err not_owner, app)
  unfolding process_request require_controller
  process_request-foreign session_id other now later (handshake _) app h ne = cc
  process_request-foreign session_id other now later (enable_routing _ _) app h ne = ground arith
  process_request-foreign session_id other now later (disable_routing _) app h ne = ground arith
  process_request-foreign session_id other now later (heartbeat _ _) app h ne = ground arith

  -- What a session is told that asks for routing while another one controls it.
  unfoldable pub refusal : Result (RoutingConfig env.v4 env.v6) → Result NetdResponse
  refusal (ok _) = err contended
  refusal (err e) = err e

  -- While another session is the controller, a request to enable routing changes nothing, and is
  -- refused: with the reason why it is invalid, or else because there is a controller.
  pub handle_enable-contended :
      (session_id owner now later : ℕ) (args : EnableArgs) (app : App env)
      → app.daemon.active_session ≡ some owner
      → owner ≢ session_id
      → handle_enable env session_id args now later app
        ≡ (refusal (validate_config env.v4 env.v6 args), app)
  unfolding handle_enable claim_controller refusal
  handle_enable-contended session_id owner now later args app h ne = ground arith

  -- The state behind a request to enable routing that reached the backend, by the outcome.
  unfoldable pub enabled :
      ℕ
      → ℕ
      → ℕ
      → RoutingConfig env.v4 env.v6
      → App env
      → Result (Unit {0}) × env.Os
      → Result NetdResponse × App env
  enabled session_id now later config app (ok _, os') = (
    ok routing_enabled,
    record {
      daemon = record {
        active_session = some session_id;
        routing_active = true;
        last_heartbeat = later;
        routing_config = some config;
      };
      os = os';
    },
  )
  enabled session_id now later config app (err e, os') = (
    err e,
    record {
      daemon = record {
        active_session = none;
        routing_active = app.daemon.routing_active;
        last_heartbeat = now;
        routing_config = app.daemon.routing_config;
      };
      os = os';
    },
  )

  -- A valid request from a session that no other one stands against runs the backend once, with
  -- the settings of its configuration. If that succeeds, the session controls active routing with
  -- that configuration; if not, it has the error and nobody is the controller.
  pub handle_enable-enabled :
      (session_id now later : ℕ) (args : EnableArgs) (config : RoutingConfig env.v4 env.v6)
      (app : App env)
      → validate_config env.v4 env.v6 args ≡ ok config
      → (app.daemon.active_session ≡ none) ⊎ (app.daemon.active_session ≡ some session_id)
      → handle_enable env session_id args now later app
        ≡ enabled session_id now later config app (env.enable (from_config config) app.os)
  unfolding handle_enable claim_controller claim backend_enable release_session commit enabled
  handle_enable-enabled session_id now later args config app valid free = ground arith

  -- A controller with active routing that asks again, and whose backend fails, is left with
  -- routing that is still active and that no session controls: its next heartbeat is refused.
  pub reenable_failure_orphans :
      (session_id now later beat_at sequence : ℕ) (args : EnableArgs) (app : App env)
      (config : RoutingConfig env.v4 env.v6) (os' : env.Os) (e : String)
      → validate_config env.v4 env.v6 args ≡ ok config
      → app.daemon.active_session ≡ some session_id
      → app.daemon.routing_active ≡ true
      → env.enable (from_config config) app.os ≡ (err e, os')
      → let app' = (handle_enable env session_id args now later app).1 in
        (app'.daemon.routing_active ≡ true)
        × (app'.daemon.active_session ≡ none)
        × (handle_heartbeat env session_id sequence beat_at app'
            ≡ (err "session does not own the active controller", app'))
  unfolding handle_enable claim_controller claim backend_enable release_session commit
      handle_heartbeat heartbeat_allowed
  reenable_failure_orphans session_id now later beat_at sequence args app config os' e valid owns
        active failed =
      ground arith

  -- A heartbeat is acknowledged exactly when its session controls active routing.
  pub handle_heartbeat_iff :
      (session_id sequence now : ℕ) (app : App env)
      → ((handle_heartbeat env session_id sequence now app).0 ≡ ok (heartbeat_ack sequence))
        ↔ ((app.daemon.active_session ≡ some session_id) × (app.daemon.routing_active ≡ true))
  unfolding handle_heartbeat heartbeat_allowed
  handle_heartbeat_iff session_id sequence now app = ground arith

  -- Any session may ask to disable routing: whoever controls it, where the backend disables what the
  -- state says was enabled, the request is granted, no session controls routing any more, routing is
  -- not active, no configuration is kept, and the system is as the backend left it.
  pub process_request-disable :
      (session_id now later : ℕ) (app : App env) (os' : env.Os)
      → env.disable (rollback_settings env app) app.os ≡ (ok tt, os')
      → let (answer, after) =
          process_request env session_id (disable_routing session_id) now later app in
        (answer ≡ ok routing_disabled)
        × (after.daemon.active_session ≡ none)
        × (after.daemon.routing_active ≡ false)
        × (after.daemon.routing_config ≡ none)
        × (after.os ≡ os')
  unfolding process_request require_controller rollback backend_disable clear
  process_request-disable session_id now later app os' done = ground arith

  -- After a connection closed in order whose rollback, if it needs one, succeeds, its session is
  -- not the controller any more.
  pub disconnect-releases :
      (session_id : ℕ) (app : App env)
      → (disconnect env session_id app).0 ≡ ok tt
      → (disconnect env session_id app).1.daemon.active_session ≢ some session_id
  unfolding disconnect rollback backend_disable clear release_session
  disconnect-releases session_id app h = ground arith
