-- ===== src/Netd/Owners.antt =====
-- crates/netd/src/main.rs, `process_request`: the controller as one lock that sessions hold in turn.
use yarisugi.Prelude.{ℕ, ◌≡◌, ◌⊎◌, refl, Option, none, some, arith}
use yarisugi.Netd.Proto.{
  NetdRequest, handshake, enable_routing, disable_routing, heartbeat, EnableArgs,
}
use yarisugi.Netd.Daemon.{
  Environment, App, require_controller, heartbeat_allowed, claim, claim_controller, release_session,
  commit, backend_enable, backend_disable, clear, rollback, beat, handle_heartbeat, handle_enable,
  process_request,
}

-- Who may hold the lock after a request of a session: enabling takes a lock that is free or its own,
-- and holds it or gives it up; disabling frees it, whoever holds it; nothing else touches it, and a
-- request that names another session does not.
abbrev pub MayHold : ℕ → NetdRequest → Option ℕ → Option ℕ → Type 0
MayHold session_id (handshake version) owner after = after ≡ owner
MayHold session_id (enable_routing named args) owner after =
    (after ≡ owner)
    ⊎ ((named ≡ session_id)
        × ((owner ≡ none) ⊎ (owner ≡ some session_id))
        × ((after ≡ some session_id) ⊎ (after ≡ none)))
MayHold session_id (disable_routing named) owner after =
    (after ≡ owner) ⊎ ((named ≡ session_id) × (after ≡ none))
MayHold session_id (heartbeat named sequence) owner after = after ≡ owner

module _ (env : Environment) where
  handle_enable-MayHold :
      (session_id now later : ℕ) (args : EnableArgs) (app : App env)
      → MayHold session_id
          (enable_routing session_id args)
          app.daemon.active_session
          (handle_enable env session_id args now later app).1.daemon.active_session
  unfolding handle_enable claim_controller claim backend_enable release_session commit
  handle_enable-MayHold session_id now later args app = ground arith

  -- A request changes who controls the routing only as a lock allows: a session takes it only where
  -- nobody else holds it, by a request to enable routing; a session that holds it loses it only by
  -- another such request of its own, or by a request to disable routing, which any session may make;
  -- greetings, heartbeats, and requests in the name of another session leave it.
  pub process_request-MayHold :
      (session_id now later : ℕ) (request : NetdRequest) (app : App env)
      → MayHold session_id request app.daemon.active_session
          (process_request env session_id request now later app).1.daemon.active_session
  unfolding process_request require_controller rollback backend_disable clear handle_heartbeat
      heartbeat_allowed beat
  process_request-MayHold session_id now later (handshake version) app = refl
  process_request-MayHold session_id now later (enable_routing named args) app =
      ground (arith, handle_enable-MayHold session_id now later args app)
  process_request-MayHold session_id now later (disable_routing named) app = ground arith
  process_request-MayHold session_id now later (heartbeat named sequence) app = ground arith
