-- ===== src/Netd/Watchdog.antt =====
-- crates/netd/src/main.rs, `spawn_watchdog`: routing does not outlive its controller.
use yarisugi.Prelude.{ℕ, ◌+◌, ◌*◌, ◌≤◌, ◌<◌, ◌≡◌, ◌⊎◌, true, false, some, arith, ok}
use yarisugi.Netd.Proto.{heartbeat}
use yarisugi.Netd.Daemon.{
  Environment, App, rollback_settings, clear, rollback, backend_disable, watchdog_expired,
  watchdog_round, nanos_per_sec, process_request, require_controller, handle_heartbeat,
  heartbeat_allowed, beat,
}

module _ (env : Environment) where
  -- When active routing has had no sign of life for more than five seconds and the backend can
  -- undo it, the next round of the watchdog undoes it with the settings that were kept and leaves
  -- no controller.
  pub watchdog_round-clear :
      (now : ℕ) (app : App env) (os' : env.Os)
      → app.daemon.routing_active ≡ true
      → app.daemon.last_heartbeat + 5 * nanos_per_sec < now
      → env.disable (rollback_settings env app) app.os ≡ (ok tt, os')
      → watchdog_round env now app ≡ clear env (record app { os = os' })
  unfolding watchdog_round watchdog_expired rollback backend_disable clear
  watchdog_round-clear now app os' active late done = ground arith

  -- Within five seconds of the last sign of life, or with routing off, the watchdog does nothing.
  pub watchdog_round_idle :
      (now : ℕ) (app : App env)
      → (app.daemon.routing_active ≡ false) ⊎ (now ≤ app.daemon.last_heartbeat + 5 * nanos_per_sec)
      → watchdog_round env now app ≡ app
  unfolding watchdog_round watchdog_expired
  watchdog_round_idle now app quiet = ground arith

  -- Heartbeats that follow one another within five seconds keep the routing of their session: a
  -- round of the watchdog between two of them does nothing.
  pub heartbeat-watchdog_round :
      (session_id sequence sent later now : ℕ) (app : App env)
      → app.daemon.active_session ≡ some session_id
      → app.daemon.routing_active ≡ true
      → now ≤ sent + 5 * nanos_per_sec
      → let app' =
          (process_request env session_id (heartbeat session_id sequence) sent later app).1 in
        (watchdog_round env now app' ≡ app')
        × (app'.daemon.active_session ≡ some session_id)
        × (app'.daemon.routing_active ≡ true)
  unfolding process_request require_controller handle_heartbeat heartbeat_allowed beat
      watchdog_round watchdog_expired
  heartbeat-watchdog_round session_id sequence sent later now app owns active soon = ground arith
