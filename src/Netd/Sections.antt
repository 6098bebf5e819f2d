-- ===== src/Netd/Sections.antt =====
-- crates/netd/src/main.rs under concurrency. Connections and the watchdog run at the same time,
-- and meet in the lock on the state: what runs under the lock, and each call of the backend, is
-- one section, and sections of different handlers interleave in any order.
use yarisugi.Prelude.{ℕ, ◌≡◌, refl, ◌⊎◌, List, [], ◌∷◌, Option, none, some, arith, is_some}
use yarisugi.Netd.Config.{RoutingConfig, TProxySettings}
use yarisugi.Netd.Daemon.{
  Environment, App, claim, claim_controller, release_session, commit, backend_enable,
  backend_disable, clear, beat, handle_heartbeat, initial,
}

module _ (env : Environment) where
  pub data Section : Type 0 where
    claims : ℕ → ℕ → Section
    enables : TProxySettings → Section
    commits : ℕ → RoutingConfig env.v4 env.v6 → Section
    releases : ℕ → Section
    disables : Option TProxySettings → Section
    clears : Section
    beats : ℕ → ℕ → ℕ → Section

  pub section : Section → App env → App env
  section (claims session_id now) app = (claim_controller env session_id now app).1
  section (enables settings) app = (backend_enable env settings app).1
  section (commits now config) app = commit env now config app
  section (releases session_id) app = release_session env session_id app
  section (disables settings) app = (backend_disable env settings app).1
  section clears app = clear env app
  section (beats session_id sequence now) app = (handle_heartbeat env session_id sequence now app).1

  pub interleave : List Section → App env → App env
  interleave [] app = app
  interleave (s ∷ rest) app = interleave rest (section s app)

  -- Routing is active exactly when the settings to undo it are kept.
  abbrev pub IsConsistent : App env → Type 0
  IsConsistent app = app.daemon.routing_active ≡ is_some app.daemon.routing_config

  section-IsConsistent :
      (s : Section) (app : App env) → IsConsistent app → IsConsistent (section s app)
  unfolding section claim_controller claim backend_enable commit release_session backend_disable
      clear handle_heartbeat beat
  section-IsConsistent (claims session_id now) app h = ground arith
  section-IsConsistent (enables settings) app h = ground arith
  section-IsConsistent (commits now config) app h = ground arith
  section-IsConsistent (releases session_id) app h = ground arith
  section-IsConsistent (disables settings) app h = ground arith
  section-IsConsistent clears app h = ground arith
  section-IsConsistent (beats session_id sequence now) app h = ground arith

  interleave-IsConsistent :
      (ss : List Section) (app : App env) → IsConsistent app → IsConsistent (interleave ss app)
  unfolding interleave
  interleave-IsConsistent [] app h = h
  interleave-IsConsistent (s ∷ ss) app h =
      interleave-IsConsistent ss (section s app) (section-IsConsistent s app h)

  -- From the start of the daemon, whatever the order in which the sections of its handlers run,
  -- routing is active exactly when a configuration to roll back is kept.
  pub interleave-initial-IsConsistent :
      (now : ℕ) (os : env.Os) (ss : List Section)
      → IsConsistent (interleave ss (initial env now os))
  unfolding initial
  interleave-initial-IsConsistent now os ss = interleave-IsConsistent ss _ refl

  -- No section hands control from one session to another: while a session is the controller, the
  -- next section leaves it the controller or leaves none.
  pub section-owner :
      (s : Section) (app : App env) (owner : ℕ)
      → app.daemon.active_session ≡ some owner
      → ((section s app).daemon.active_session ≡ some owner)
        ⊎ ((section s app).daemon.active_session ≡ none)
  unfolding section claim_controller claim backend_enable commit release_session backend_disable
      clear handle_heartbeat beat
  section-owner (claims session_id now) app owner h = ground arith
  section-owner (enables settings) app owner h = ground arith
  section-owner (commits now config) app owner h = ground arith
  section-owner (releases session_id) app owner h = ground arith
  section-owner (disables settings) app owner h = ground arith
  section-owner clears app owner h = ground arith
  section-owner (beats session_id sequence now) app owner h = ground arith
