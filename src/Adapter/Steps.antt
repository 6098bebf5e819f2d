-- ===== src/Adapter/Steps.antt =====
-- crates/adapter/src/supervisor.rs: what the supervisor's steps leave of the configuration file and of
-- the child.
use yarisugi.Prelude.{
  ℕ, ◌≡◌, refl, ap, subst, ◌∙◌, inl, inr, true, false, List, Option, none, some, String, Result, ok,
  err, is_some, Bool-cases,
}
use yarisugi.Prelude.Effects.{continue, continue-eq-ok, continue-eq-err}
use yarisugi.Adapter.Supervisor.{
  Host, Exit, not_run, exited, Launch, not_spawned, spawned, Session, check_command, is_running,
  checked, validate_config, launched, start, signalled, hang_up_child, reload, applying,
}

-- What the files of a system do: a write that succeeds is read back, and no command, process or
-- signal writes the configuration.
pub record FileLaws (host : Host) : Type 1 where
  pub read_write :
      (path : String) (b : host.Bytes) (w w' : host.World)
      → host.write path b w ≡ (ok tt, w')
      → host.read path w' ≡ some b
  pub read_run :
      (path : String) (args : List String) (w : host.World)
      → host.read path (host.run args w).1 ≡ host.read path w
  pub read_spawn :
      (path : String) (args : List String) (w : host.World)
      → host.read path (host.spawn args w).1 ≡ host.read path w
  pub read_hang_up :
      (path : String) (pid : ℕ) (w : host.World)
      → host.read path (host.hang_up pid w).1 ≡ host.read path w

-- The file that the core reads.
abbrev pub config_file : (host : Host) → Session host → Option host.Bytes
config_file host s = host.read s.supervisor.config_path s.world

-- A step that leaves the configuration file and the paths as they were.
pub record Keeps (host : Host) (s t : Session host) : Type 0 where
  pub file : config_file host t ≡ config_file host s
  pub path : t.supervisor.config_path ≡ s.supervisor.config_path

-- One that leaves the child, too.
abbrev pub KeepsAll : (host : Host) → Session host → Session host → Type 0
KeepsAll host s t = Keeps host s t × (t.supervisor.child ≡ s.supervisor.child)

module _ (host : Host) (laws : FileLaws host) where
  open host use {World, Bytes, read, write, run, spawn, hang_up}
  open laws use {read_write, read_run, read_spawn, read_hang_up}

  chain-KeepsAll :
      (s t u : Session host) → KeepsAll host s t → KeepsAll host t u → KeepsAll host s u
  chain-KeepsAll s t u (k, c) (k', c') =
      (record { file = k'.file ∙ k.file; path = k'.path ∙ k.path }, c' ∙ c)

  checked-KeepsAll :
      (s : Session host) (o : Exit × World)
      → read s.supervisor.config_path o.1 ≡ read s.supervisor.config_path s.world
      → KeepsAll host s (checked host s o).1
  unfolding checked
  checked-KeepsAll s (not_run, w) h = (record { file = h; path = refl }, refl)
  checked-KeepsAll s (exited true e, w) h = (record { file = h; path = refl }, refl)
  checked-KeepsAll s (exited false e, w) h = (record { file = h; path = refl }, refl)

  validate_config-KeepsAll : (s : Session host) → KeepsAll host s (validate_config host s).1
  unfolding validate_config
  validate_config-KeepsAll s = checked-KeepsAll s _ (read_run _ _ s.world)

  signalled-KeepsAll :
      (pid : ℕ) (s : Session host) (o : Option String × World)
      → read s.supervisor.config_path o.1 ≡ read s.supervisor.config_path s.world
      → KeepsAll host s (signalled host pid s o).1
  unfolding signalled
  signalled-KeepsAll pid s (none, w) h = (record { file = h; path = refl }, refl)
  signalled-KeepsAll pid s (some e, w) h = (record { file = h; path = refl }, refl)

  hang_up_child-KeepsAll :
      (child : Option ℕ) (s : Session host) → KeepsAll host s (hang_up_child host child s).1
  unfolding hang_up_child
  hang_up_child-KeepsAll none s = (record { file = refl; path = refl }, refl)
  hang_up_child-KeepsAll (some pid) s = signalled-KeepsAll pid s _ (read_hang_up _ pid s.world)

  -- Validation, then a step that keeps everything.
  then-KeepsAll :
      (k : Session host → Result (Unit {0}) × Session host) (s : Session host)
      (r : Result (Unit {0}) × Session host)
      → KeepsAll host s r.1
      → ((t : Session host) → KeepsAll host t (k t).1)
      → KeepsAll host s (continue r (λ _. k) (λ e t. (err e, t))).1
  then-KeepsAll k s (ok tt, t) h each = chain-KeepsAll s t (k t).1 h (each t)
  then-KeepsAll k s (err e, t) h each = h

  pub reload-KeepsAll : (s : Session host) → KeepsAll host s (reload host s).1
  unfolding reload
  reload-KeepsAll s =
      then-KeepsAll (λ t. hang_up_child host t.supervisor.child t) s _ (validate_config-KeepsAll s)
        (λ t. hang_up_child-KeepsAll t.supervisor.child t)

  launched-KeepsAll :
      (s t : Session host) (o : Launch × World) (e : String)
      → read s.supervisor.config_path o.1 ≡ read s.supervisor.config_path s.world
      → launched host s o ≡ (err e, t)
      → KeepsAll host s t
  unfolding launched
  launched-KeepsAll s t (not_spawned, w) e h g =
      subst (KeepsAll host s) (ap (λ p. p.1) g) (record { file = h; path = refl }, refl)
  launched-KeepsAll s t (spawned pid, w) e h g = cc

  launched-ok :
      (s t : Session host) (o : Launch × World)
      → read s.supervisor.config_path o.1 ≡ read s.supervisor.config_path s.world
      → launched host s o ≡ (ok tt, t)
      → Keeps host s t × (is_running t.supervisor ≡ true)
  unfolding launched is_running
  launched-ok s t (not_spawned, w) h g = cc
  launched-ok s t (spawned pid, w) h g =
      subst (λ u. Keeps host s u × (is_some u.supervisor.child ≡ true)) (ap (λ p. p.1) g)
        (record { file = h; path = refl }, refl)

  -- The state after an action that is known to end in it.
  ends :
      (s t : Session host) (m : Result (Unit {0}) × Session host) {r : Result (Unit {0})}
      → m ≡ (r, t)
      → KeepsAll host s m.1
      → KeepsAll host s t
  ends s t m h k = subst (KeepsAll host s) (ap (λ p. p.1) h) k

  start-KeepsAll : (s t : Session host) (e : String) → start host s ≡ (err e, t) → KeepsAll host s t
  unfolding start
  start-KeepsAll s t e h = elim (continue-eq-err (validate_config host s) _ h) [
    | inl failed ↦ ends s t _ failed (validate_config-KeepsAll s)
    | inr (_, u, valid, g) ↦
        chain-KeepsAll s u t (ends s u _ valid (validate_config-KeepsAll s))
          (launched-KeepsAll u t _ e (read_spawn _ _ u.world) g)
  ]

  start-ok :
      (s t : Session host)
      → start host s ≡ (ok tt, t)
      → Keeps host s t × (is_running t.supervisor ≡ true)
  unfolding start
  start-ok s t h =
      let (_, u, valid, g) = continue-eq-ok (validate_config host s) _ h in
      let (k, _) = ends s u _ valid (validate_config-KeepsAll s) in
      let (k', running) = launched-ok u t _ (read_spawn _ _ u.world) g in
      (record { file = k'.file ∙ k.file; path = k'.path ∙ k.path }, running)

  pub applying-KeepsAll :
      (s t : Session host) (e : String) → applying host s ≡ (err e, t) → KeepsAll host s t
  unfolding applying
  applying-KeepsAll s t e h = elim (continue-eq-err (validate_config host s) _ h) [
    | inl failed ↦ ends s t _ failed (validate_config-KeepsAll s)
    | inr (_, u, valid, g) ↦
        chain-KeepsAll s u t (ends s u _ valid (validate_config-KeepsAll s))
          (elim (Bool-cases (is_running u.supervisor)) [
            | inl running ↦ ends u t _ (rw running at g) (reload-KeepsAll u)
            | inr stopped ↦ start-KeepsAll u t e (rw stopped at g)
          ])
  ]

  checked-ok :
      (s t : Session host) (o : Exit × World)
      → checked host s o ≡ (ok tt, t)
      → (text : String) × (o ≡ (exited true text, t.world))
  unfolding checked
  checked-ok s t (not_run, w) h = cc
  checked-ok s t (exited true text, w) h = (text, cc)
  checked-ok s t (exited false text, w) h = cc

  valid_checked :
      (s u : Session host)
      → validate_config host s ≡ (ok tt, u)
      → checked host s (run (check_command s.supervisor) s.world) ≡ (ok tt, u)
  unfolding validate_config
  valid_checked s u h = h

  still_running :
      (u t : Session host)
      → t.supervisor.child ≡ u.supervisor.child
      → is_running u.supervisor ≡ true
      → is_running t.supervisor ≡ true
  unfolding is_running
  still_running u t same running = ap is_some same ∙ running

  pub applying-ok :
      (s t : Session host)
      → applying host s ≡ (ok tt, t)
      → Keeps host s t
        × (is_running t.supervisor ≡ true)
        × ((text : String) × (w : World) × (run (check_command s.supervisor) s.world
              ≡ (exited true text, w)))
  unfolding applying
  applying-ok s t h =
      let (_, u, valid, g) = continue-eq-ok (validate_config host s) _ h in
      let (k, _) = ends s u _ valid (validate_config-KeepsAll s) in
      let (text, exits) = checked-ok s u _ (valid_checked s u valid) in
      elim (Bool-cases (is_running u.supervisor)) [
        | inl running ↦
            let (k', same) = ends u t _ (rw running at g) (reload-KeepsAll u) in
            (
              record { file = k'.file ∙ k.file; path = k'.path ∙ k.path },
              still_running u t same running,
              (text, u.world, exits),
            )
        | inr stopped ↦
            let (k', running) = start-ok u t (rw stopped at g) in
            (
              record { file = k'.file ∙ k.file; path = k'.path ∙ k.path },
              running,
              (text, u.world, exits),
            )
      ]
