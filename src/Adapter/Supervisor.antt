-- ===== src/Adapter/Supervisor.antt =====
-- crates/adapter/src/supervisor.rs: the life of the core's process. Files, processes and signals
-- are a parameter. The two paths do not change; the child is known by its process number.
use Prim.Native.String.{◌++◌ as str_append}
use yarisugi.Prelude.{
  ℕ, Bool, true, false, List, [], ◌∷◌, Option, none, some, String, Result, ok, err, is_some,
  if◌then◌else◌,
}
use yarisugi.Prelude.Effects.{Action, continue, ◌>>◌}
use yarisugi.Prelude.Text.{to_string}

-- How a command ends: it cannot be run, or it exits, with success or with what it wrote to stderr,
-- trimmed.
pub data Exit : Type 0 where
  not_run : Exit
  exited : Bool → String → Exit

pub data Launch : Type 0 where
  not_spawned : Launch
  spawned : ℕ → Launch

-- `hang_up` and `terminate` signal a process; `hang_up` gives the system's error, if there is one,
-- and `terminate` also waits.
pub record Host : Type 1 where
  pub World : Type 0
  pub Bytes : Type 0
  pub read : String → World → Option Bytes
  pub write : String → Bytes → World → Result (Unit {0}) × World
  pub run : List String → World → Exit × World
  pub spawn : List String → World → Launch × World
  pub hang_up : ℕ → World → Option String × World
  pub terminate : ℕ → World → World

pub record Supervisor : Type 0 where
  pub binary : String
  pub config_path : String
  pub child : Option ℕ

pub record Session (host : Host) : Type 0 where
  pub supervisor : Supervisor
  pub world : host.World

unfoldable pub new : String → String → Supervisor
new binary config_path = record { binary = binary; config_path = config_path; child = none }

unfoldable pub check_command : Supervisor → List String
check_command s = s.binary ∷ "check" ∷ "-c" ∷ s.config_path ∷ []

unfoldable pub run_command : Supervisor → List String
run_command s = s.binary ∷ "run" ∷ "-c" ∷ s.config_path ∷ []

unfoldable pub is_running : Supervisor → Bool
is_running s = is_some s.child

abbrev not_run_message : Supervisor → String
not_run_message s =
    str_append "failed to run `"
      (str_append s.binary (str_append " check -c " (str_append s.config_path "`")))

module _ (host : Host) where
  open host use {World, Bytes, read, write, run, spawn, hang_up, terminate}

  unfoldable pub checked : Session host → Exit × World → Result (Unit {0}) × Session host
  checked s (not_run, w) = (err (not_run_message s.supervisor), record s { world = w })
  checked s (exited true _, w) = (ok tt, record s { world = w })
  checked s (exited false stderr, w) =
      (err (str_append "sing-box rejected the config: " stderr), record s { world = w })

  unfoldable pub validate_config : Action (Session host) (Unit {0})
  unfolding checked check_command
  validate_config s = checked s (run (check_command s.supervisor) s.world)

  unfoldable pub launched : Session host → Launch × World → Result (Unit {0}) × Session host
  launched s (not_spawned, w) = (
    err (str_append "failed to spawn `" (str_append s.supervisor.binary "`")),
    record s { world = w },
  )
  launched s (spawned pid, w) =
      (ok tt, record { supervisor = record s.supervisor { child = some pid }; world = w })

  unfoldable pub start : Action (Session host) (Unit {0})
  unfolding validate_config launched run_command
  start = do validate_config; λ s. launched s (spawn (run_command s.supervisor) s.world)

  unfoldable pub signalled :
      ℕ → Session host → Option String × World → Result (Unit {0}) × Session host
  signalled pid s (none, w) = (ok tt, record s { world = w })
  signalled pid s (some e, w) = (
    err (
        str_append "failed to signal SIGHUP to pid "
          (str_append (to_string pid) (str_append ": " e))),
    record s { world = w },
  )

  unfoldable pub hang_up_child : Option ℕ → Action (Session host) (Unit {0})
  unfolding signalled
  hang_up_child none s = (err "core is not running", s)
  hang_up_child (some pid) s = signalled pid s (hang_up pid s.world)

  unfoldable pub reload : Action (Session host) (Unit {0})
  unfolding validate_config hang_up_child
  reload = do validate_config; λ s. hang_up_child s.supervisor.child s

  unfoldable pub stop : Action (Session host) (Unit {0})
  stop s = elim s.supervisor.child [
    | none ↦ (ok tt, s)
    | some pid ↦ (
      ok tt,
      record { supervisor = record s.supervisor { child = none }; world = terminate pid s.world },
    )
  ]

  unfoldable pub write_config : Bytes → Action (Session host) (Unit {0})
  write_config bytes s =
      continue (write s.supervisor.config_path bytes s.world)
        (λ _ w. (ok tt, record s { world = w })) (λ e w. (err e, record s { world = w }))

  -- The closure `applying`.
  unfoldable pub applying : Action (Session host) (Unit {0})
  unfolding validate_config is_running reload start
  applying = do
    validate_config
    λ s. elim (is_running s.supervisor) [ true ↦ reload s | false ↦ start s ]

  -- What follows a failed `applying`.
  unfoldable pub restore : Option Bytes → Session host → Session host
  unfolding write_config is_running reload
  restore none s = s
  restore (some previous) s =
      continue (write_config previous s)
        (λ _ s'. if is_running s'.supervisor then (reload s').1 else s') (λ e s'. s')

  unfoldable pub apply_config : Bytes → Action (Session host) (Unit {0})
  unfolding write_config applying restore
  apply_config config_json s =
      let previous = read s.supervisor.config_path s.world in
      continue (write_config config_json s)
        (λ _ s'. continue (applying s') (λ _ t. (ok tt, t)) (λ e t. (err e, restore previous t)))
        (λ e s'. (err e, s'))
