-- ===== src/Adapter/Tests.antt =====
-- Runs of the supervisor on a small host, and its theorems at inputs that meet their hypotheses.
use yarisugi.Prelude.{
  ℕ, ◌≡◌, refl, true, false, List, Option, none, some, String, ok, err, ltb, arith,
}
use yarisugi.Adapter.Supervisor.{
  Host, Exit, exited, spawned, Session, check_command, new, is_running, apply_config,
}
use yarisugi.Adapter.Steps.{FileLaws, config_file}
use yarisugi.Adapter.Swaps.{apply_config-restored, apply_config-checked}

-- One file with a number in it; the core's check accepts the numbers below 100.
abbrev toy_run : List String → Option ℕ → Exit × Option ℕ
toy_run args none = (exited false "no configuration", none)
toy_run args (some n) = (exited (ltb n 100) "checked", some n)

abbrev toy : Host
toy = record {
  World = Option ℕ;
  Bytes = ℕ;
  read = λ path w. w;
  write = λ path b w. (ok tt, some b);
  run = toy_run;
  spawn = λ args w. (spawned 41, w);
  hang_up = λ pid w. (none, w);
  terminate = λ pid w. w;
}

toy_keeps : (args : List String) (w : Option ℕ) → (toy_run args w).1 ≡ w
toy_keeps args none = refl
toy_keeps args (some n) = refl

abbrev toy_laws : FileLaws toy
toy_laws = record {
  read_write = λ path b w w' h. ground arith;
  read_run = λ path args w. toy_keeps args w;
  read_spawn = λ path args w. refl;
  read_hang_up = λ path pid w. refl;
}

abbrev idle : Session toy
idle = record { supervisor = new "sing-box" "config.json"; world = none }

abbrev running : Session toy
running = record {
  supervisor = record { binary = "sing-box"; config_path = "config.json"; child = some 41 };
  world = some 7;
}

first_start : apply_config toy 7 idle ≡ (ok tt, running)
unfolding apply_config new
first_start = refl

rejected : apply_config toy 500 running ≡ (err "sing-box rejected the config: checked", running)
unfolding apply_config
rejected = refl

apply_config-restored_example :
    (config_file toy running ≡ some 7) × (running.supervisor.child ≡ some 41)
apply_config-restored_example =
    apply_config-restored toy toy_laws running running 500 7 "sing-box rejected the config: checked"
      refl (λ b w. (some b, refl)) rejected

apply_config-checked_example :
    (config_file toy running ≡ some 7)
    × (is_running running.supervisor ≡ true)
    × ((text : String) × (w w' : Option ℕ) × (w ≡ some 7)
        × (toy_run (check_command idle.supervisor) w ≡ (exited true text, w')))
apply_config-checked_example = apply_config-checked toy toy_laws idle running 7 first_start
