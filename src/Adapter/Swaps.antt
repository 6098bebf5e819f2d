-- ===== src/Adapter/Swaps.antt =====
-- crates/adapter/src/supervisor.rs, `apply_config`: what a swap of the configuration leaves behind.
use yarisugi.Prelude.{
  ◌≡◌, refl, ap, subst, ◌∙◌, inl, inr, true, Option, some, String, Result, ok, err, Bool-cases,
}
use yarisugi.Prelude.Effects.{continue, continue-eq-ok}
use yarisugi.Adapter.Supervisor.{
  Host, exited, Session, check_command, is_running, write_config, applying, restore, apply_config,
}
use yarisugi.Adapter.Steps.{
  FileLaws, config_file, KeepsAll, reload-KeepsAll, applying-KeepsAll, applying-ok,
}

module _ (host : Host) (laws : FileLaws host) where
  open host use {World, Bytes, read, write, run}
  open laws use {read_write}

  -- The session after a write of the configuration.
  abbrev wrote : Session host → World → Session host
  wrote s w = record s { world = w }

  write_config-ok :
      (s : Session host) (b : Bytes) (w : World)
      → write s.supervisor.config_path b s.world ≡ (ok tt, w)
      → write_config host b s ≡ (ok tt, wrote s w)
  unfolding write_config
  write_config-ok s b w h = rw h refl

  restore-file :
      (s : Session host) (old : Bytes)
      → ((w : World) → (w' : World) × (write s.supervisor.config_path old w ≡ (ok tt, w')))
      → (config_file host (restore host (some old) s) ≡ some old)
        × ((restore host (some old) s).supervisor.child ≡ s.supervisor.child)
  unfolding restore
  restore-file s old writable =
      let (w, h) = writable s.world in
      let (k, same) = reload-KeepsAll host laws (wrote s w) in
      let back = read_write s.supervisor.config_path old s.world w h in
      elim (Bool-cases (is_running s.supervisor)) [
        | inl running ↦ rw (write_config-ok s old w h, running) (k.file ∙ back, same)
        | inr stopped ↦ rw (write_config-ok s old w h, stopped) (back, refl)
      ]

  failed :
      (s t u : Session host) (old : Bytes) (e : String) (m : Result (Unit {0}) × Session host)
      → ((b : Bytes) (w : World)
          → (w' : World) × (write s.supervisor.config_path b w ≡ (ok tt, w')))
      → u.supervisor ≡ s.supervisor
      → ((v : Session host) (e' : String) → m ≡ (err e', v) → KeepsAll host u v)
      → ◌≡◌ {A = Result (Unit {0}) × Session host}
          (continue m (λ _ v. (ok tt, v)) (λ e' v. (err e', restore host (some old) v)))
          (err e, t)
      → (config_file host t ≡ some old) × (t.supervisor.child ≡ s.supervisor.child)
  failed s t u old e (ok done, v) writable same keeps h = cc
  failed s t u old e (err e', v) writable same keeps h =
      let (k, child) = keeps v e' refl in
      let path : v.supervisor.config_path ≡ s.supervisor.config_path =
        k.path ∙ ap (λ x. x.config_path) same in
      let (file, kept) = restore-file v old (rw path (writable old)) in
      subst (λ x. (config_file host x ≡ some old) × (x.supervisor.child ≡ s.supervisor.child))
        (ap (λ p. p.1) h) (file, kept ∙ child ∙ ap (λ x. x.child) same)

  -- Where files obey `FileLaws`, a swap that fails leaves the configuration that was there before and
  -- the child, if there was a configuration and the file can be written.
  pub apply_config-restored :
      (s t : Session host) (config old : Bytes) (e : String)
      → config_file host s ≡ some old
      → ((b : Bytes) (w : World)
          → (w' : World) × (write s.supervisor.config_path b w ≡ (ok tt, w')))
      → apply_config host config s ≡ (err e, t)
      → (config_file host t ≡ some old) × (t.supervisor.child ≡ s.supervisor.child)
  unfolding apply_config
  apply_config-restored s t config old e before writable h =
      let (w, done) = writable config s.world in
      let swap = rw (write_config-ok s config w done, before) at h in
      failed s t (wrote s w) old e (applying host (wrote s w)) writable refl
        (λ u e' g. applying-KeepsAll host laws (wrote s w) u e' g) swap

  swapped :
      (t : Session host) (old : Option Bytes) (m : Result (Unit {0}) × Session host)
      → ◌≡◌ {A = Result (Unit {0}) × Session host}
          (continue m (λ _ v. (ok tt, v)) (λ e v. (err e, restore host old v)))
          (ok tt, t)
      → m ≡ (ok tt, t)
  swapped t old (ok done, v) h = h
  swapped t old (err e, v) h = cc

  written :
      (s t : Session host) (b : Bytes) (o : Result (Unit {0}) × World)
      → ((w : World) → o ≡ (ok tt, w) → read s.supervisor.config_path w ≡ some b)
      → ◌≡◌ {A = Result (Unit {0}) × Session host}
          (continue o
            (λ _ w. (ok tt, record s { world = w }))
            (λ e w. (err e, record s { world = w })))
          (ok tt, t)
      → (config_file host t ≡ some b) × (t.supervisor ≡ s.supervisor)
  written s t b (ok done, w) back h =
      subst (λ x. (config_file host x ≡ some b) × (x.supervisor ≡ s.supervisor)) (ap (λ p. p.1) h)
        (back w refl, refl)
  written s t b (err e, w) back h = cc

  write_config-file :
      (s t : Session host) (b : Bytes)
      → write_config host b s ≡ (ok tt, t)
      → (config_file host t ≡ some b) × (t.supervisor ≡ s.supervisor)
  unfolding write_config
  write_config-file s t b h =
      written s t b (write s.supervisor.config_path b s.world)
        (λ w g. read_write s.supervisor.config_path b s.world w g) h

  -- Where files obey `FileLaws`, a swap that succeeds leaves the new configuration in the file, and the
  -- supervisor with a child, which need not run any more; and the core's own check has accepted the
  -- configuration.
  pub apply_config-checked :
      (s t : Session host) (config : Bytes)
      → apply_config host config s ≡ (ok tt, t)
      → (config_file host t ≡ some config)
        × (is_running t.supervisor ≡ true)
        × ((text : String) × (w w' : World) × (host.read s.supervisor.config_path w ≡ some config)
            × (run (check_command s.supervisor) w ≡ (exited true text, w')))
  unfolding apply_config
  apply_config-checked s t config h =
      let (_, u, done, g) = continue-eq-ok (write_config host config s) _ h in
      let (stored, path) = write_config-file s u config done in
      let (k, running, (text, w, exits)) =
        applying-ok host laws u t
          (swapped t (read s.supervisor.config_path s.world) (applying host u) g) in
      (
        k.file ∙ stored,
        running,
        (
          text,
          u.world,
          w,
          subst (λ x. read x.config_path u.world ≡ some config) path stored,
          subst (λ x. run (check_command x) u.world ≡ (exited true text, w)) path exits,
        ),
      )
