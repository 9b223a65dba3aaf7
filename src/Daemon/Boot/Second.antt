-- ===== src/Daemon/Boot/Second.antt =====
-- A daemon that is started while another one serves the same home directory.
use sshflow.Prelude.{
  ◌≡◌, refl, ap, subst, Bool, true, false, List, [], ◌∷◌, ◌++◌, Option, Text, codes, Result, ok,
  err, is_ok, decimal,
}
use sshflow.Core.Protocol.{FilePath, DaemonRequest, DaemonResponse, join}
use sshflow.Config.{Config, ConfigError}
use sshflow.Config.Home.{sshflow_home, load, plugins_dir}
use sshflow.Config.Home.Effects.{plugins_dir-Kept}
use sshflow.Metrics.{PersistedState}
use sshflow.Plugins.{PluginDef}
use sshflow.Ssh.{socket_dir}
use sshflow.System.{
  System, Trace, Effect, created_dir, set_mode, connected, removed, wrote_file, wrote_metrics,
  read_clock,
}
use sshflow.Daemon.State.{DaemonState, start}
use sshflow.Daemon.Serve.{Failure, Happening, broken, already_listening, socket_path}
use sshflow.Daemon.Serve.Guard.{serve_unix-listening}
use sshflow.Daemon.Boot.{
  Step, then_with, config_step, io_step, pid_path, init_logging, write_pid_file, load_plugins,
  load_metrics, boot, finish, remove_pid_file, furnish, main,
}

-- An effect is in the trace.
abbrev pub Happened : Effect → Trace → Type 0
Happened e t = (later earlier : Trace) × (t ≡ later ++ e ∷ earlier)

Happened-later : (e f : Effect) (t : Trace) → Happened e t → Happened e (f ∷ t)
Happened-later e f t (later, earlier, h) = (f ∷ later, earlier, ap (λ s. f ∷ s) h)

then_with-Happened :
    {A B : Type 0} (e : Effect) (r : Result Failure A × Trace) (f : A → Step B)
    → Happened e r.1
    → ((a : A) (s : Trace) → Happened e s → Happened e (f a s).1)
    → Happened e (then_with r f).1
then_with-Happened e (ok a, s) f h k = k a s h
then_with-Happened e (err x, s) f h k = h

config_step-Happened :
    {A : Type 0} (e : Effect) (r : Result ConfigError A × Trace)
    → Happened e r.1
    → Happened e (config_step r).1
unfolding config_step
config_step-Happened e (ok a, s) h = h
config_step-Happened e (err x, s) h = h

io_step-trace : {A : Type 0} (r : Result Text A × Trace) → (io_step r).1 ≡ r.1
unfolding io_step
io_step-trace (ok a, t) = refl
io_step-trace (err e, t) = refl

module _ (os : System) (to_yaml : Config → Text) (from_yaml : Text → Result Text Config)
    (read_dir : Trace → FilePath → Option (List (Option FilePath)))
    (plugin_of : Text → Option PluginDef)
    (metrics_file : Trace → FilePath → Option PersistedState) where
  load_plugins-Happened :
      (e : Effect) (b : Bool) (t : Trace)
      → Happened e t
      → Happened e (load_plugins os to_yaml from_yaml read_dir plugin_of metrics_file b t).1
  unfolding load_plugins config_step
  load_plugins-Happened e false t h = h
  load_plugins-Happened e true t h =
      then_with-Happened e (config_step (plugins_dir os t)) _
        (config_step-Happened e (plugins_dir os t) (
          plugins_dir-Kept (Happened e)
            (record {
              by_dir = λ p s k. Happened-later e (created_dir p) s k;
              by_mode = λ p m s k. Happened-later e (set_mode p m) s k;
            })
            os t h))
        (λ dir s k. k)

  -- A daemon that was booted has written its PID file.
  abbrev Recorded : Result Failure DaemonState × Trace → Type 0
  Recorded (ok d, t) =
      (d.trace ≡ t) × Happened (wrote_file (pid_path d.home) (decimal os.process_id)) t
  Recorded (err e, t) = Unit

  then_with-Recorded :
      {A : Type 0} (P : Trace → Type 0) (r : Result Failure A × Trace) (f : A → Step DaemonState)
      → P r.1
      → ((a : A) (t : Trace) → P t → Recorded (f a t))
      → Recorded (then_with r f)
  then_with-Recorded P (ok a, t) f p h = h a t p
  then_with-Recorded P (err e, t) f p h = tt

  furnish-Recorded :
      (config : Config) (home : FilePath) (t : Trace)
      → Recorded (furnish os to_yaml from_yaml read_dir plugin_of metrics_file config home t)
  unfolding furnish load_metrics write_pid_file start
  furnish-Recorded config home t =
      let wrote = wrote_file (pid_path home) (decimal os.process_id) in
      then_with-Recorded (Happened wrote)
        (write_pid_file os to_yaml from_yaml read_dir plugin_of metrics_file home t) _
        ([], t, io_step-trace (os.write t (pid_path home), wrote ∷ t))
        (λ _ s h.
          then_with-Recorded (Happened wrote)
            (load_plugins os to_yaml from_yaml read_dir plugin_of metrics_file config.plugins s) _
            (load_plugins-Happened wrote config.plugins s h)
            (λ plugins s' k. (
              refl,
              Happened-later wrote (wrote_metrics (join home (codes "metrics.json")))
                  (read_clock ∷ s') (Happened-later wrote read_clock s' k),
            )))

  boot-Recorded :
      (foreground : Bool) (t : Trace)
      → Recorded (boot os to_yaml from_yaml read_dir plugin_of metrics_file foreground t)
  unfolding boot
  boot-Recorded foreground t =
      then_with-Recorded (λ _. Unit)
        (init_logging os to_yaml from_yaml read_dir plugin_of metrics_file foreground t) _ tt
        (λ _ t₁ _.
          then_with-Recorded (λ _. Unit) (config_step (load os to_yaml from_yaml t₁)) _ tt
            (λ config t₂ _.
              then_with-Recorded (λ _. Unit) (config_step (sshflow_home os t₂)) _ tt
                (λ home t₃ _.
                  then_with-Recorded (λ _. Unit) (io_step (socket_dir os home t₃)) _ tt
                    (λ _ t₄ _. furnish-Recorded config home t₄))))

  -- A daemon that finds another one listening on its socket ends with that error. It neither
  -- removes nor binds the socket, but it has written its own PID file in place of the other's, and
  -- removes it.
  pub main-second :
      (from_str : Text → Result Text DaemonRequest) (to_string : DaemonResponse → Result Text Text)
      (foreground : Bool) (hs : List Happening) (t t' : Trace) (d : DaemonState)
      → boot os to_yaml from_yaml read_dir plugin_of metrics_file foreground t ≡ (ok d, t')
      → os.exists t' (socket_path d) ≡ true
      → is_ok (os.connect t' (socket_path d)) ≡ true
      → (last : DaemonState) × (main os to_yaml from_yaml read_dir plugin_of metrics_file from_str
            to_string foreground hs t
          ≡ (ok (broken (already_listening (socket_path d)) last), t'))
        × (last.trace ≡ removed (pid_path d.home) ∷ connected (socket_path d) ∷ t')
        × Happened (wrote_file (pid_path d.home) (decimal os.process_id)) t'
  unfolding main finish remove_pid_file
  main-second from_str to_string foreground hs t t' d booted there heard =
      let (same, wrote) = subst Recorded booted (boot-Recorded foreground t) in
      let last = record d {
        shutdown = true;
        trace = removed (pid_path d.home) ∷ connected (socket_path d) ∷ d.trace;
      } in
      (
        last,
        rw (booted, serve_unix-listening os from_str to_string hs d (rw same there) (rw same heard))
            refl,
        ap (λ s. removed (pid_path d.home) ∷ connected (socket_path d) ∷ s) same,
        wrote,
      )
