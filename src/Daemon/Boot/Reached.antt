-- ===== src/Daemon/Boot/Reached.antt =====
-- The states that a daemon comes to between its start and its end.
use sshflow.Prelude.{
  ℕ, ◌≡◌, refl, subst, ap, Bool, List, Option, Text, Result, ok, err, is_empty, text_eq, if_both,
}
use sshflow.Config.{Config, ConfigError, trim}
use sshflow.Config.Home.{sshflow_home, load}
use sshflow.Core.Protocol.{FilePath, DaemonRequest, DaemonResponse}
use sshflow.Metrics.{MetricsStore, PersistedState}
use sshflow.Plugins.{PluginDef, PluginManager}
use sshflow.Ssh.{socket_dir}
use sshflow.System.{System, Trace}
use sshflow.Daemon.State.{DaemonState, start}
use sshflow.Daemon.Requests.{handle_stream, handle_stream_with_token}
use sshflow.Daemon.Requests.Wire.{handle_stream-rule}
use sshflow.Daemon.Reach.{Reach, here, next, request, passes, ordered}
use sshflow.Daemon.Serve.{Failure, Happening, Served, serving, stopped, broken, serve_unix}
use sshflow.Daemon.Serve.Rule.{state_of, serve_unix-rule}
use sshflow.Daemon.Windows.{WindowsHappening, serve_windows}
use sshflow.Daemon.Windows.Rule.{serve_windows-rule}
use sshflow.Daemon.Boot.{
  Step, then_with, config_step, io_step, init_logging, write_pid_file, load_plugins, load_metrics,
  boot, finish, remove_pid_file, furnish, main, main_with, main_windows,
}

-- A property of what a step gives.
abbrev Gives : {A : Type 0} → (A → Type 0) → Result Failure A × Trace → Type 0
Gives Q (ok a, t) = Q a
Gives Q (err e, t) = Unit

then_with-Gives :
    {A B : Type 0} (Q : B → Type 0) (r : Result Failure A × Trace) (f : A → Step B)
    → ((a : A) (t : Trace) → r ≡ (ok a, t) → Gives Q (f a t))
    → Gives Q (then_with r f)
then_with-Gives Q (ok a, t) f h = h a t refl
then_with-Gives Q (err e, t) f h = tt

config_step-ok :
    {A : Type 0} (r : Result ConfigError A × Trace) (a : A) (t : Trace)
    → config_step r ≡ (ok a, t)
    → r.0 ≡ ok a
unfolding config_step
config_step-ok {A} (ok a, t) b s e =
    let given : ◌≡◌ {A = Result Failure A} (ok a) (ok b) = ap (λ x. x.0) e in
    let same : a ≡ b = cc in ap ok same
config_step-ok {A} (err x, t) b s e = cc

module _ (os : System) (to_yaml : Config → Text) (from_yaml : Text → Result Text Config)
    (read_dir : Trace → FilePath → Option (List (Option FilePath)))
    (plugin_of : Text → Option PluginDef)
    (metrics_file : Trace → FilePath → Option PersistedState) where
  -- The state that a start gives: no connections yet, the home directory that was found, and the
  -- configuration that was loaded.
  abbrev Begun : DaemonState → Type 0
  Begun d =
      (home : FilePath) × (config : Config) × (metrics : MetricsStore) × (plugins : PluginManager)
      × (t t₁ t₂ : Trace) × (d ≡ start home config metrics plugins t)
      × ((sshflow_home os t₁).0 ≡ ok home)
      × ((load os to_yaml from_yaml t₂).0 ≡ ok config)

  furnish-Begun :
      (config : Config) (home : FilePath) (t t₁ t₂ : Trace)
      → (sshflow_home os t₁).0 ≡ ok home
      → (load os to_yaml from_yaml t₂).0 ≡ ok config
      → Gives Begun (furnish os to_yaml from_yaml read_dir plugin_of metrics_file config home t)
  unfolding furnish load_metrics
  furnish-Begun config home t t₁ t₂ found loaded =
      then_with-Gives Begun
        (write_pid_file os to_yaml from_yaml read_dir plugin_of metrics_file home t) _
        (λ _ s _.
          then_with-Gives Begun
            (load_plugins os to_yaml from_yaml read_dir plugin_of metrics_file config.plugins s) _
            (λ plugins s' _. (home, config, _, plugins, _, t₁, t₂, refl, found, loaded)))

  boot-Begun :
      (foreground : Bool) (t : Trace)
      → Gives Begun (boot os to_yaml from_yaml read_dir plugin_of metrics_file foreground t)
  unfolding boot
  boot-Begun foreground t =
      then_with-Gives Begun
        (init_logging os to_yaml from_yaml read_dir plugin_of metrics_file foreground t) _
        (λ _ t₁ _.
          then_with-Gives Begun (config_step (load os to_yaml from_yaml t₁)) _ (λ config t₂ loaded.
            then_with-Gives Begun (config_step (sshflow_home os t₂)) _ (λ home t₃ found.
              then_with-Gives Begun (io_step (socket_dir os home t₃)) _ (λ _ t₄ _.
                furnish-Begun config home t₄ t₂ t₁
                  (config_step-ok (sshflow_home os t₂) home t₃ found)
                  (config_step-ok (load os to_yaml from_yaml t₁) config t₂ loaded)))))

  finish-Reach :
      (s : DaemonState) (e : Served)
      → Reach os s (state_of e)
      → Reach os s (state_of (finish os to_yaml from_yaml read_dir plugin_of metrics_file e))
  unfolding finish remove_pid_file
  finish-Reach s (serving d) r = r
  finish-Reach s (stopped d) r = next (next r (ordered refl)) (passes _ refl)
  finish-Reach s (broken x d) r = next (next r (ordered refl)) (passes _ refl)

  module _ (from_str : Text → Result Text DaemonRequest)
      (to_string : DaemonResponse → Result Text Text) where
    -- The end is one of the states of the daemon that was begun.
    abbrev EndsIn : Served → Type 0
    EndsIn ended = (s : DaemonState) × Begun s × Reach os s (state_of ended)

    main_with-EndsIn :
        (serve : DaemonState → Served) (foreground : Bool) (t : Trace)
        → ((d : DaemonState) → Reach os d (state_of (serve d)))
        → Gives EndsIn (
            main_with os to_yaml from_yaml read_dir plugin_of metrics_file from_str to_string serve
              foreground t)
    unfolding main_with
    main_with-EndsIn serve foreground t served =
        then_with-Gives EndsIn
          (boot os to_yaml from_yaml read_dir plugin_of metrics_file foreground t) _
          (λ d t' e. (
            d,
            subst (Gives Begun) e (boot-Begun foreground t),
            finish-Reach d (serve d) (served d),
          ))

    stream-Reach :
        (s : DaemonState) (line : Result Text Text) (d : DaemonState)
        → Reach os s d
        → Reach os s (handle_stream os from_str to_string line d).1
    stream-Reach s line d r =
        handle_stream-rule os from_str to_string (Reach os s) d r (λ q. next r (request q refl))
          line

    token-Reach :
        (s : DaemonState) (token : Text) (first second : Result Text Text) (d : DaemonState)
        → Reach os s d
        → Reach os s (handle_stream_with_token os from_str to_string token first second d).1
    unfolding handle_stream_with_token
    token-Reach s token (err e) second d r = r
    token-Reach s token (ok first) second d r =
        let P = λ (x : Option Text × DaemonState). Reach os s x.1 in
        if_both P (is_empty first) r
          (if_both P (text_eq (trim first) token) (stream-Reach s second d r) r)

    -- A daemon that starts ends in a state that it has come to by whole requests, orders to stop and
    -- the use of the system, from one without connections that has the home directory that was found
    -- and the configuration that was loaded, whatever it meets in between.
    main-EndsIn :
        (foreground : Bool) (hs : List Happening) (t : Trace)
        → Gives EndsIn (
            main os to_yaml from_yaml read_dir plugin_of metrics_file from_str to_string foreground
              hs t)
    unfolding main
    main-EndsIn foreground hs t =
        main_with-EndsIn (serve_unix os from_str to_string hs) foreground t (λ d.
          serve_unix-rule os from_str to_string (Reach os d) (stream-Reach d)
            (λ d' r. next r (ordered refl)) (λ t' d' r. next r (passes t' refl)) hs d here)

    main_windows-EndsIn :
        (tcp_connect : Trace → ℕ → Result Text (Unit {0})) (tcp_bind : Trace → Result Text ℕ)
        (fill_bytes : Trace → List ℕ) (foreground : Bool) (hs : List WindowsHappening) (t : Trace)
        → Gives EndsIn (
            main_windows os to_yaml from_yaml read_dir plugin_of metrics_file from_str to_string
              tcp_connect tcp_bind fill_bytes foreground hs t)
    unfolding main_windows
    main_windows-EndsIn tcp_connect tcp_bind fill_bytes foreground hs t =
        main_with-EndsIn (serve_windows os from_str to_string tcp_connect tcp_bind fill_bytes hs)
          foreground t
          (λ d.
            serve_windows-rule os from_str to_string tcp_connect tcp_bind fill_bytes (Reach os d)
              (token-Reach d) (λ d' r. next r (ordered refl)) (λ t' d' r. next r (passes t' refl))
              hs d here)
