-- ===== src/Daemon/Boot.antt =====
-- `main` of crates/daemon/src/main.rs: what happens before the daemon serves, and after. The tasks of
-- the health check and the signals run beside it; log lines are left out.
pub mod Second
pub mod Stopped
pub mod Reached
use sshflow.Prelude.{
  ℕ, Bool, true, false, List, [], ◌∷◌, ◌++◌, Option, none, some, Text, codes, Result, ok, err,
  decimal, is_ok, if◌then◌else◌,
}
use sshflow.Config.{Config, ConfigError}
use sshflow.Config.Home.{sshflow_home, logs_dir, plugins_dir, load}
use sshflow.Core.Protocol.{FilePath, DaemonRequest, DaemonResponse, join}
use sshflow.Metrics
use sshflow.Metrics.{PersistedState, MetricsStore}
use sshflow.Plugins
use sshflow.Plugins.{PluginDef, PluginManager, empty_plugins}
use sshflow.Ssh.{socket_dir}
use sshflow.System.{System, Trace, opened_log, wrote_file, wrote_metrics, read_clock, removed}
use sshflow.Daemon.State.{DaemonState, start}
use sshflow.Daemon.Serve.{
  Failure, config_failed, io_failed, Happening, Served, serving, stopped, broken, order_stop,
  serve_unix,
}
use sshflow.Daemon.Windows.{WindowsHappening, serve_windows}

abbrev pub Step : Type 0 → Type 0
Step A = Trace → Result Failure A × Trace

abbrev then_with :
    {A B : Type 0} → Result Failure A × Trace → (A → Step B) → Result Failure B × Trace
then_with (ok a, t) f = f a t
then_with (err e, t) f = (err e, t)

infixl 5 ◌>>=◌ ◌>>◌
abbrev ◌>>=◌ : {A B : Type 0} → Step A → (A → Step B) → Step B
(m >>= f) t = then_with (m t) f

abbrev ◌>>◌ : {A B : Type 0} → Step A → Step B → Step B
m >> k = m >>= λ _. k

abbrev pure : {A : Type 0} → A → Step A
pure a t = (ok a, t)

config_step : {A : Type 0} → Result ConfigError A × Trace → Result Failure A × Trace
config_step (ok a, t) = (ok a, t)
config_step (err e, t) = (err (config_failed e), t)

io_step : {A : Type 0} → Result Text A × Trace → Result Failure A × Trace
io_step (ok a, t) = (ok a, t)
io_step (err e, t) = (err (io_failed e), t)

abbrev pub pid_path : FilePath → FilePath
pid_path home = join home (codes "daemon.pid")

abbrev readable : Result Text Text → Option Text
readable (ok raw) = some raw
readable (err e) = none

module _ (os : System) (to_yaml : Config → Text) (from_yaml : Text → Result Text Config)
    -- `read_dir`, and `serde` for a plugin and for the file of the metrics.
    (read_dir : Trace → FilePath → Option (List (Option FilePath)))
    (plugin_of : Text → Option PluginDef)
    (metrics_file : Trace → FilePath → Option PersistedState) where
  open_log : FilePath → Step (Unit {0})
  unfolding io_step
  open_log dir t =
      let path = join dir (codes "daemon.log") in
      io_step (os.open_append t path, opened_log path ∷ t)

  init_logging : Bool → Step (Unit {0})
  unfolding open_log config_step
  init_logging true = pure tt
  init_logging false = do dir ← λ t. config_step (logs_dir os t); open_log dir

  write_pid_file : FilePath → Step (Unit {0})
  unfolding io_step
  write_pid_file home t =
      io_step (os.write t (pid_path home), wrote_file (pid_path home) (decimal os.process_id) ∷ t)

  load_plugins : Bool → Step PluginManager
  unfolding config_step
  load_plugins false = pure empty_plugins
  load_plugins true = do
    dir ← λ t. config_step (plugins_dir os t)
    λ t. (
      ok (Plugins.load (λ path. readable (os.read_to_string t path)) plugin_of (read_dir t dir)),
      t,
    )

  -- The clock is read, then the file, which is written anew.
  load_metrics : FilePath → Step MetricsStore
  load_metrics home t =
      let clocked = read_clock ∷ t in
      let path = join home (codes "metrics.json") in
      (
        ok (
            Metrics.load home (metrics_file clocked path) (os.now t)
              (is_ok (os.write clocked path))),
        wrote_metrics path ∷ clocked,
      )

  -- From the PID file on, to the state that is served.
  furnish : Config → FilePath → Step DaemonState
  unfolding write_pid_file load_plugins load_metrics
  furnish config home = do
    write_pid_file home
    plugins ← load_plugins config.plugins
    metrics ← load_metrics home
    λ t. (ok (start home config metrics plugins t), t)

  unfoldable pub boot : Bool → Step DaemonState
  unfolding init_logging config_step io_step furnish
  boot foreground = do
    init_logging foreground
    config ← λ t. config_step (load os to_yaml from_yaml t)
    home ← λ t. config_step (sshflow_home os t)
    λ t. io_step (socket_dir os home t)
    furnish config home

  remove_pid_file : DaemonState → DaemonState
  remove_pid_file d = record d { trace = removed (pid_path d.home) ∷ d.trace }

  -- After the loop: the order to stop goes to the other tasks, and the PID file goes.
  unfoldable pub finish : Served → Served
  unfolding remove_pid_file
  finish (serving d) = serving d
  finish (stopped d) = stopped (remove_pid_file (order_stop d))
  finish (broken e d) = broken e (remove_pid_file (order_stop d))

  module _ (from_str : Text → Result Text DaemonRequest)
      (to_string : DaemonResponse → Result Text Text) where
    -- A start that fails has no state.
    main_with : (DaemonState → Served) → Bool → Trace → Result Failure Served × Trace
    main_with serve foreground = do d ← boot foreground; pure (finish (serve d))

    unfoldable pub main : Bool → List Happening → Trace → Result Failure Served × Trace
    unfolding main_with
    main foreground hs = main_with (serve_unix os from_str to_string hs) foreground

    -- On Windows, with what its transport asks of the system.
    unfoldable pub main_windows :
        (Trace → ℕ → Result Text (Unit {0}))
        → (Trace → Result Text ℕ)
        → (Trace → List ℕ)
        → Bool
        → List WindowsHappening
        → Trace
        → Result Failure Served × Trace
    unfolding main_with
    main_windows tcp_connect tcp_bind fill_bytes foreground hs =
        main_with (serve_windows os from_str to_string tcp_connect tcp_bind fill_bytes hs)
          foreground
