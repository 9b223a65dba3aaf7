-- ===== src/Cli/Connect.antt =====
-- `ssh` of crates/cli/src/commands.rs: a socket is had from the daemon, or made in the foreground.
-- The client takes the process's place on Unix, and is waited for on Windows.
pub mod Client
use sshflow.Prelude.{
  ℕ, Bool, true, false, List, ◌++◌, Option, none, some, Text, codes, Result, ok, err, decimal,
  unwrap_or, if◌then◌else◌, ◌∷◌,
}
use sshflow.Core.HostTarget.{HostTarget, parse}
use sshflow.Core.Protocol.{
  FilePath, DaemonRequest, DaemonResponse, connection_ready, needs_interactive_auth, error,
}
use sshflow.Config.{Config, ConfigError, persist_time_duration}
use sshflow.Config.Home.{load}
use sshflow.Ssh.{start_master_interactive, client_command}
use sshflow.System.{System, Command, ran}
use sshflow.Core.Errors.{io}
use sshflow.Daemon.Ensure.{or_ten_minutes}
use sshflow.Cli.Process.{
  Desk, Action, Exit, replaced, exited, done, failed, panicked, core_chain, ◌>>=◌, ◌>>◌, pure, bail,
  of_config, of_core, on_trace, eprintln,
}
use sshflow.Cli.Ipc.{send}

ready_message : Text → Bool → ℕ → Text
ready_message target true latency =
    codes "sshflow: reusing connection to "
    ++ target
    ++ codes " ("
    ++ decimal latency
    ++ codes " ms)"
ready_message target false latency =
    codes "sshflow: connected to "
    ++ target
    ++ codes " ("
    ++ decimal latency
    ++ codes " ms handshake, now multiplexed)"

module _ {S : Type 0} (os : System) (to_yaml : Config → Text)
    (from_yaml : Text → Result Text Config) (desk : Desk S) where
  -- The outcome of the registration is dropped.
  unfoldable pub register : HostTarget → FilePath → Action S (Unit {0})
  register host_target socket w =
      (done tt, (send os desk (DaemonRequest.register_external_master host_target socket none) w).1)

  -- The duration may panic.
  unfoldable pub start_directly :
      Option (Result ConfigError ℕ) → HostTarget → FilePath → Action S FilePath
  start_directly none host_target socket = λ w. (panicked, w)
  start_directly (some persist) host_target socket = do
    on_trace of_core (start_master_interactive os socket host_target (or_ten_minutes persist))
    register host_target socket
    pure socket

  unfoldable pub connect_directly : Text → HostTarget → FilePath → Action S FilePath
  unfolding start_directly
  connect_directly target host_target socket = do
    eprintln (
        codes "sshflow: "
        ++ target
        ++ codes " needs interactive authentication, connecting directly...")
    config ← on_trace of_config (load os to_yaml from_yaml)
    start_directly (persist_time_duration config) host_target socket

  unfoldable pub socket_from : Text → HostTarget → DaemonResponse → Action S FilePath
  unfolding ready_message
  socket_from target host_target (connection_ready socket reused latency) = do
    eprintln (ready_message target reused latency)
    pure socket
  socket_from target host_target (needs_interactive_auth socket) =
      connect_directly target host_target socket
  socket_from target host_target (error message) = bail message
  socket_from target host_target _ = bail (codes "unexpected daemon response")

  exec_unix : Command → Action S Exit
  exec_unix client w = elim (desk.exec w.trace client) [
    | none ↦ (done (replaced client), w)
    | some e ↦ bail (codes "failed to launch ssh: " ++ e) w
  ]

  -- A client that has no exit code counts as 1.
  exec_windows : Command → Action S Exit
  exec_windows client w =
      let ended = record w { trace = ran client ∷ w.trace } in
      elim (desk.wait w.trace client) [
        | ok code ↦ (done (exited (unwrap_or code 1)), ended)
        | err e ↦ (failed (core_chain (io e)), ended)
      ]

  unfoldable pub exec_client : FilePath → HostTarget → List Text → Action S Exit
  unfolding exec_unix exec_windows
  exec_client socket host_target extra_args w =
      let client = client_command os.windows socket host_target extra_args in
      if os.windows then exec_windows client w else exec_unix client w

  unfoldable pub ssh : Text → List Text → Action S Exit
  ssh target extra_args = do
    host_target ← λ w. (of_core (parse target), w)
    response ← send os desk (DaemonRequest.ensure_connection host_target)
    socket ← socket_from target host_target response
    exec_client socket host_target extra_args
