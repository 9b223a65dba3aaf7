-- ===== src/Cli/Ipc.antt =====
-- `send` of crates/cli/src/ipc_client.rs: one request to the daemon, which is started if it does not
-- answer.
pub mod Polling
pub mod Waiting
use sshflow.Prelude.{
  ℕ, zero, suc, Bool, true, false, [], ◌∷◌, ◌++◌, Option, none, some, Text, codes, is_empty,
  if◌then◌else◌,
}
use sshflow.Core.Protocol.{FilePath, DaemonRequest, DaemonResponse, join}
use sshflow.Config.{trim}
use sshflow.Config.Home.{sshflow_home}
use sshflow.System.{System, Command, null, connected, spawned, slept}
use sshflow.Cli.Exchange.{send_raw}
use sshflow.Cli.Process.{
  Desk, World, Action, done, is_done, ◌>>=◌, ◌>>◌, pure, bail, with_context, raised, of_config,
  on_trace, on_peer, eprintln,
}

abbrev pub daemon_name : Bool → Text
daemon_name windows = if windows then codes "sshflow-daemon.exe" else codes "sshflow-daemon"

abbrev pub daemon_command : FilePath → Command
daemon_command path = record {
  program = path;
  args = [];
  stdin = null;
  stdout = null;
  stderr = null;
}

-- The number of polls, and the milliseconds between them.
abbrev pub polls : ℕ
polls = 40

abbrev pub poll_ms : ℕ
poll_ms = 100

module _ {S : Type 0} (os : System) (desk : Desk S) where
  -- The response and the error are dropped.
  unfoldable pub is_daemon_reachable : Action S Bool
  is_daemon_reachable w =
      let (r, w') = send_raw os desk DaemonRequest.ping w in (done (is_done r), w')

  unfoldable pub locate_daemon_binary : Option FilePath → World S → FilePath
  locate_daemon_binary none w = daemon_name os.windows
  locate_daemon_binary (some dir) w =
      let name = daemon_name os.windows in
      if os.is_file w.trace (join dir name) then join dir name else name

  unfoldable pub pause : Action S (Unit {0})
  pause w =
      (done tt, record w { peer = desk.sleep poll_ms w.peer; trace = slept poll_ms ∷ w.trace })

  unfoldable pub launch : Action S (Unit {0})
  launch w =
      let path = locate_daemon_binary desk.exe_dir w in
      let start = daemon_command path in
      (do
        eprintln (codes "sshflow: starting sshflow-daemon (" ++ path ++ codes ")...")
        with_context (codes "failed to spawn sshflow-daemon")
            (on_peer (spawned start []) (desk.spawn start)))
        w

  unfoldable pub poll : ℕ → Action S (Unit {0})
  poll zero = bail (codes "sshflow-daemon did not become reachable after starting it")
  poll (suc n) = do up ← is_daemon_reachable; if up then pure tt else (do pause; poll n)

  unfoldable pub ensure_daemon_running : Action S (Unit {0})
  ensure_daemon_running = do
    up ← is_daemon_reachable
    if up then pure tt else (do launch; poll polls)

  unfoldable pub send : DaemonRequest → Action S DaemonResponse
  send request = do ensure_daemon_running; send_raw os desk request
