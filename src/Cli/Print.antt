-- ===== src/Cli/Print.antt =====
-- The commands of crates/cli/src/commands.rs that print a report of the daemon.
pub mod Checks
use sshflow.Prelude.{ℕ, ◌/◌, ◌%◌, List, [], ◌∷◌, ◌++◌, Text, codes, decimal, ltb, if◌then◌else◌}
use sshflow.Core.HostTarget.{display}
use sshflow.Core.Protocol.{
  ConnectionInfo, StatsSnapshot, DoctorCheck, DoctorReport, DaemonStatus, DaemonRequest,
  DaemonResponse, error, all_ok,
}
use sshflow.Metrics.Duration.{format_duration_ms}
use sshflow.System.{System, read_clock}
use sshflow.Cli.Process.{Desk, Action, Exit, finished, exited, ◌>>=◌, ◌>>◌, pure, bail, println}
use sshflow.Cli.Ipc.{send}
use sshflow.Cli.Format.{fmt_ago, pad, rounded}

abbrev pub unexpected : Text
unexpected = codes "unexpected daemon response"

-- A loop over a list.
each : {S A : Type 0} → (A → Action S (Unit {0})) → List A → Action S (Unit {0})
each f [] = pure tt
each f (a ∷ rest) = do f a; each f rest

-- A line that is printed only where a counter is not zero.
nonzero : {S : Type 0} → Text → ℕ → Action S (Unit {0})
nonzero label n = if ltb 0 n then println (label ++ decimal n) else pure tt

print_status : {S : Type 0} → DaemonStatus → Action S Exit
print_status s = do
  println (codes "SSHFlow daemon v" ++ s.version ++ codes " (pid " ++ decimal s.pid ++ codes ")")
  println (
      codes "Uptime: "
      ++ decimal (s.uptime_secs / 3600)
      ++ codes "h "
      ++ decimal (s.uptime_secs % 3600 / 60)
      ++ codes "m")
  println (codes "Active connections: " ++ decimal s.active_connections)
  println (codes "Plugins loaded: " ++ decimal s.plugins_loaded)
  pure finished

host_line : {S : Type 0} → Text × ℕ → Action S (Unit {0})
host_line (host, count) = println (codes "  " ++ pad 40 host ++ codes " " ++ decimal count)

print_hosts : {S : Type 0} → List (Text × ℕ) → Action S (Unit {0})
unfolding host_line each
print_hosts [] = pure tt
print_hosts (h ∷ hosts) = do
  println []
  println (codes "Most used hosts:")
  each host_line (h ∷ hosts)

print_stats : {S : Type 0} → StatsSnapshot → Action S Exit
unfolding nonzero print_hosts
print_stats s = do
  println (codes "Connections today: " ++ decimal s.connections_today)
  println (codes "Reused: " ++ decimal s.reused_today)
  println (codes "Time saved: " ++ format_duration_ms s.time_saved_ms)
  println (codes "Average latency: " ++ decimal (rounded s.average_latency_ms) ++ codes " ms")
  nonzero (codes "Failures: ") s.failures_today
  nonzero (codes "Reconnects: ") s.reconnects_today
  print_hosts s.most_used_hosts
  pure finished

columns : Text → Text → Text → Text → Text
columns host healthy reused used =
    pad 30 host
    ++ codes " "
    ++ pad 8 healthy
    ++ codes " "
    ++ pad 10 reused
    ++ codes " "
    ++ pad 10 used

check_line : {S : Type 0} → DoctorCheck → Action S (Unit {0})
check_line c =
    println (
      (if c.ok then codes "✅" else codes "❌")
      ++ codes " "
      ++ pad 28 c.name
      ++ codes " "
      ++ c.detail)

print_doctor : {S : Type 0} → DoctorReport → Action S Exit
unfolding check_line each
print_doctor report = do
  each check_line report.checks
  pure (if all_ok report then finished else exited 1)

module _ {S : Type 0} (os : System) where
  -- The clock is read for each line.
  connection_line : ConnectionInfo → Action S (Unit {0})
  unfolding columns
  connection_line c w =
      println
        (columns (display c.target) (if c.healthy then codes "yes" else codes "no")
          (decimal c.reused_count) (fmt_ago (os.now w.trace) c.last_used_unix))
        (record w { trace = read_clock ∷ w.trace })

  print_connections : List ConnectionInfo → Action S Exit
  unfolding connection_line columns each
  print_connections [] = do println (codes "No active managed connections."); pure finished
  print_connections (c ∷ list) = do
    println (columns (codes "HOST") (codes "HEALTHY") (codes "REUSED") (codes "LAST USED"))
    each connection_line (c ∷ list)
    pure finished

  -- The `match` of each command on its response.
  on_status : DaemonResponse → Action S Exit
  unfolding print_status
  on_status (DaemonResponse.status s) = print_status s
  on_status (error e) = bail e
  on_status _ = bail unexpected

  on_stats : DaemonResponse → Action S Exit
  unfolding print_stats
  on_stats (DaemonResponse.stats s) = print_stats s
  on_stats (error e) = bail e
  on_stats _ = bail unexpected

  on_connections : DaemonResponse → Action S Exit
  unfolding print_connections
  on_connections (DaemonResponse.connections list) = print_connections list
  on_connections (error e) = bail e
  on_connections _ = bail unexpected

  unfoldable pub on_doctor : DaemonResponse → Action S Exit
  unfolding print_doctor
  on_doctor (DaemonResponse.doctor report) = print_doctor report
  on_doctor (error e) = bail e
  on_doctor _ = bail unexpected

  module _ (desk : Desk S) where
    unfoldable pub status : Action S Exit
    unfolding on_status
    status = do response ← send os desk DaemonRequest.status; on_status response

    unfoldable pub stats : Action S Exit
    unfolding on_stats
    stats = do response ← send os desk DaemonRequest.stats; on_stats response

    unfoldable pub connections : Action S Exit
    unfolding on_connections
    connections = do response ← send os desk DaemonRequest.connections; on_connections response

    unfoldable pub doctor : Action S Exit
    unfolding on_doctor
    doctor = do response ← send os desk DaemonRequest.doctor; on_doctor response
