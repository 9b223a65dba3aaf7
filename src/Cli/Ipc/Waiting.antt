-- ===== src/Cli/Ipc/Waiting.antt =====
-- How long the command line waits for a daemon that it has started.
use sshflow.Prelude.{◌↔◌, ◌⊎◌, true, ℕ, zero, suc, ◌+◌, ◌*◌, ◌≤◌, ◌≡◌, arith}
use sshflow.Core.Protocol.{DaemonRequest}
use sshflow.System.{System}
use sshflow.Cli.Process.{Desk, World, is_done}
use sshflow.Cli.Exchange.Pauses.{slept_ms, slept_ms-send_raw}
use sshflow.Cli.Ipc.Polling.{answers, launched, AnswersWithin, ensure_daemon_running_iff}
use sshflow.Cli.Ipc.{is_daemon_reachable, pause, launch, poll, polls, ensure_daemon_running}

module _ {S : Type 0} (os : System) (desk : Desk S) where
  poll-slept :
      (n : ℕ) (w : World S) → slept_ms (poll os desk n w).1.trace ≤ slept_ms w.trace + n * 100
  unfolding poll is_daemon_reachable pause slept_ms
  poll-slept zero w = omega arith
  poll-slept (suc n) w = ground (
    arith,
    slept_ms-send_raw os desk DaemonRequest.ping w,
    poll-slept n (pause os desk (is_daemon_reachable os desk w).1).1,
  )

  launch-slept : (w : World S) → slept_ms (launch os desk w).1.trace ≡ slept_ms w.trace
  unfolding launch slept_ms
  launch-slept w = ground arith

  ensure_daemon_running-slept :
      (w : World S) → slept_ms (ensure_daemon_running os desk w).1.trace ≤ slept_ms w.trace + 4000
  unfolding ensure_daemon_running is_daemon_reachable
  ensure_daemon_running-slept w =
      let w' = (is_daemon_reachable os desk w).1 in
      ground (
        arith,
        slept_ms-send_raw os desk DaemonRequest.ping w,
        launch-slept w',
        poll-slept polls (launch os desk w').1,
      )

  -- The attempt to reach the daemon ends after at most four seconds of pauses. The daemon is then
  -- taken to run exactly when it answers the first ping, or when it can be started and answers a
  -- ping after fewer than 40 pauses.
  pub ensure_daemon_running_ends :
      (w : World S)
      → ((is_done (ensure_daemon_running os desk w).0 ≡ true) ↔ (
          (answers os desk w ≡ true)
          ⊎ ((is_done (launched os desk w).0 ≡ true)
              × AnswersWithin os desk 40 (launched os desk w).1)))
        × (slept_ms (ensure_daemon_running os desk w).1.trace ≤ slept_ms w.trace + 4000)
  ensure_daemon_running_ends w =
      (ensure_daemon_running_iff os desk w, ensure_daemon_running-slept w)
