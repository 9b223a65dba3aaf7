-- ===== src/Daemon/Ensure.antt =====
-- `ensure_connection` of crates/daemon/src/ipc.rs: reuse a connection, or make one.
pub mod Rule
pub mod Ready
pub mod Capacity
use sshflow.Prelude.{
  ℕ, Bool, true, false, List, [], ◌∷◌, ◌++◌, Option, none, some, Text, codes, Result, ok, err, leb,
  if◌then◌else◌,
}
use sshflow.Core.Events.{
  Event, connection_opened, connection_closed, connection_reused, authentication_failed,
}
use sshflow.Core.HostTarget.{HostTarget, key, display}
use sshflow.Core.Protocol.{
  FilePath, DaemonResponse, connection_ready, needs_interactive_auth, error,
}
use sshflow.Config.{Config, ConfigError, persist_time_duration}
use sshflow.System.{System, Trace}
use sshflow.Manager
use sshflow.Ssh
use sshflow.Ssh.{StartMasterError, needs_interactive, failed}
use sshflow.Daemon.State.{
  DaemonState, insert_new, mark_reused, remove, record_connection, record_failure, dispatch,
  check_alive, evict_lru,
}

-- A handler that panics before it answers has no response.
abbrev pub Handled : Type 0
Handled = Option DaemonResponse × DaemonState

-- `unwrap_or(Duration::from_secs(600))`.
abbrev pub or_ten_minutes : Result ConfigError ℕ → ℕ
or_ten_minutes (ok secs) = secs
or_ten_minutes (err e) = 600

abbrev pub connect_timeout : ℕ
connect_timeout = 10

-- What `spawn_blocking(…).await` gives for a start.
pub data Start : Type 0 where
  joined : Result StartMasterError ℕ → Start
  lost : Text → Start

unfoldable pub start_of : Option Text → Result StartMasterError ℕ → Start
start_of none r = joined r
start_of (some e) r = lost e

module _ (os : System) where
  -- A start on a thread of its own.
  unfoldable pub start_blocking : FilePath → HostTarget → ℕ → DaemonState → Start × DaemonState
  unfolding start_of
  start_blocking socket target persist d =
      let (r, t) =
        Ssh.start_master_noninteractive os socket target persist connect_timeout d.trace in
      (start_of (os.join_error t) r, record d { trace = t })

  unfoldable pub reuse : HostTarget → FilePath → DaemonState → Handled
  reuse target existing d =
      let latency = os.elapsed_ms d.trace in
      let marked = mark_reused os (key target) latency d in
      let counted = record_connection os (key target) (display target) true latency marked in
      (
        some (connection_ready existing true latency),
        dispatch os (connection_reused (key target) (display target)) counted,
      )

  unfoldable pub make_room : DaemonState → DaemonState
  make_room d =
      if leb d.config.max_connections (Manager.len d.connections) then evict_lru os d else d

  -- The `match` on the outcome of the start.
  unfoldable pub settle : HostTarget → FilePath → Start × DaemonState → Handled
  settle target socket (joined (ok elapsed), d) =
      let tracked = insert_new os (key target) target socket none (some elapsed) d in
      let counted = record_connection os (key target) (display target) false elapsed tracked in
      (
        some (connection_ready socket false elapsed),
        dispatch os (connection_opened (key target) (display target)) counted,
      )
  settle target socket (joined (err needs_interactive), d) =
      (some (needs_interactive_auth socket), d)
  settle target socket (joined (err (failed message)), d) = (
    some (error message),
    dispatch os (authentication_failed (display target) message)
        (record_failure os (key target) (display target) d),
  )
  settle target socket (lost e, d) = (some (error (codes "internal error: " ++ e)), d)

  -- From the socket path on; the duration may panic.
  unfoldable pub start_at :
      HostTarget → FilePath → Option (Result ConfigError ℕ) → DaemonState → Handled
  start_at target socket none d = (none, d)
  start_at target socket (some persist) d =
      settle target socket (start_blocking socket target (or_ten_minutes persist) d)

  unfoldable pub start_in : HostTarget → Result Text FilePath → DaemonState → Handled
  unfolding start_at
  start_in target (err e) d =
      (some (error (codes "could not prepare control socket path: " ++ e)), d)
  start_in target (ok socket) d = start_at target socket (persist_time_duration d.config) d

  unfoldable pub establish : HostTarget → DaemonState → Handled
  unfolding start_in
  establish target d =
      let roomy = make_room d in
      let (path, t) = Ssh.control_socket_path os roomy.home target roomy.trace in
      start_in target path (record roomy { trace = t })

  unfoldable pub checked : HostTarget → FilePath → Bool × DaemonState → Handled
  checked target existing (true, d) = reuse target existing d
  checked target existing (false, d) = establish target (remove os (key target) d)

  unfoldable pub ensure_from : HostTarget → Option FilePath → DaemonState → Handled
  unfolding checked
  ensure_from target none d = establish target d
  ensure_from target (some existing) d = checked target existing (check_alive os existing target d)

  unfoldable pub ensure_connection : HostTarget → DaemonState → Handled
  unfolding ensure_from
  ensure_connection target d = ensure_from target (Manager.socket_for (key target) d.connections) d
