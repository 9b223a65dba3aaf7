-- ===== src/Daemon/Health.antt =====
-- `check_all` of crates/daemon/src/health.rs: one round of the health check, without a request in
-- between.
pub mod Task
pub mod Checked
pub mod Rounds
pub mod Rule
pub mod Soundness
use sshflow.Prelude.{
  ℕ, Bool, true, false, List, [], ◌∷◌, Option, none, some, Text, Result, ok, err, if◌then◌else◌,
}
use sshflow.Core.Events.{reconnect, connection_closed}
use sshflow.Core.HostTarget.{display}
use sshflow.Config.{ConfigError, persist_time_duration}
use sshflow.System.{System}
use sshflow.Manager
use sshflow.Manager.{ManagedConnection}
use sshflow.Daemon.State.{
  DaemonState, mark_healthy, touch, remove, record_reconnect, dispatch, check_alive,
}
use sshflow.Daemon.Ensure.{Start, joined, lost, or_ten_minutes, start_blocking}

-- The state, or `none` where the task of the health check panics, with the state then.
pub data Round : Type 0 where
  goes_on : DaemonState → Round
  panics : DaemonState → Round

abbrev pub and_then : Round → (DaemonState → Round) → Round
and_then (goes_on d) f = f d
and_then (panics d) f = panics d

module _ (os : System) where
  unfoldable pub drop_stale : Text → ManagedConnection → DaemonState → DaemonState
  drop_stale key c d = dispatch os (connection_closed key (display c.target)) (remove os key d)

  unfoldable pub recovered : Text → ManagedConnection → DaemonState → DaemonState
  recovered key c d =
      dispatch os (reconnect key (display c.target) 1)
        (record_reconnect os (touch os key (mark_healthy os key true d)))

  unfoldable pub after_start : Text → ManagedConnection → Start × DaemonState → DaemonState
  unfolding drop_stale recovered
  after_start key c (joined (ok elapsed), d) = recovered key c d
  after_start key c (joined (err e), d) = drop_stale key c d
  after_start key c (lost e, d) = drop_stale key c d

  unfoldable pub try_reconnect :
      Text → ManagedConnection → Option (Result ConfigError ℕ) → DaemonState → Round
  unfolding after_start
  try_reconnect key c none d = panics d
  try_reconnect key c (some persist) d =
      goes_on
        (after_start key c (start_blocking os c.control_socket c.target (or_ten_minutes persist) d))

  unfoldable pub unresponsive : Text → ManagedConnection → DaemonState → Round
  unfolding try_reconnect drop_stale
  unresponsive key c d =
      if d.config.reconnect
      then try_reconnect key c (persist_time_duration d.config) d
      else goes_on (drop_stale key c d)

  unfoldable pub judged : Text → ManagedConnection → Bool × DaemonState → Round
  unfolding unresponsive
  judged key c (true, d) = goes_on (mark_healthy os key true d)
  judged key c (false, d) = unresponsive key c d

  unfoldable pub check_found : Text → Option ManagedConnection → DaemonState → Round
  unfolding judged
  check_found key none d = goes_on d
  check_found key (some c) d = judged key c (check_alive os c.control_socket c.target d)

  -- One key of the round.
  unfoldable pub check_key : Text → DaemonState → Round
  unfolding check_found
  check_key key d = check_found key (Manager.get_clone key d.connections) d

  unfoldable pub check_keys : List Text → DaemonState → Round
  check_keys [] d = goes_on d
  check_keys (key ∷ keys) d = and_then (check_key key d) (λ d'. check_keys keys d')

  -- The keys are those at the beginning of the round.
  unfoldable pub check_all : DaemonState → Round
  unfolding check_keys
  check_all d = check_keys (Manager.all_keys d.connections) d
