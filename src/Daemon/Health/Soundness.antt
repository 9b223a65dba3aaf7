-- ===== src/Daemon/Health/Soundness.antt =====
-- A round of the health check keeps the table of connections well-formed.
use sshflow.Prelude.{Text, Bool, if_both}
use sshflow.System.{System}
use sshflow.Manager
use sshflow.Manager.{ManagedConnection}
use sshflow.Manager.Entries.{
  IsWellFormed, remove_connection-IsWellFormed, mark_healthy-IsWellFormed, touch-IsWellFormed,
}
use sshflow.Daemon.State.{DaemonState, mark_healthy, touch, remove, record_reconnect}
use sshflow.Daemon.Ensure.{Start}
use sshflow.Daemon.Health.{check_all, after_start}
use sshflow.Daemon.Health.Rule.{Holds, after_start-rule, check_all-rule}

abbrev Sound : DaemonState → Type 0
Sound d = IsWellFormed d.connections

module _ (os : System) where
  health-Sound :
      (k : Text) (healthy : Bool) (d : DaemonState) → Sound d → Sound (mark_healthy os k healthy d)
  unfolding mark_healthy
  health-Sound k healthy d v = mark_healthy-IsWellFormed k healthy d.connections v

  touch-Sound : (k : Text) (d : DaemonState) → Sound d → Sound (touch os k d)
  unfolding touch
  touch-Sound k d v =
      if_both Sound (Manager.contains k d.connections)
        (touch-IsWellFormed k (os.now d.trace) d.connections v) v

  count-Sound : (d : DaemonState) → Sound d → Sound (record_reconnect os d)
  unfolding record_reconnect
  count-Sound d v = v

  removal-Sound : (k : Text) (d : DaemonState) → Sound d → Sound (remove os k d)
  unfolding remove
  removal-Sound k d v = remove_connection-IsWellFormed k d.connections v

  pub after_start-IsWellFormed :
      (k : Text) (c : ManagedConnection) (s : Start) (d : DaemonState)
      → Sound d
      → Sound (after_start os k c (s, d))
  after_start-IsWellFormed =
      after_start-rule os Sound (λ t d v. v) health-Sound touch-Sound count-Sound removal-Sound

  pub check_all-IsWellFormed : (d : DaemonState) → Sound d → Holds Sound (check_all os d)
  check_all-IsWellFormed =
      check_all-rule os Sound (λ t d v. v) health-Sound touch-Sound count-Sound removal-Sound
