-- ===== src/Daemon/Requests/Registered.antt =====
-- A master that the command line started itself: it is tracked without regard to the limit, and
-- counted as a handshake of no time.
use sshflow.Prelude.{
  ℕ, suc, ◌/◌, ◌^◌, ◌<◌, ◌≡◌, refl, ◌∙◌, Bool, Option, none, some, Text, get, get-insert,
  length-insert, text_eq, if◌then◌else◌, arith,
}
use sshflow.Core.HostTarget.{HostTarget, key}
use sshflow.Core.Protocol.{FilePath, DaemonRequest, ack}
use sshflow.System.{System}
use sshflow.Manager
use sshflow.Manager.{new_connection}
use sshflow.Metrics
use sshflow.Metrics.{next_baseline, count_connection, persist, roll_day_if_needed}
use sshflow.Daemon.State.{DaemonState, insert_new, record_connection, dispatch}
use sshflow.Daemon.Requests.{handle, register}

module _ (os : System) (target : HostTarget) (socket : FilePath) (pid : Option ℕ) where
  abbrev request : DaemonRequest
  request = DaemonRequest.register_external_master target socket pid

  -- A registration is acknowledged and puts a fresh connection with the given socket under the
  -- target's key, leaving all others; a target that was not in the table adds one entry to it,
  -- whatever `maxConnections` is.
  pub register_tracks :
      (d : DaemonState)
      → let r = handle os request d in
        (r.0 ≡ some ack)
        × ((j : Text)
            → get j r.1.connections ≡ (
                if text_eq (key target) j
                then some (new_connection target socket pid none (os.now d.trace))
                else get j d.connections))
        × (Manager.len r.1.connections ≡ (
            if Manager.contains (key target) d.connections
            then Manager.len d.connections
            else suc (Manager.len d.connections)))
  unfolding handle register insert_new record_connection dispatch Manager.insert_new Manager.len
      Manager.contains
  register_tracks d =
      let c = new_connection target socket pid none (os.now d.trace) in
      (
        refl,
        λ j. get-insert (key target) j c d.connections,
        length-insert (key target) c d.connections,
      )

roll-baseline :
    (now : ℕ) (s : Metrics.MetricsStore)
    → (roll_day_if_needed now s).baseline_handshake_ms ≡ s.baseline_handshake_ms
unfolding roll_day_if_needed
roll-baseline now s = ground arith

persist-baseline :
    (written : Bool) (s : Metrics.MetricsStore)
    → (persist written s).baseline_handshake_ms ≡ s.baseline_handshake_ms
unfolding persist
persist-baseline written s = ground arith

-- A registration halves the baseline of the handshake time, from which the time saved by later
-- reuses is estimated, whatever the handshake took.
register-baseline :
    (os : System) (target : HostTarget) (socket : FilePath) (pid : Option ℕ) (d : DaemonState)
    → d.metrics.baseline_handshake_ms < 2 ^ 64
    → (handle os
        (DaemonRequest.register_external_master target socket pid)
        d).1.metrics.baseline_handshake_ms
      ≡ d.metrics.baseline_handshake_ms / 2
unfolding handle register insert_new record_connection dispatch Metrics.record_connection
    next_baseline
register-baseline os target socket pid d h =
    persist-baseline _ _ ∙ (rw (roll-baseline _ d.metrics) (omega arith))
