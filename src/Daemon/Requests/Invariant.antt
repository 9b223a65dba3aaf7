-- ===== src/Daemon/Requests/Invariant.antt =====
-- Every request keeps the table of connections well-formed.
use sshflow.Prelude.{
  ℕ, ◌≡◌, refl, inl, inr, Option, none, some, Text, ok, err, leb, arith, Bool-cases,
}
use sshflow.Core.Events.{Event}
use sshflow.Core.HostTarget.{HostTarget, key}
use sshflow.Core.Protocol.{FilePath, DaemonRequest}
use sshflow.System.{System}
use sshflow.Manager
use sshflow.Manager.{ManagedConnection, ConnectionManager}
use sshflow.Manager.Entries.{
  IsWellFormed, remove-IsWellFormed, remove_connection-IsWellFormed, insert_new-IsWellFormed,
  mark_reused-IsWellFormed,
}
use sshflow.Ssh.{needs_interactive, failed}
use sshflow.Daemon.Doctor
use sshflow.Daemon.State.{
  DaemonState, insert_new, mark_reused, remove, record_connection, record_failure, dispatch, stop,
  with_metrics,
}
use sshflow.Daemon.State.Frames.{evict_lru-frame, without}
use sshflow.Daemon.Ensure.{Start, joined, lost, reuse, make_room, settle, ensure_connection}
use sshflow.Daemon.Ensure.Rule.{ensure_connection-rule}
use sshflow.Daemon.Requests.{handle, register, snapshot_of, doctored, closed, close, count_event}

-- A state whose table is well-formed.
abbrev pub IsSound : DaemonState → Type 0
IsSound d = IsWellFormed d.connections

without-IsWellFormed :
    (o : Option Text) (m : ConnectionManager) → IsWellFormed m → IsWellFormed (without o m)
without-IsWellFormed none m v = v
without-IsWellFormed (some k) m v = remove-IsWellFormed k m v

module _ (os : System) where
  pub mark_reused-IsSound :
      (k : Text) (latency : ℕ) (d : DaemonState) → IsSound d → IsSound (mark_reused os k latency d)
  unfolding mark_reused
  mark_reused-IsSound k latency d v = elim (Bool-cases (Manager.contains k d.connections)) [
    | inl e ↦ rw (e, mark_reused) (mark_reused-IsWellFormed k latency (os.now d.trace) _ v)
    | inr e ↦ rw (e, mark_reused) v
  ]

  pub make_room-IsSound : (d : DaemonState) → IsSound d → IsSound (make_room os d)
  unfolding make_room
  make_room-IsSound d v =
      elim (Bool-cases (leb d.config.max_connections (Manager.len d.connections))) [
        | inl e ↦
            rw (e, make_room)
              (rw (evict_lru-frame os d)
                (without-IsWellFormed (Manager.least_recently_used d.connections) d.connections v))
        | inr e ↦ rw (e, make_room) v
      ]

  pub reuse-IsSound :
      (target : HostTarget) (existing : FilePath) (d : DaemonState)
      → IsSound d
      → IsSound (reuse os target existing d).1
  unfolding reuse record_connection dispatch
  reuse-IsSound target existing d v = mark_reused-IsSound (key target) (os.elapsed_ms d.trace) d v

  pub settle-IsSound :
      (target : HostTarget) (socket : FilePath) (s : Start) (d : DaemonState)
      → IsSound d
      → IsSound (settle os target socket (s, d)).1
  unfolding settle record_connection record_failure dispatch insert_new
  settle-IsSound target socket (joined (ok elapsed)) d v =
      insert_new-IsWellFormed target socket none (some elapsed) (os.now d.trace) d.connections v
  settle-IsSound target socket (joined (err needs_interactive)) d v = v
  settle-IsSound target socket (joined (err (failed message))) d v = v
  settle-IsSound target socket (lost e) d v = v

  pub remove-IsSound : (k : Text) (d : DaemonState) → IsSound d → IsSound (remove os k d)
  unfolding remove
  remove-IsSound k d v = remove_connection-IsWellFormed k d.connections v

  pub ensure_connection-IsSound :
      (target : HostTarget) (d : DaemonState)
      → IsSound d
      → IsSound (ensure_connection os target d).1
  ensure_connection-IsSound target =
      ensure_connection-rule os target IsSound (λ t d v. v) (reuse-IsSound target)
        (remove-IsSound (key target)) make_room-IsSound (settle-IsSound target)

  pub closed-IsSound :
      (k : Text) (o : Option ManagedConnection) (d : DaemonState)
      → IsSound d
      → IsSound (closed os k o d).1
  unfolding closed dispatch stop
  closed-IsSound k none d v = v
  closed-IsSound k (some c) d v = v

  pub count_event-connections :
      (e : Event) (d : DaemonState) → (count_event os e d).connections ≡ d.connections
  unfolding count_event with_metrics
  count_event-connections (Event.authentication_failed host reason) d = refl
  count_event-connections _ d = refl

  pub doctored-connections :
      (d : DaemonState) → (doctored os (Doctor.run os d)).1.connections ≡ d.connections
  unfolding doctored Doctor.run
  doctored-connections d = ground arith

  -- Whatever the request and the answers of the system, each connection stands once in the table
  -- afterwards and is under the key of its own target, if that was so before.
  pub handle-IsSound :
      (request : DaemonRequest) (d : DaemonState) → IsSound d → IsSound (handle os request d).1
  unfolding handle register record_connection dispatch insert_new snapshot_of close
  handle-IsSound DaemonRequest.ping d v = v
  handle-IsSound (DaemonRequest.ensure_connection target) d v = ensure_connection-IsSound target d v
  handle-IsSound (DaemonRequest.register_external_master target socket pid) d v =
      insert_new-IsWellFormed target socket pid none (os.now d.trace) d.connections v
  handle-IsSound DaemonRequest.status d v = v
  handle-IsSound DaemonRequest.stats d v = v
  handle-IsSound DaemonRequest.connections d v = v
  handle-IsSound DaemonRequest.doctor d v = rw (doctored-connections d) v
  handle-IsSound (DaemonRequest.close_connection k) d v =
      closed-IsSound k _ _ (remove-IsSound k d v)
  handle-IsSound (DaemonRequest.record_event e) d v = rw (count_event-connections e d) v
  handle-IsSound DaemonRequest.shutdown d v = v
