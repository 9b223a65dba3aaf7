-- ===== src/Daemon/Interleaving/Settings.antt =====
-- No handler changes the limit on connections.
use sshflow.Prelude.{ℕ, ◌≤◌, ◌≡◌, true, Option, none, some, Text, ok, err, if_both, arith, leb}
use sshflow.Core.Events.{Event}
use sshflow.Core.HostTarget.{HostTarget, key}
use sshflow.Core.Protocol.{FilePath, DaemonRequest}
use sshflow.System.{System}
use sshflow.Manager
use sshflow.Manager.{ManagedConnection}
use sshflow.Ssh.{needs_interactive, failed}
use sshflow.Daemon.Doctor
use sshflow.Daemon.State.{
  DaemonState, insert_new, mark_reused, mark_healthy, touch, remove, record_connection,
  record_failure, record_reconnect, dispatch, stop, with_metrics,
}
use sshflow.Daemon.State.Frames.{evict_lru-frame}
use sshflow.Daemon.Ensure.{Start, joined, lost, reuse, make_room, settle, ensure_connection}
use sshflow.Daemon.Ensure.Rule.{ensure_connection-rule}
use sshflow.Daemon.Health.{drop_stale, after_start, recovered}
use sshflow.Daemon.Requests.{handle, register, snapshot_of, doctored, closed, close, count_event}
use sshflow.Daemon.Interleaving.Rule.{Keeps, Anywhere, Anything}

-- The limit is at most B.
abbrev pub Fits : ℕ → DaemonState → Type 0
Fits B d = d.config.max_connections ≤ B

module _ (os : System) (B : ℕ) where
  make_room-Fits : (d : DaemonState) → Fits B d → Fits B (make_room os d)
  unfolding make_room
  make_room-Fits d v =
      if_both (Fits B) (leb d.config.max_connections (Manager.len d.connections))
        (rw (evict_lru-frame os d) v) v

  reuse-Fits :
      (target : HostTarget) (existing : FilePath) (d : DaemonState)
      → Fits B d
      → Fits B (reuse os target existing d).1
  unfolding reuse mark_reused record_connection dispatch
  reuse-Fits target existing d v =
      if_both (Fits B) (Manager.contains (key target) d.connections) v v

  settle-Fits :
      (target : HostTarget) (socket : FilePath) (s : Start) (d : DaemonState)
      → Fits B d
      → Fits B (settle os target socket (s, d)).1
  unfolding settle insert_new record_connection record_failure dispatch
  settle-Fits target socket (joined (ok elapsed)) d v = v
  settle-Fits target socket (joined (err needs_interactive)) d v = v
  settle-Fits target socket (joined (err (failed message))) d v = v
  settle-Fits target socket (lost e) d v = v

  remove-Fits : (k : Text) (d : DaemonState) → Fits B d → Fits B (remove os k d)
  unfolding remove
  remove-Fits k d v = v

  closed-Fits :
      (k : Text) (o : Option ManagedConnection) (d : DaemonState)
      → Fits B d
      → Fits B (closed os k o d).1
  unfolding closed dispatch stop
  closed-Fits k none d v = v
  closed-Fits k (some c) d v = v

  drop_stale-Fits :
      (k : Text) (c : ManagedConnection) (d : DaemonState) → Fits B d → Fits B (drop_stale os k c d)
  unfolding drop_stale remove dispatch
  drop_stale-Fits k c d v = v

  after_start-Fits :
      (k : Text) (c : ManagedConnection) (s : Start) (d : DaemonState)
      → Fits B d
      → Fits B (after_start os k c (s, d))
  unfolding after_start recovered dispatch record_reconnect touch mark_healthy
  after_start-Fits k c (joined (ok elapsed)) d v =
      if_both (Fits B) (Manager.contains k (mark_healthy os k true d).connections) v v
  after_start-Fits k c (joined (err e)) d v = drop_stale-Fits k c d v
  after_start-Fits k c (lost e) d v = drop_stale-Fits k c d v

  ensure_connection-Fits :
      (target : HostTarget) (d : DaemonState) → Fits B d → Fits B (ensure_connection os target d).1
  ensure_connection-Fits target =
      ensure_connection-rule os target (Fits B) (λ t s v. v) (reuse-Fits target)
        (remove-Fits (key target)) make_room-Fits (settle-Fits target)

  doctored-limit :
      (d : DaemonState)
      → (doctored os (Doctor.run os d)).1.config.max_connections ≡ d.config.max_connections
  unfolding doctored Doctor.run
  doctored-limit d = ground arith

  count_event-Fits : (e : Event) (d : DaemonState) → Fits B d → Fits B (count_event os e d)
  unfolding count_event with_metrics
  count_event-Fits (Event.authentication_failed host reason) d v = v
  count_event-Fits _ d v = v

  handle-Fits : (r : DaemonRequest) (d : DaemonState) → Fits B d → Fits B (handle os r d).1
  unfolding handle register insert_new record_connection dispatch snapshot_of close
  handle-Fits (DaemonRequest.ensure_connection target) d v = ensure_connection-Fits target d v
  handle-Fits (DaemonRequest.close_connection k) d v = closed-Fits k _ _ (remove-Fits k d v)
  handle-Fits DaemonRequest.doctor d v = rw (doctored-limit d) v
  handle-Fits (DaemonRequest.record_event e) d v = count_event-Fits e d v
  handle-Fits DaemonRequest.ping d v = v
  handle-Fits (DaemonRequest.register_external_master target socket pid) d v = v
  handle-Fits DaemonRequest.status d v = v
  handle-Fits DaemonRequest.stats d v = v
  handle-Fits DaemonRequest.connections d v = v
  handle-Fits DaemonRequest.shutdown d v = v

  mark_healthy-Fits : (k : Text) (d : DaemonState) → Fits B d → Fits B (mark_healthy os k true d)
  unfolding mark_healthy
  mark_healthy-Fits k d v = v

  pub Keeps-Fits : Keeps os (Fits B) Anywhere Anything
  Keeps-Fits = record {
    traced = λ t d v. v;
    handle = λ q d a v. handle-Fits q d v;
    path = λ target d v socket e. tt;
    make_room = make_room-Fits;
    reuse = reuse-Fits;
    settle = λ target socket st d g v. settle-Fits target socket st d v;
    remove = remove-Fits;
    closed = closed-Fits;
    mark_healthy = mark_healthy-Fits;
    drop_stale = drop_stale-Fits;
    after_start = after_start-Fits;
  }
