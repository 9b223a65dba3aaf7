-- ===== src/Daemon/Requests/Settings.antt =====
-- What no request changes: the home directory, and, but for the request to stop, the order to stop.
use sshflow.Prelude.{
  ◌≡◌, refl, ◌∙◌, ap, Bool, Option, none, some, Text, ok, err, if_both, arith, leb,
}
use sshflow.Core.Events.{Event}
use sshflow.Core.HostTarget.{HostTarget, key}
use sshflow.Core.Protocol.{FilePath, DaemonRequest}
use sshflow.System.{System}
use sshflow.Manager
use sshflow.Manager.{ManagedConnection}
use sshflow.Ssh.{needs_interactive, failed}
use sshflow.Daemon.Doctor
use sshflow.Daemon.State.{
  DaemonState, insert_new, mark_reused, remove, record_connection, record_failure, dispatch, stop,
  with_metrics,
}
use sshflow.Daemon.State.Frames.{evict_lru-frame}
use sshflow.Daemon.Ensure.{Start, joined, lost, reuse, make_room, settle, ensure_connection}
use sshflow.Daemon.Ensure.Rule.{ensure_connection-rule}
use sshflow.Daemon.Requests.{handle, register, snapshot_of, doctored, closed, close, count_event}

-- The second state has the order to stop and the home directory of the first.
abbrev pub Stays : DaemonState → DaemonState → Type 0
Stays d d' = (d'.shutdown ≡ d.shutdown) × (d'.home ≡ d.home)

onwards :
    {x x' x'' : Bool} {y y' y'' : FilePath}
    → (x' ≡ x) × (y' ≡ y)
    → (x'' ≡ x') × (y'' ≡ y')
    → (x'' ≡ x) × (y'' ≡ y)
onwards s t = (t.0 ∙ s.0, t.1 ∙ s.1)

module _ (os : System) where
  make_room-Stays : (d : DaemonState) → Stays d (make_room os d)
  unfolding make_room
  make_room-Stays d =
      if_both (Stays d) (leb d.config.max_connections (Manager.len d.connections))
        (ap (λ s. s.shutdown) (evict_lru-frame os d), ap (λ s. s.home) (evict_lru-frame os d))
        (refl, refl)

  pub reuse-Stays :
      (target : HostTarget) (existing : FilePath) (d : DaemonState)
      → Stays d (reuse os target existing d).1
  unfolding reuse mark_reused record_connection dispatch
  reuse-Stays target existing d =
      if_both (Stays d) (Manager.contains (key target) d.connections) (refl, refl) (refl, refl)

  settle-Stays :
      (target : HostTarget) (socket : FilePath) (s : Start) (d : DaemonState)
      → Stays d (settle os target socket (s, d)).1
  unfolding settle insert_new record_connection record_failure dispatch
  settle-Stays target socket (joined (ok elapsed)) d = (refl, refl)
  settle-Stays target socket (joined (err needs_interactive)) d = (refl, refl)
  settle-Stays target socket (joined (err (failed message))) d = (refl, refl)
  settle-Stays target socket (lost e) d = (refl, refl)

  pub ensure_connection-Stays :
      (target : HostTarget) (d : DaemonState) → Stays d (ensure_connection os target d).1
  unfolding remove
  ensure_connection-Stays target d =
      ensure_connection-rule os target (Stays d) (λ t s e. e)
        (λ existing s e. onwards e (reuse-Stays target existing s)) (λ s e. e)
        (λ s e. onwards e (make_room-Stays s))
        (λ socket r s e. onwards e (settle-Stays target socket r s)) d (refl, refl)

  pub closed-Stays :
      (k : Text) (o : Option ManagedConnection) (d : DaemonState) → Stays d (closed os k o d).1
  unfolding closed dispatch stop
  closed-Stays k none d = (refl, refl)
  closed-Stays k (some c) d = (refl, refl)

  pub count_event-Stays : (e : Event) (d : DaemonState) → Stays d (count_event os e d)
  unfolding count_event with_metrics
  count_event-Stays (Event.authentication_failed host reason) d = (refl, refl)
  count_event-Stays _ d = (refl, refl)

  pub doctored-Stays : (d : DaemonState) → Stays d (doctored os (Doctor.run os d)).1
  unfolding doctored Doctor.run
  doctored-Stays d = ground arith

  pub handle-home :
      (request : DaemonRequest) (d : DaemonState) → (handle os request d).1.home ≡ d.home
  unfolding handle register insert_new record_connection dispatch snapshot_of close remove
  handle-home DaemonRequest.shutdown d = refl
  handle-home DaemonRequest.ping d = refl
  handle-home (DaemonRequest.ensure_connection target) d = (ensure_connection-Stays target d).1
  handle-home (DaemonRequest.register_external_master target socket pid) d = refl
  handle-home DaemonRequest.status d = refl
  handle-home DaemonRequest.stats d = refl
  handle-home DaemonRequest.connections d = refl
  handle-home DaemonRequest.doctor d = (doctored-Stays d).1
  handle-home (DaemonRequest.close_connection k) d = (closed-Stays k _ _).1
  handle-home (DaemonRequest.record_event e) d = (count_event-Stays e d).1
