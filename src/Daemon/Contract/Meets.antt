-- ===== src/Daemon/Contract/Meets.antt =====
-- Every request keeps its promise.
use mathlib.Core.Option
use sshflow.Prelude.{
  refl, ◌∙◌, Option, none, some, Text, get, get-insert, get-remove, is_some, arith,
}
use sshflow.Core.Events.{Event}
use sshflow.Core.HostTarget.{key}
use sshflow.Core.Protocol.{DaemonRequest}
use sshflow.System.{System}
use sshflow.Manager
use sshflow.Manager.{ManagedConnection, ConnectionManager, reused, new_connection}
use sshflow.Ssh.Sockets.{own_socket}
use sshflow.Daemon.State.{
  DaemonState, insert_new, remove, record_connection, dispatch, with_metrics, stop,
}
use sshflow.Daemon.Doctor
use sshflow.Daemon.Requests.{handle, register, snapshot_of, doctored, closed, close, count_event}
use sshflow.Daemon.Contract.{view, Same, IsClosed, Promise}
use sshflow.Daemon.Contract.Connecting.{ensure_connection-Promise}

module _ (os : System) where
  closed-response :
      (k : Text) (o : Option ManagedConnection) (d : DaemonState)
      → IsClosed (is_some (Option.map (λ c. c.control_socket) o)) (closed os k o d).0
  unfolding closed
  closed-response k none d = (_, refl)
  closed-response k (some c) d = refl

  pub closed-view :
      (k : Text) (o : Option ManagedConnection) (d : DaemonState)
      → Same (view d) (view (closed os k o d).1)
  unfolding closed dispatch stop view
  closed-view k none d j = refl
  closed-view k (some c) d j = refl

  count_event-view : (e : Event) (d : DaemonState) → Same (view d) (view (count_event os e d))
  unfolding count_event with_metrics view
  count_event-view (Event.authentication_failed host reason) d j = refl
  count_event-view _ d j = refl

  doctored-view : (d : DaemonState) → Same (view d) (view (doctored os (Doctor.run os d)).1)
  unfolding doctored Doctor.run view
  doctored-view d j = ground arith

  -- Every request keeps its promise, whatever the system answers: a connection is reused with the
  -- socket that was known, which changes nothing, or it is made on the destination's own socket and
  -- at most one other key is gone, or there is none under the key; a registration sets its own key;
  -- closing clears its own key, and is refused exactly where nothing was known; every other request
  -- changes nothing.
  pub handle-Promise :
      (r : DaemonRequest) (d : DaemonState)
      → Promise (own_socket os d.home) r (handle os r d).0 (view d) (view (handle os r d).1)
  unfolding handle register insert_new record_connection dispatch snapshot_of close remove view
      Manager.insert_new Manager.remove_connection Manager.socket_for
  handle-Promise DaemonRequest.ping d = λ j. refl
  handle-Promise (DaemonRequest.ensure_connection target) d =
      ensure_connection-Promise os d.home target d refl
  handle-Promise (DaemonRequest.register_external_master target socket pid) d = (
    refl,
    λ j. ground (
      arith,
      get-insert (key target) j (new_connection target socket pid none (os.now d.trace))
          d.connections,
    ),
  )
  handle-Promise DaemonRequest.status d = λ j. refl
  handle-Promise DaemonRequest.stats d = λ j. refl
  handle-Promise DaemonRequest.connections d = λ j. refl
  handle-Promise DaemonRequest.doctor d = doctored-view d
  handle-Promise (DaemonRequest.close_connection k) d = (
    closed-response k (get k d.connections) (remove os k d),
    λ j.
        closed-view k (get k d.connections) (remove os k d) j
        ∙ ground (arith, get-remove k j d.connections),
  )
  handle-Promise (DaemonRequest.record_event e) d = count_event-view e d
  handle-Promise DaemonRequest.shutdown d = λ j. refl
