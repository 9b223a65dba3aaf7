-- ===== src/Daemon/Requests.antt =====
-- `dispatch` and `handle_stream` of crates/daemon/src/ipc.rs. A request is handled from its first
-- statement to its last without another one in between.
pub mod Invariant
pub mod Registered
pub mod Settings
pub mod Lifecycle
pub mod Wire
use sshflow.Prelude.{
  ℕ, Bool, true, false, List, [], ◌∷◌, ◌++◌, Option, none, some, Text, codes, Result, ok, err,
  is_empty, if◌then◌else◌, text_eq, is_ok,
}
use sshflow.Core.Events.{Event, connection_opened, connection_closed}
use sshflow.Core.HostTarget.{HostTarget, key, display}
use sshflow.Core.Protocol.{
  FilePath, DaemonRequest, DaemonResponse, DaemonStatus, DoctorReport, pong, ack, error,
}
use sshflow.Config.{trim}
use sshflow.System.{System, Trace, Effect, read_clock}
use sshflow.Manager
use sshflow.Manager.{ManagedConnection}
use sshflow.Metrics
use sshflow.Plugins
use sshflow.Daemon.State.{
  DaemonState, insert_new, remove, record_connection, with_metrics, dispatch, stop,
}
use sshflow.Daemon.Ensure.{Handled, ensure_connection}
use sshflow.Daemon.Doctor

module _ (os : System) where
  unfoldable pub register : HostTarget → FilePath → Option ℕ → DaemonState → Handled
  register target socket pid d =
      let tracked = insert_new os (key target) target socket pid none d in
      let counted = record_connection os (key target) (display target) false 0 tracked in
      (some ack, dispatch os (connection_opened (key target) (display target)) counted)

  status_of : DaemonState → DaemonStatus
  status_of d = record {
    version = os.version;
    pid = os.process_id;
    uptime_secs = os.uptime_secs d.trace;
    active_connections = Manager.len d.connections;
    plugins_loaded = Plugins.plugin_count d.plugins;
  }

  unfoldable pub snapshot_of : DaemonState → Handled
  snapshot_of d =
      let (shot, metrics) = Metrics.snapshot (os.now d.trace) d.metrics in
      (
        some (DaemonResponse.stats shot),
        record d { metrics = metrics; trace = read_clock ∷ d.trace },
      )

  unfoldable pub doctored : Option DoctorReport × DaemonState → Handled
  doctored (none, d) = (none, d)
  doctored (some report, d) = (some (DaemonResponse.doctor report), d)

  -- The entry is out of the table when its master is stopped.
  unfoldable pub closed : Text → Option ManagedConnection → DaemonState → Handled
  closed key none d = (some (error (codes "no such managed connection")), d)
  closed key (some c) d =
      (some ack, dispatch os (connection_closed key (display c.target)) (stop os c d))

  unfoldable pub close : Text → DaemonState → Handled
  unfolding closed
  close key d = closed key (Manager.remove_connection key d.connections).0 (remove os key d)

  -- The clock is read and the file written by the events that the store counts.
  unfoldable pub count_event : Event → DaemonState → DaemonState
  count_event (Event.authentication_failed host reason) d =
      with_metrics os (Metrics.record_event (Event.authentication_failed host reason)) d
  count_event (Event.reconnect key host attempt) d =
      with_metrics os (Metrics.record_event (Event.reconnect key host attempt)) d
  count_event event d = record d { metrics = Metrics.record_event event 0 false d.metrics }

  unfoldable pub handle : DaemonRequest → DaemonState → Handled
  unfolding register status_of snapshot_of doctored close count_event
  handle DaemonRequest.ping d = (some pong, d)
  handle (DaemonRequest.ensure_connection target) d = ensure_connection os target d
  handle (DaemonRequest.register_external_master target socket pid) d = register target socket pid d
  handle DaemonRequest.status d = (some (DaemonResponse.status (status_of d)), d)
  handle DaemonRequest.stats d = snapshot_of d
  handle DaemonRequest.connections d =
      (some (DaemonResponse.connections (Manager.list d.connections)), d)
  handle DaemonRequest.doctor d = doctored (Doctor.run os d)
  handle (DaemonRequest.close_connection key) d = close key d
  handle (DaemonRequest.record_event event) d = (some ack, dispatch os event (count_event event d))
  handle DaemonRequest.shutdown d = (some ack, record d { shutdown = true })

  -- `serde_json` reads a request and prints a response.
  module _ (from_str : Text → Result Text DaemonRequest)
      (to_string : DaemonResponse → Result Text Text) where
    respond : Result Text DaemonRequest → DaemonState → Handled
    respond (ok request) d = handle request d
    respond (err e) d = (some (error (codes "malformed request: " ++ e)), d)

    -- What is written to the stream.
    reply : Option DaemonResponse → Option Text
    reply none = none
    reply (some response) = elim (to_string response) [
      | ok out ↦ some (out ++ b'\n' ∷ [])
      | err e ↦ none
    ]

    -- The first line of the stream: nothing is done where it cannot be read or is empty.
    unfoldable pub handle_stream : Result Text Text → DaemonState → Option Text × DaemonState
    unfolding respond reply
    handle_stream (err e) d = (none, d)
    handle_stream (ok line) d =
        let (response, d') = respond (from_str (trim line)) d in
        if is_empty line then (none, d) else (reply response, d')

    -- The transport of Windows: a line with the token comes first.
    unfoldable pub handle_stream_with_token :
        Text → Result Text Text → Result Text Text → DaemonState → Option Text × DaemonState
    unfolding handle_stream
    handle_stream_with_token token (err e) second d = (none, d)
    handle_stream_with_token token (ok first) second d =
        if is_empty first
        then (none, d)
        else if text_eq (trim first) token
        then handle_stream second d
        else (some (codes "{\"Error\":\"unauthorized\"}\n"), d)
