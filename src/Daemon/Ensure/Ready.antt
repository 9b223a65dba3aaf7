-- ===== src/Daemon/Ensure/Ready.antt =====
-- What the response of `ensure_connection` says about the table of connections.

use sshflow.Prelude.{
  ℕ, ◌≡◌, refl, inl, inr, Bool, true, false, Option, none, some, Text, Result, ok, err, get,
  get-insert, get-remove, text_eq_refl, Bool-cases, Option-cases, leb,
}
use sshflow.Core.HostTarget.{HostTarget, key}
use sshflow.Core.Protocol.{FilePath, DaemonResponse, connection_ready}
use sshflow.Config.{ConfigError, persist_time_duration}
use sshflow.System.{System}
use sshflow.Manager
use sshflow.Manager.{ManagedConnection, reused, new_connection}
use sshflow.Ssh.{needs_interactive, failed}
use sshflow.Daemon.State.{
  DaemonState, insert_new, remove, record_connection, record_failure, dispatch, check_alive,
}
use sshflow.Daemon.State.Frames.{evict_lru-frame, get-without, mark_reused-get}
use sshflow.Daemon.Ensure.{
  Handled, Start, joined, lost, reuse, make_room, settle, start_at, start_in, start_blocking,
  establish, checked, ensure_connection,
}

-- A response of readiness stands for a healthy connection with that socket and latency under the
-- key; with any other response, or none, there is no connection under the key.
abbrev pub Tracks : Option DaemonResponse → Option ManagedConnection → Type 0
Tracks (some (connection_ready socket was_reused latency)) found =
    (c : ManagedConnection) × (found ≡ some c)
    × (c.control_socket ≡ socket)
    × (c.healthy ≡ true)
    × (c.last_latency_ms ≡ some latency)
Tracks _ found = found ≡ none

abbrev at : HostTarget → DaemonState → Option ManagedConnection
at target d = get (key target) d.connections

abbrev HandledTracks : HostTarget → Handled → Type 0
HandledTracks target r = Tracks r.0 (at target r.1)

module _ (os : System) (target : HostTarget) where
  reuse-Tracks :
      (d : DaemonState) (c : ManagedConnection)
      → at target d ≡ some c
      → HandledTracks target (reuse os target c.control_socket d)
  unfolding reuse record_connection dispatch
  reuse-Tracks d c e = (
    reused (os.elapsed_ms d.trace) (os.now d.trace) c,
    mark_reused-get os (key target) (os.elapsed_ms d.trace) d c e,
    refl,
    refl,
    refl,
  )

  make_room-absent : (d : DaemonState) → at target d ≡ none → at target (make_room os d) ≡ none
  unfolding make_room
  make_room-absent d e =
      elim (Bool-cases (leb d.config.max_connections (Manager.len d.connections))) [
        | inl full ↦
            rw (full, make_room)
              (rw (evict_lru-frame os d) (
                get-without (key target) (Manager.least_recently_used d.connections) d.connections
                  e))
        | inr free ↦ rw (free, make_room) e
      ]

  settle-Tracks :
      (socket : FilePath) (s : Start) (d : DaemonState)
      → at target d ≡ none
      → HandledTracks target (settle os target socket (s, d))
  unfolding settle insert_new record_connection record_failure dispatch Manager.insert_new
  settle-Tracks socket (joined (ok elapsed)) d e = (
    new_connection target socket none (some elapsed) (os.now d.trace),
    rw (get-insert (key target) (key target), text_eq_refl (key target)),
    refl,
    refl,
    refl,
  )
  settle-Tracks socket (joined (err needs_interactive)) d e = e
  settle-Tracks socket (joined (err (failed message))) d e = e
  settle-Tracks socket (lost x) d e = e

  start_at-Tracks :
      (socket : FilePath) (persist : Option (Result ConfigError ℕ)) (d : DaemonState)
      → at target d ≡ none
      → HandledTracks target (start_at os target socket persist d)
  unfolding start_at start_blocking
  start_at-Tracks socket none d e = e
  start_at-Tracks socket (some persist) d e = settle-Tracks socket _ _ e

  start_in-Tracks :
      (path : Result Text FilePath) (d : DaemonState)
      → at target d ≡ none
      → HandledTracks target (start_in os target path d)
  unfolding start_in
  start_in-Tracks (err x) d e = e
  start_in-Tracks (ok socket) d e = start_at-Tracks socket (persist_time_duration d.config) d e

  establish-Tracks :
      (d : DaemonState) → at target d ≡ none → HandledTracks target (establish os target d)
  unfolding establish
  establish-Tracks d e = start_in-Tracks _ _ (make_room-absent d e)

  checked-Tracks :
      (c : ManagedConnection) (alive : Bool) (d : DaemonState)
      → at target d ≡ some c
      → HandledTracks target (checked os target c.control_socket (alive, d))
  unfolding checked remove Manager.remove_connection
  checked-Tracks c true d e = reuse-Tracks d c e
  checked-Tracks c false d e =
      establish-Tracks _ (rw (get-remove (key target) (key target), text_eq_refl (key target)))

-- The table after a request for a connection and the response agree, whatever the system answers:
-- a ready connection is in the table under the target's key, healthy, with the socket and latency
-- of the response; after any other response, or a panic, no connection is under that key.
pub ensure_connection-Tracks :
    (os : System) (target : HostTarget) (d : DaemonState)
    → let r = ensure_connection os target d in Tracks r.0 (get (key target) r.1.connections)
unfolding ensure_connection check_alive Manager.socket_for
ensure_connection-Tracks os target d = elim (Option-cases (at target d)) [
  | inl e ↦ rw (e, ensure_connection, Manager.socket_for) (establish-Tracks os target d e)
  | inr (c, e) ↦
      rw (e, ensure_connection, Manager.socket_for)
        (checked-Tracks os target c (check_alive os c.control_socket target d).0
          (check_alive os c.control_socket target d).1 e)
]
