-- ===== src/Daemon/Serve.antt =====
-- `serve_unix` of crates/daemon/src/ipc.rs, with the signals of crates/daemon/src/main.rs. The loop
-- goes over what happens, in the order in which it is met. A stream is handled when it is
-- accepted.
pub mod Stops
pub mod Free
pub mod Guard
pub mod Rule
use sshflow.Prelude.{
  Bool, true, false, List, [], ◌∷◌, ◌++◌, Option, Text, codes, Result, ok, err, is_ok,
  if◌then◌else◌,
}
use sshflow.Config.{ConfigError}
use sshflow.Core.Protocol.{FilePath, DaemonRequest, DaemonResponse, join}
use sshflow.System.{System, connected, removed, bound, set_mode}
use sshflow.Daemon.State.{DaemonState}
use sshflow.Daemon.Requests.{handle_stream}

-- Why the daemon does not start, or ends.
pub data Failure : Type 0 where
  config_failed : ConfigError → Failure
  io_failed : Text → Failure
  already_listening : FilePath → Failure

pub data Happening : Type 0 where
  -- A stream, by its first line.
  accepted : Result Text Text → Happening
  accept_failed : Text → Happening
  -- The channel of the order to stop has a new value.
  changed : Happening
  -- SIGTERM or SIGINT, which `wait_for_shutdown_signal` turns into the order.
  signalled : Happening

-- The loop goes on, or the daemon stops, with or without an error.
pub data Served : Type 0 where
  serving : DaemonState → Served
  stopped : DaemonState → Served
  broken : Failure → DaemonState → Served

abbrev pub socket_path : DaemonState → FilePath
socket_path d = join d.home (codes "daemon.sock")

abbrev pub order_stop : DaemonState → DaemonState
order_stop d = record d { shutdown = true }

-- The result is dropped.
unfoldable pub remove_socket : DaemonState → DaemonState
remove_socket d = record d { trace = removed (socket_path d) ∷ d.trace }

module _ (os : System) (from_str : Text → Result Text DaemonRequest)
    (to_string : DaemonResponse → Result Text Text) where
  unfoldable pub serve_loop : List Happening → DaemonState → Served
  serve_loop [] d = serving d
  serve_loop (accepted line ∷ hs) d = serve_loop hs (handle_stream os from_str to_string line d).1
  serve_loop (accept_failed e ∷ hs) d = broken (io_failed e) d
  serve_loop (changed ∷ hs) d =
      let rest = serve_loop hs d in if d.shutdown then stopped (remove_socket d) else rest
  serve_loop (signalled ∷ hs) d = serve_loop hs (order_stop d)

  serve_locked : List Happening → Result Text (Unit {0}) → DaemonState → Served
  serve_locked hs (err e) d = broken (io_failed e) d
  serve_locked hs (ok _) d = serve_loop hs d

  serve_bound : List Happening → Result Text (Unit {0}) → DaemonState → Served
  unfolding serve_locked
  serve_bound hs (err e) d = broken (io_failed e) d
  serve_bound hs (ok _) d =
      serve_locked hs (os.set_permissions d.trace (socket_path d))
        (record d { trace = set_mode (socket_path d) 0o600 ∷ d.trace })

  -- `bind`, and what follows it.
  serve_free : List Happening → DaemonState → Served
  unfolding serve_bound
  serve_free hs d =
      serve_bound hs (os.bind d.trace (socket_path d))
        (record d { trace = bound (socket_path d) ∷ d.trace })

  serve_removed : List Happening → Result Text (Unit {0}) → DaemonState → Served
  unfolding serve_free
  serve_removed hs (err e) d = broken (io_failed e) d
  serve_removed hs (ok _) d = serve_free hs d

  -- The socket file exists, and somebody listens or not.
  serve_existing : List Happening → Bool → DaemonState → Served
  unfolding serve_removed
  serve_existing hs true d = broken (already_listening (socket_path d)) d
  serve_existing hs false d =
      serve_removed hs (os.remove_file d.trace (socket_path d))
        (record d { trace = removed (socket_path d) ∷ d.trace })

  unfoldable pub serve_unix : List Happening → DaemonState → Served
  unfolding serve_existing serve_free
  serve_unix hs d =
      if os.exists d.trace (socket_path d)
      then serve_existing hs (is_ok (os.connect d.trace (socket_path d)))
          (record d { trace = connected (socket_path d) ∷ d.trace })
      else serve_free hs d
