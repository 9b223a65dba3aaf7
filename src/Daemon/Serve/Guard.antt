-- ===== src/Daemon/Serve/Guard.antt =====
-- The daemon that finds another one listening.
use sshflow.Prelude.{◌≡◌, refl, true, List, ◌∷◌, Text, Result, is_ok}
use sshflow.Core.Protocol.{DaemonRequest, DaemonResponse}
use sshflow.System.{System, connected}
use sshflow.Daemon.State.{DaemonState}
use sshflow.Daemon.Serve.{
  Happening, broken, already_listening, socket_path, serve_unix, serve_existing,
}

module _ (os : System) (from_str : Text → Result Text DaemonRequest)
    (to_string : DaemonResponse → Result Text Text) where
  -- It tries the socket and leaves it alone.
  pub serve_unix-listening :
      (hs : List Happening) (d : DaemonState)
      → os.exists d.trace (socket_path d) ≡ true
      → is_ok (os.connect d.trace (socket_path d)) ≡ true
      → serve_unix os from_str to_string hs d
        ≡ broken
            (already_listening (socket_path d))
            (record d { trace = connected (socket_path d) ∷ d.trace })
  unfolding serve_unix serve_existing
  serve_unix-listening hs d there heard = rw (there, heard, serve_existing) refl
