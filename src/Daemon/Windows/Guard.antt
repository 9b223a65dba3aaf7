-- ===== src/Daemon/Windows/Guard.antt =====
-- A daemon that is started on Windows while another one serves.
use sshflow.Prelude.{ℕ, ◌≤◌, ◌≡◌, refl, true, List, ◌∷◌, Text, Result, ok, is_ok, max_u16}
use sshflow.Core.Protocol.{DaemonRequest, DaemonResponse}
use sshflow.System.{System, Trace, connected}
use sshflow.Daemon.State.{DaemonState}
use sshflow.Daemon.Serve.{already_listening, broken}
use sshflow.Daemon.Windows.{
  WindowsHappening, token_text, endpoint_text, info_path, address, windows_checked, serve_windows,
}
use sshflow.Daemon.Windows.Endpoint.{read_windows_endpoint-endpoint_text}

module _ (os : System) (from_str : Text → Result Text DaemonRequest)
    (to_string : DaemonResponse → Result Text Text)
    (tcp_connect : Trace → ℕ → Result Text (Unit {0})) (tcp_bind : Trace → Result Text ℕ)
    (fill_bytes : Trace → List ℕ) where
  -- A daemon that finds the file as another one writes it, and somebody on the port that stands
  -- there, ends with that error; it has tried that port, and binds and writes nothing.
  serve_windows-listening :
      (hs : List WindowsHappening) (d : DaemonState) (port : ℕ) (bytes : List ℕ)
      → port ≤ max_u16
      → os.read_to_string d.trace (info_path d) ≡ ok (endpoint_text port (token_text bytes))
      → is_ok (tcp_connect d.trace port) ≡ true
      → serve_windows os from_str to_string tcp_connect tcp_bind fill_bytes hs d
        ≡ broken
            (already_listening (address port))
            (record d { trace = connected (address port) ∷ d.trace })
  unfolding serve_windows windows_checked
  serve_windows-listening hs d port bytes fits file heard =
      rw (file, read_windows_endpoint-endpoint_text port bytes fits, windows_checked, heard) refl
