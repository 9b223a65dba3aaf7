-- ===== src/Daemon/Windows.antt =====
-- The transport of Windows in crates/daemon/src/ipc.rs: `serve_windows` and `read_windows_endpoint`. The
-- daemon listens on a port of 127.0.0.1 and leaves the port and a token in a file.
pub mod Endpoint
pub mod Guard
pub mod Rule
use sshflow.Prelude.{
  ℕ, Bool, true, false, List, [], ◌∷◌, ◌++◌, Option, none, some, Text, codes, Result, ok, err,
  decimal, parse_uint, max_u16, is_ok, if◌then◌else◌, lines,
}
use sshflow.Core.HostTarget.Fingerprint.{hex}
use sshflow.Core.Protocol.{FilePath, DaemonRequest, DaemonResponse, join}
use sshflow.System.{System, Trace, connected, removed, bound, wrote_file}
use sshflow.Daemon.State.{DaemonState}
use sshflow.Daemon.Requests.{handle_stream_with_token}
use sshflow.Daemon.Serve.{Failure, io_failed, already_listening, Served, serving, stopped, broken}

-- Each byte by `{b:02x}`.
unfoldable pub token_text : List ℕ → Text
token_text [] = []
token_text (b ∷ bytes) = hex 2 b [] ++ token_text bytes

-- `{port}\n{token}\n`.
unfoldable pub endpoint_text : ℕ → Text → Text
endpoint_text port token = decimal port ++ b'\n' ∷ (token ++ b'\n' ∷ [])

endpoint_lines : List Text → Option (ℕ × Text)
endpoint_lines [] = none
endpoint_lines (l ∷ []) = none
endpoint_lines (l ∷ token ∷ rest) = elim (parse_uint max_u16 l) [
  | none ↦ none
  | some port ↦ some (port, token)
]

-- On what `read_to_string` gives.
unfoldable pub read_windows_endpoint : Result Text Text → Option (ℕ × Text)
unfolding endpoint_lines
read_windows_endpoint (err e) = none
read_windows_endpoint (ok raw) = endpoint_lines (lines raw)

-- What the loop meets; a stream by its first two lines.
pub data WindowsHappening : Type 0 where
  accepted : Result Text Text → Result Text Text → WindowsHappening
  accept_failed : Text → WindowsHappening
  changed : WindowsHappening
  signalled : WindowsHappening

abbrev pub info_path : DaemonState → FilePath
info_path d = join d.home (codes "daemon.port")

abbrev pub address : ℕ → Text
address port = codes "127.0.0.1:" ++ decimal port

remove_info : DaemonState → DaemonState
remove_info d = record d { trace = removed (info_path d) ∷ d.trace }

module _ (os : System) (from_str : Text → Result Text DaemonRequest)
    (to_string : DaemonResponse → Result Text Text)
    -- A connection to a port, a listener on a free port, and the bytes of the token.
    (tcp_connect : Trace → ℕ → Result Text (Unit {0})) (tcp_bind : Trace → Result Text ℕ)
    (fill_bytes : Trace → List ℕ) where
  unfoldable pub windows_loop : Text → List WindowsHappening → DaemonState → Served
  unfolding remove_info
  windows_loop token [] d = serving d
  windows_loop token (accepted first second ∷ hs) d =
      windows_loop token hs (handle_stream_with_token os from_str to_string token first second d).1
  windows_loop token (accept_failed e ∷ hs) d = broken (io_failed e) d
  windows_loop token (changed ∷ hs) d =
      let rest = windows_loop token hs d in if d.shutdown then stopped (remove_info d) else rest
  windows_loop token (signalled ∷ hs) d = windows_loop token hs (record d { shutdown = true })

  -- The file is written, and the loop begins.
  windows_announced : List WindowsHappening → ℕ → Text → DaemonState → Served
  unfolding windows_loop
  windows_announced hs port token d =
      let text = endpoint_text port token in
      elim (os.write d.trace (info_path d)) [
        | ok _ ↦
            windows_loop token hs (record d { trace = wrote_file (info_path d) text ∷ d.trace })
        | err e ↦ broken (io_failed e) d
      ]

  windows_bound : List WindowsHappening → DaemonState → Served
  unfolding windows_announced
  windows_bound hs d = elim (tcp_bind d.trace) [
    | ok port ↦
        let listening = record d { trace = bound (address port) ∷ d.trace } in
        windows_announced hs port (token_text (fill_bytes listening.trace)) listening
    | err e ↦ broken (io_failed e) d
  ]

  windows_checked : List WindowsHappening → Option (ℕ × Text) → DaemonState → Served
  unfolding windows_bound
  windows_checked hs none d = windows_bound hs d
  windows_checked hs (some (port, token)) d =
      let tried = record d { trace = connected (address port) ∷ d.trace } in
      if is_ok (tcp_connect d.trace port)
      then broken (already_listening (address port)) tried
      else windows_bound hs tried

  unfoldable pub serve_windows : List WindowsHappening → DaemonState → Served
  unfolding windows_checked
  serve_windows hs d =
      windows_checked hs (read_windows_endpoint (os.read_to_string d.trace (info_path d))) d
