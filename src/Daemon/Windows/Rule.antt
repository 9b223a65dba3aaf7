-- ===== src/Daemon/Windows/Rule.antt =====
-- A property of the state that streams, the order to stop and the use of the system keep holds of
-- the state that the daemon ends with on Windows.
use sshflow.Prelude.{
  ℕ, List, [], ◌∷◌, Option, none, some, Text, Result, is_ok, if_both, Result-cases, inl, inr,
}
use sshflow.Core.Protocol.{DaemonRequest, DaemonResponse}
use sshflow.System.{System, Trace, bound}
use sshflow.Daemon.State.{DaemonState}
use sshflow.Daemon.Requests.{handle_stream_with_token}
use sshflow.Daemon.Serve.{order_stop}
use sshflow.Daemon.Serve.Rule.{state_of}
use sshflow.Daemon.Windows.{
  WindowsHappening, accepted, accept_failed, changed, signalled, info_path, address, remove_info,
  token_text, windows_loop, windows_announced, windows_bound, windows_checked, serve_windows,
}

module _ (os : System) (from_str : Text → Result Text DaemonRequest)
    (to_string : DaemonResponse → Result Text Text)
    (tcp_connect : Trace → ℕ → Result Text (Unit {0})) (tcp_bind : Trace → Result Text ℕ)
    (fill_bytes : Trace → List ℕ) (P : DaemonState → Type 0)
    (by_stream : (token : Text) (first second : Result Text Text) (d : DaemonState)
      → P d
      → P (handle_stream_with_token os from_str to_string token first second d).1)
    (by_order : (d : DaemonState) → P d → P (order_stop d))
    (by_trace : (t : Trace) (d : DaemonState) → P d → P (record d { trace = t })) where
  windows_loop-rule :
      (token : Text) (hs : List WindowsHappening) (d : DaemonState)
      → P d
      → P (state_of (windows_loop os from_str to_string tcp_connect tcp_bind fill_bytes token hs d))
  unfolding windows_loop remove_info
  windows_loop-rule token [] d p = p
  windows_loop-rule token (accepted first second ∷ hs) d p =
      windows_loop-rule token hs _ (by_stream token first second d p)
  windows_loop-rule token (accept_failed e ∷ hs) d p = p
  windows_loop-rule token (changed ∷ hs) d p =
      if_both (λ s. P (state_of s)) d.shutdown (by_trace _ d p) (windows_loop-rule token hs d p)
  windows_loop-rule token (signalled ∷ hs) d p =
      windows_loop-rule token hs (order_stop d) (by_order d p)

  windows_announced-rule :
      (hs : List WindowsHappening) (port : ℕ) (token : Text) (d : DaemonState)
      → P d
      → P (
          state_of (
            windows_announced os from_str to_string tcp_connect tcp_bind fill_bytes hs port token
              d))
  unfolding windows_announced
  windows_announced-rule hs port token d p = elim (Result-cases (os.write d.trace (info_path d))) [
    | inl (_, e) ↦ rw (e, windows_announced) (windows_loop-rule token hs _ (by_trace _ d p))
    | inr (_, e) ↦ rw (e, windows_announced) p
  ]

  windows_bound-rule :
      (hs : List WindowsHappening) (d : DaemonState)
      → P d
      → P (state_of (windows_bound os from_str to_string tcp_connect tcp_bind fill_bytes hs d))
  unfolding windows_bound
  windows_bound-rule hs d p = elim (Result-cases (tcp_bind d.trace)) [
    | inl (port, e) ↦
        let listening = record d { trace = bound (address port) ∷ d.trace } in
        rw (e, windows_bound)
          (windows_announced-rule hs port (token_text (fill_bytes listening.trace)) listening
            (by_trace _ d p))
    | inr (_, e) ↦ rw (e, windows_bound) p
  ]

  windows_checked-rule :
      (hs : List WindowsHappening) (o : Option (ℕ × Text)) (d : DaemonState)
      → P d
      → P (state_of (windows_checked os from_str to_string tcp_connect tcp_bind fill_bytes hs o d))
  unfolding windows_checked
  windows_checked-rule hs none d p = windows_bound-rule hs d p
  windows_checked-rule hs (some (port, token)) d p =
      if_both (λ s. P (state_of s)) (is_ok (tcp_connect d.trace port)) (by_trace _ d p)
        (windows_bound-rule hs _ (by_trace _ d p))

  pub serve_windows-rule :
      (hs : List WindowsHappening) (d : DaemonState)
      → P d
      → P (state_of (serve_windows os from_str to_string tcp_connect tcp_bind fill_bytes hs d))
  unfolding serve_windows
  serve_windows-rule hs d p = windows_checked-rule hs _ d p
