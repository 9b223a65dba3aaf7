-- ===== src/Daemon/Serve/Rule.antt =====
-- A property of the state that streams, the order to stop and the use of the system keep holds of
-- the state that the daemon ends with.
use sshflow.Prelude.{Bool, true, false, List, [], ◌∷◌, Text, Result, ok, err, if_both}
use sshflow.Core.Protocol.{DaemonRequest, DaemonResponse}
use sshflow.System.{System, Trace}
use sshflow.Daemon.State.{DaemonState}
use sshflow.Daemon.Requests.{handle_stream}
use sshflow.Daemon.Serve.{
  Happening, accepted, accept_failed, changed, signalled, Served, serving, stopped, broken,
  socket_path, order_stop, remove_socket, serve_loop, serve_locked, serve_bound, serve_free,
  serve_removed, serve_existing, serve_unix,
}

abbrev pub state_of : Served → DaemonState
state_of (serving d) = d
state_of (stopped d) = d
state_of (broken e d) = d

module _ (os : System) (from_str : Text → Result Text DaemonRequest)
    (to_string : DaemonResponse → Result Text Text) (P : DaemonState → Type 0)
    (by_stream : (line : Result Text Text) (d : DaemonState)
      → P d
      → P (handle_stream os from_str to_string line d).1)
    (by_order : (d : DaemonState) → P d → P (order_stop d))
    (by_trace : (t : Trace) (d : DaemonState) → P d → P (record d { trace = t })) where
  serve_loop-rule :
      (hs : List Happening) (d : DaemonState)
      → P d
      → P (state_of (serve_loop os from_str to_string hs d))
  unfolding serve_loop remove_socket
  serve_loop-rule [] d p = p
  serve_loop-rule (accepted line ∷ hs) d p = serve_loop-rule hs _ (by_stream line d p)
  serve_loop-rule (accept_failed e ∷ hs) d p = p
  serve_loop-rule (changed ∷ hs) d p =
      if_both (λ s. P (state_of s)) d.shutdown (by_trace _ d p) (serve_loop-rule hs d p)
  serve_loop-rule (signalled ∷ hs) d p = serve_loop-rule hs (order_stop d) (by_order d p)

  serve_locked-rule :
      (hs : List Happening) (r : Result Text (Unit {0})) (d : DaemonState)
      → P d
      → P (state_of (serve_locked os from_str to_string hs r d))
  unfolding serve_locked
  serve_locked-rule hs (err e) d p = p
  serve_locked-rule hs (ok _) d p = serve_loop-rule hs d p

  serve_bound-rule :
      (hs : List Happening) (r : Result Text (Unit {0})) (d : DaemonState)
      → P d
      → P (state_of (serve_bound os from_str to_string hs r d))
  unfolding serve_bound
  serve_bound-rule hs (err e) d p = p
  serve_bound-rule hs (ok _) d p = serve_locked-rule hs _ _ (by_trace _ d p)

  serve_free-rule :
      (hs : List Happening) (d : DaemonState)
      → P d
      → P (state_of (serve_free os from_str to_string hs d))
  unfolding serve_free
  serve_free-rule hs d p = serve_bound-rule hs _ _ (by_trace _ d p)

  serve_removed-rule :
      (hs : List Happening) (r : Result Text (Unit {0})) (d : DaemonState)
      → P d
      → P (state_of (serve_removed os from_str to_string hs r d))
  unfolding serve_removed
  serve_removed-rule hs (err e) d p = p
  serve_removed-rule hs (ok _) d p = serve_free-rule hs d p

  serve_existing-rule :
      (hs : List Happening) (b : Bool) (d : DaemonState)
      → P d
      → P (state_of (serve_existing os from_str to_string hs b d))
  unfolding serve_existing
  serve_existing-rule hs true d p = p
  serve_existing-rule hs false d p = serve_removed-rule hs _ _ (by_trace _ d p)

  pub serve_unix-rule :
      (hs : List Happening) (d : DaemonState)
      → P d
      → P (state_of (serve_unix os from_str to_string hs d))
  unfolding serve_unix
  serve_unix-rule hs d p =
      if_both (λ s. P (state_of s)) (os.exists d.trace (socket_path d))
        (serve_existing-rule hs _ _ (by_trace _ d p)) (serve_free-rule hs d p)
