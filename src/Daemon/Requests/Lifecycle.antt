-- ===== src/Daemon/Requests/Lifecycle.antt =====
-- The order to stop, and the guard of the token.
use sshflow.Prelude.{
  ◌≡◌, refl, ◌⊎◌, inl, inr, Bool, true, false, ◌||◌, Option, Text, Result, ok, err, text_eq,
  text_eq→eq, is_empty, if_both, Bool-cases,
}
use sshflow.Core.Protocol.{DaemonRequest, DaemonResponse}
use sshflow.Config.{trim}
use sshflow.System.{System}
use sshflow.Daemon.State.{DaemonState, insert_new, remove, record_connection, dispatch}
use sshflow.Daemon.Requests.Settings.{
  ensure_connection-Stays, closed-Stays, count_event-Stays, doctored-Stays,
}
use sshflow.Daemon.Requests.{handle, register, snapshot_of, close, handle_stream_with_token}

abbrev pub is_shutdown : DaemonRequest → Bool
is_shutdown DaemonRequest.shutdown = true
is_shutdown _ = false

module _ (os : System) where
  -- The daemon is told to stop by the request for it and by no other, and the order is not taken
  -- back.
  pub handle-shutdown :
      (request : DaemonRequest) (d : DaemonState)
      → (handle os request d).1.shutdown ≡ (is_shutdown request || d.shutdown)
  unfolding handle register insert_new record_connection dispatch snapshot_of close remove
  handle-shutdown DaemonRequest.shutdown d = refl
  handle-shutdown DaemonRequest.ping d = refl
  handle-shutdown (DaemonRequest.ensure_connection target) d =
      (ensure_connection-Stays os target d).0
  handle-shutdown (DaemonRequest.register_external_master target socket pid) d = refl
  handle-shutdown DaemonRequest.status d = refl
  handle-shutdown DaemonRequest.stats d = refl
  handle-shutdown DaemonRequest.connections d = refl
  handle-shutdown DaemonRequest.doctor d = (doctored-Stays os d).0
  handle-shutdown (DaemonRequest.close_connection k) d = (closed-Stays os k _ _).0
  handle-shutdown (DaemonRequest.record_event e) d = (count_event-Stays os e d).0

-- Behind the token line, a request reaches the daemon only if that line is the token: otherwise
-- the state is untouched.
pub handle_stream_with_token_guard :
    (os : System) (from_str : Text → Result Text DaemonRequest)
    (to_string : DaemonResponse → Result Text Text) (token : Text) (first second : Result Text Text)
    (d : DaemonState)
    → ((line : Text) × (first ≡ ok line) × (trim line ≡ token))
      ⊎ ((handle_stream_with_token os from_str to_string token first second d).1 ≡ d)
unfolding handle_stream_with_token
handle_stream_with_token_guard os from_str to_string token (err e) second d = inr refl
handle_stream_with_token_guard os from_str to_string token (ok line) second d =
    elim (Bool-cases (text_eq (trim line) token)) [
      | inl e ↦ inl (line, refl, text_eq→eq (trim line) token e)
      | inr e ↦
          inr
            (if_both (λ (r : Option Text × DaemonState). r.1 ≡ d) (is_empty line) refl (rw e refl))
    ]
