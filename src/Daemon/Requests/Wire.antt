-- ===== src/Daemon/Requests/Wire.antt =====
-- A request line on its way through `handle_stream`.
use sshflow.Prelude.{
  Bool, ◌||◌, Option, err, if◌then◌else◌, if_both, if_beside, is_ok_and, ◌≡◌, refl, [], ◌∷◌, ◌++◌,
  some, Text, Result, ok, false, is_empty,
}
use sshflow.Core.Protocol.{DaemonRequest, DaemonResponse}
use sshflow.Config.{trim}
use sshflow.System.{System}
use sshflow.Daemon.State.{DaemonState}
use sshflow.Daemon.Requests.Settings.{handle-home}
use sshflow.Daemon.Requests.Lifecycle.{is_shutdown, handle-shutdown}
use sshflow.Daemon.Requests.{handle, handle_stream, respond, reply}

module _ (os : System) (from_str : Text → Result Text DaemonRequest)
    (to_string : DaemonResponse → Result Text Text) where
  pub handle_stream-handle :
      (line out : Text) (r : DaemonRequest) (response : DaemonResponse) (d : DaemonState)
      → is_empty line ≡ false
      → from_str (trim line) ≡ ok r
      → (handle os r d).0 ≡ some response
      → to_string response ≡ ok out
      → handle_stream os from_str to_string (ok line) d
        ≡ (some (out ++ b'\n' ∷ []), (handle os r d).1)
  unfolding handle_stream respond reply
  handle_stream-handle line out r response d full from e to =
      rw (full, from, respond, e, reply, to) refl

  -- The stream asks the daemon to stop.
  abbrev pub orders_stop : Result Text Text → Bool
  orders_stop (err e) = false
  orders_stop (ok line) =
      if is_empty line then false else is_ok_and is_shutdown (from_str (trim line))

  respond-shutdown :
      (r : Result Text DaemonRequest) (d : DaemonState)
      → (respond os from_str to_string r d).1.shutdown ≡ (is_ok_and is_shutdown r || d.shutdown)
  unfolding respond
  respond-shutdown (ok r) d = handle-shutdown os r d
  respond-shutdown (err e) d = refl

  pub handle_stream-shutdown :
      (line : Result Text Text) (d : DaemonState)
      → (handle_stream os from_str to_string line d).1.shutdown ≡ (orders_stop line || d.shutdown)
  unfolding handle_stream
  handle_stream-shutdown (err e) d = refl
  handle_stream-shutdown (ok line) d =
      if_beside (λ (r : Option Text × DaemonState). r.1.shutdown) (λ b. b || d.shutdown)
        (is_empty line) refl (respond-shutdown (from_str (trim line)) d)

  module _ (P : DaemonState → Type 0) (d : DaemonState) (unchanged : P d)
      (handled : (r : DaemonRequest) → P (handle os r d).1) where
    respond-rule : (r : Result Text DaemonRequest) → P (respond os from_str to_string r d).1
    unfolding respond
    respond-rule (ok r) = handled r
    respond-rule (err e) = unchanged

    -- A stream does what some request does, or nothing.
    pub handle_stream-rule :
        (line : Result Text Text) → P (handle_stream os from_str to_string line d).1
    unfolding handle_stream
    handle_stream-rule (err e) = unchanged
    handle_stream-rule (ok line) =
        if_both (λ (r : Option Text × DaemonState). P r.1) (is_empty line) unchanged
          (respond-rule (from_str (trim line)))

  pub handle_stream-home :
      (line : Result Text Text) (d : DaemonState)
      → (handle_stream os from_str to_string line d).1.home ≡ d.home
  handle_stream-home line d =
      handle_stream-rule (λ d'. d'.home ≡ d.home) d refl (λ r. handle-home os r d) line
