-- ===== src/Cli/Live/Sessions.antt =====
-- `send` on a live daemon: the ping that comes first, and then the request.
use sshflow.Prelude.{◌≡◌, refl, ◌∙◌, ap, true, false, some}
use sshflow.Core.Protocol.{FilePath, DaemonRequest, DaemonResponse, pong}
use sshflow.System.{System}
use sshflow.Daemon.State.{DaemonState}
use sshflow.Daemon.Requests.{handle}
use sshflow.Cli.Process.{Desk, World, Outcome, done, is_done, continue_with}
use sshflow.Cli.Exchange.{send_raw}
use sshflow.Cli.Ipc.{send, is_daemon_reachable, ensure_daemon_running}
use sshflow.Cli.Live.{Codec, Carried, Delivers}

-- The parts of an outcome that is known.
done-pair : {A S : Type 0} (r : Outcome A × World S) (a : A) → r.0 ≡ done a → r ≡ (done a, r.1)
done-pair (x, w) a e = rw e refl

-- A daemon that listens is not started once more.
ensure_daemon_running-up :
    {S : Type 0} (os : System) (desk : Desk S) (w : World S)
    → is_done (send_raw os desk DaemonRequest.ping w).0 ≡ true
    → ensure_daemon_running os desk w ≡ (done tt, (send_raw os desk DaemonRequest.ping w).1)
unfolding ensure_daemon_running is_daemon_reachable
ensure_daemon_running-up os desk w up = rw up refl

module _ (os daemon : System) (codec : Codec) (desk : Desk DaemonState)
    (ping_carried : Carried codec.print_request codec.scan_request DaemonRequest.ping)
    (pong_carried : Carried codec.print_response codec.scan_response pong) (home : FilePath)
    (line : Delivers os daemon codec desk home) where
  -- A request to a live daemon is answered by its handler, on the state in which the daemon is.
  pub send-handle :
      (r : DaemonRequest) (response : DaemonResponse) (w : World DaemonState)
      → Carried codec.print_request codec.scan_request r
      → Carried codec.print_response codec.scan_response response
      → w.peer.home ≡ home
      → w.peer.shutdown ≡ false
      → (handle daemon r w.peer).0 ≡ some response
      → (w' : World DaemonState) × (send os desk r w ≡ (done response, w'))
        × (w'.peer ≡ (handle daemon r w.peer).1)
        × (w'.out ≡ w.out)
        × (w'.err ≡ w.err)
  unfolding send handle
  send-handle r response w there back at_home up e =
      let (pinged, same, out, err) =
        line.delivers DaemonRequest.ping pong w ping_carried pong_carried at_home up refl in
      let later = (send_raw os desk DaemonRequest.ping w).1 in
      let (answered, peer, out', err') =
        line.delivers r response later there back (ap (λ d. d.home) same ∙ at_home)
          (ap (λ d. d.shutdown) same ∙ up) (ap (λ d. (handle daemon r d).0) same ∙ e) in
      (
        (send_raw os desk r later).1,
        ap (λ x. continue_with x (λ _. send_raw os desk r))
              (ensure_daemon_running-up os desk w (ap is_done pinged))
            ∙ done-pair (send_raw os desk r later) response answered,
        peer ∙ ap (λ d. (handle daemon r d).1) same,
        out' ∙ out,
        err' ∙ err,
      )
