-- ===== src/Cli/Live/Unix.antt =====
-- The command line and the daemon of one home directory on Unix.
use sshflow.Prelude.{
  Lacks, ◌≡◌, ap, sym, ◌∙◌, ◌&&◌, refl, false, not, [], ◌∷◌, ◌++◌, Option, none, some, Text, codes,
  ok, err, text_eq, text_eq_refl, if◌then◌else◌,
}
use sshflow.Core.Protocol.{FilePath, DaemonRequest, DaemonResponse, join}
use sshflow.Config.{trim}
use sshflow.Config.Trim.{trim-line}
use sshflow.Config.Home.{sshflow_home}
use sshflow.System.{System, Trace, Command}
use sshflow.Daemon.State.{DaemonState}
use sshflow.Daemon.Requests.{handle, handle_stream}
use sshflow.Daemon.Requests.Wire.{handle_stream-handle}
use sshflow.Cli.Process.{Desk, World, done}
use sshflow.Cli.Exchange.{send_raw}
use sshflow.Cli.Exchange.Answered.{send_raw_unix-answered}
use sshflow.Cli.Live.{
  Codec, Carried, Delivers, read_line, read_line-line, on_line, answer, is_empty-line,
  is_empty-full,
}

abbrev pub socket_of : DaemonState → FilePath
socket_of d = join d.home (codes "daemon.sock")

-- A daemon that listens until it is told to stop. A second one that is spawned gives up.
abbrev pub live_desk : System → Codec → (Trace → Command → Option Text) → Desk DaemonState
live_desk daemon codec exec = record {
  connect = λ path d. (
    if text_eq path (socket_of d) && not d.shutdown
        then ok tt
        else err (codes "Connection refused"),
    d,
  );
  exchange = λ sent d.
      on_line (read_line sent)
        (λ line rest.
          answer (handle_stream daemon codec.scan_request codec.print_response (ok line) d))
        d;
  tcp_connect = λ port d. (err (codes "Connection refused"), d);
  tcp_exchange = λ first second d. (ok [], d);
  spawn = λ c d. (ok tt, d);
  sleep = λ ms d. d;
  exec = exec;
  wait = λ t c. err (codes "no such file");
  exe_dir = none;
  editor = none;
  to_string = codec.print_request;
  from_str = codec.scan_response;
  parse_error = λ l. codes "invalid digit";
}

module _ (os daemon : System) (codec : Codec) (exec : Trace → Command → Option Text) where
  abbrev desk : Desk DaemonState
  desk = live_desk daemon codec exec

  connect-listening :
      (d : DaemonState) → d.shutdown ≡ false → desk.connect (socket_of d) d ≡ (ok tt, d)
  connect-listening d s =
      rw (text_eq_refl (socket_of d))
        (ap (λ b. (if not b then ok tt else err (codes "Connection refused"), d)) s)

  exchange-handle :
      (r : DaemonRequest) (response : DaemonResponse) (line out : Text) (d : DaemonState)
      → codec.scan_request line ≡ ok r
      → trim line ≡ line
      → Lacks b'\n' line
      → codec.print_response response ≡ ok out
      → (handle daemon r d).0 ≡ some response
      → desk.exchange (line ++ b'\n' ∷ []) d ≡ (ok (out ++ b'\n' ∷ []), (handle daemon r d).1)
  exchange-handle r response line out d from trimmed one to e =
      ap
        (λ o.
          on_line o
            (λ l rest.
              answer (handle_stream daemon codec.scan_request codec.print_response (ok l) d))
            d)
        (read_line-line line one)
      ∙ ap answer (
          handle_stream-handle daemon codec.scan_request codec.print_response (line ++ b'\n' ∷ [])
            out r response d (is_empty-line line) (rw (trim-line line trimmed) from) e to)

  -- On Unix a request that a live daemon answers comes to its handler as the line that the daemon
  -- reads, and the handler's response comes back, if the two and their texts, each a line, correspond
  -- and the home directory can be used and is the daemon's; nothing is printed.
  pub send_raw-handle :
      (r : DaemonRequest) (response : DaemonResponse) (w : World DaemonState)
      → Carried codec.print_request codec.scan_request r
      → Carried codec.print_response codec.scan_response response
      → os.windows ≡ false
      → (sshflow_home os w.trace).0 ≡ ok w.peer.home
      → w.peer.shutdown ≡ false
      → (handle daemon r w.peer).0 ≡ some response
      → let result = send_raw os desk r w in
        (result.0 ≡ done response)
        × (result.1.peer ≡ (handle daemon r w.peer).1)
        × (result.1.out ≡ w.out)
        × (result.1.err ≡ w.err)
  send_raw-handle r response w (line, to, from, trimmed, full, one)
        (line', to', from', trimmed', full', _) unix h s e =
      let back : trim (line' ++ b'\n' ∷ []) ≡ line' = trim-line line' trimmed' in
      rw
        (send_raw_unix-answered os desk r w w.peer.home line (line' ++ b'\n' ∷ []) w.peer
          (handle daemon r w.peer).1 response h (connect-listening w.peer s) to
          (exchange-handle r response line line' w.peer from trimmed one to' e)
          (rw back (is_empty-full line' full')) (rw back from') unix)
        (refl, refl, refl, refl)

  pub unix-Delivers :
      (home : FilePath)
      → os.windows ≡ false
      → ((t : Trace) → (sshflow_home os t).0 ≡ ok home)
      → Delivers os daemon codec desk home
  unix-Delivers home unix found = record {
    delivers = λ r response w there back at_home up e.
        send_raw-handle r response w there back unix (found w.trace ∙ ap ok (sym at_home)) up e;
  }
