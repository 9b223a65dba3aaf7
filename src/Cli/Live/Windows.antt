-- ===== src/Cli/Live/Windows.antt =====
-- The command line and the daemon of one home directory on Windows.
use sshflow.Prelude.{
  Lacks, ℕ, ◌≤◌, ◌≡◌, ◌&&◌, ◌==◌, ==_refl, refl, ap, sym, ◌∙◌, subst, true, false, none, not, List,
  [], ◌∷◌, ◌++◌, Option, some, Text, codes, Result, ok, err, decimal, max_u16, parse_uint-decimal,
  text_eq_refl, if◌then◌else◌,
}
use sshflow.Config.{trim}
use sshflow.Config.Trim.{trim-line, trim-solid}
use sshflow.Core.Protocol.{FilePath, DaemonRequest, DaemonResponse, join}
use sshflow.System.{System, Trace, Command}
use sshflow.Daemon.State.{DaemonState}
use sshflow.Daemon.Requests.{handle, handle_stream_with_token}
use sshflow.Daemon.Requests.Wire.{handle_stream-handle}
use sshflow.Daemon.Windows.{token_text, endpoint_text}
use sshflow.Daemon.Windows.Endpoint.{lines-endpoint_text, token_text-solid, token-one_line}
use sshflow.Config.Home.{sshflow_home}
use sshflow.Cli.Process.{Desk, World, done}
use sshflow.Cli.Exchange.{send_raw}
use sshflow.Cli.Exchange.Answered.{send_raw_windows-answered}
use sshflow.Cli.Live.{
  Codec, Carried, Delivers, read_line, read_line-line, read_line-append, on_line, answer,
  is_empty-line, is_empty-full,
}

abbrev guarded : System → Codec → Text → Text → Text → DaemonState → Result Text Text × DaemonState
guarded daemon codec token token_line line d = answer (
    handle_stream_with_token daemon codec.scan_request codec.print_response token (ok token_line)
      (ok line) d)

-- The daemon listens on its port until it is told to stop, and a client is waited for.
abbrev pub live_tcp :
    System → Codec → (Trace → Command → Result Text (Option ℕ)) → ℕ → Text → Desk DaemonState
live_tcp daemon codec wait port token = record {
  connect = λ path d. (err (codes "Connection refused"), d);
  exchange = λ line d. (ok [], d);
  tcp_connect =
      λ p d. (if p == port && not d.shutdown then ok tt else err (codes "Connection refused"), d);
  tcp_exchange = λ first second d.
      on_line (read_line (first ++ second))
        (λ token_line others.
          on_line (read_line others) (λ line rest. guarded daemon codec token token_line line d) d)
        d;
  spawn = λ c d. (ok tt, d);
  sleep = λ ms d. d;
  exec = λ t c. some (codes "unsupported");
  wait = wait;
  exe_dir = none;
  editor = none;
  to_string = codec.print_request;
  from_str = codec.scan_response;
  parse_error = λ l. codes "invalid digit";
}

module _ (os daemon : System) (codec : Codec) (wait : Trace → Command → Result Text (Option ℕ))
    (port : ℕ) (bytes : List ℕ) where
  abbrev token : Text
  token = token_text bytes

  abbrev tcp : Desk DaemonState
  tcp = live_tcp daemon codec wait port token

  connect-listening : (d : DaemonState) → d.shutdown ≡ false → tcp.tcp_connect port d ≡ (ok tt, d)
  connect-listening d s =
      rw (==_refl port) (ap (λ b. (if not b then ok tt else err (codes "Connection refused"), d)) s)

  exchange-handle :
      (r : DaemonRequest) (response : DaemonResponse) (line out : Text) (d : DaemonState)
      → codec.scan_request line ≡ ok r
      → trim line ≡ line
      → Lacks b'\n' line
      → codec.print_response response ≡ ok out
      → (handle daemon r d).0 ≡ some response
      → tcp.tcp_exchange (token ++ b'\n' ∷ []) (line ++ b'\n' ∷ []) d
        ≡ (ok (out ++ b'\n' ∷ []), (handle daemon r d).1)
  unfolding handle_stream_with_token
  exchange-handle r response line out d from trimmed one to e =
      ap
        (λ o.
          on_line o
            (λ token_line others.
              on_line (read_line others) (λ l rest. guarded daemon codec token token_line l d) d)
            d)
        (read_line-append token (line ++ b'\n' ∷ []) (token-one_line bytes))
      ∙ ap (λ o. on_line o (λ l rest. guarded daemon codec token (token ++ b'\n' ∷ []) l d) d)
          (read_line-line line one)
      ∙ rw
          (
            is_empty-line token,
            trim-line token (trim-solid token (token_text-solid bytes)),
            text_eq_refl token,
          )
          (ap answer (
            handle_stream-handle daemon codec.scan_request codec.print_response (line ++ b'\n' ∷ [])
              out r response d (is_empty-line line) (rw (trim-line line trimmed) from) e to))

  -- On Windows the client that reads the port and the token that the daemon wrote sends the token and
  -- the request as the two lines that the daemon reads, and passes its check of the token: the request
  -- comes to the handler, and the response comes back, if the two and their texts, each a line,
  -- correspond, the home directory is the daemon's and the port is a `u16`; nothing is printed.
  pub send_raw_windows-handle :
      (r : DaemonRequest) (response : DaemonResponse) (w : World DaemonState)
      → Carried codec.print_request codec.scan_request r
      → Carried codec.print_response codec.scan_response response
      → os.windows ≡ true
      → port ≤ max_u16
      → (sshflow_home os w.trace).0 ≡ ok w.peer.home
      → os.read_to_string (sshflow_home os w.trace).1 (join w.peer.home (codes "daemon.port"))
        ≡ ok (endpoint_text port token)
      → w.peer.shutdown ≡ false
      → (handle daemon r w.peer).0 ≡ some response
      → let result = send_raw os tcp r w in
        (result.0 ≡ done response)
        × (result.1.peer ≡ (handle daemon r w.peer).1)
        × (result.1.out ≡ w.out)
        × (result.1.err ≡ w.err)
  send_raw_windows-handle r response w (line, to, from, trimmed, full, one)
        (line', to', from', trimmed', full', _) windows fits h file s e =
      let back : trim (line' ++ b'\n' ∷ []) ≡ line' = trim-line line' trimmed' in
      rw
        (send_raw_windows-answered os tcp r w w.peer.home (endpoint_text port token) port
          (decimal port) token line (line' ++ b'\n' ∷ []) w.peer (handle daemon r w.peer).1 response
          h file (lines-endpoint_text port bytes) (parse_uint-decimal max_u16 port fits)
          (connect-listening w.peer s) to
          (exchange-handle r response line line' w.peer from trimmed one to' e)
          (rw back (is_empty-full line' full')) (rw back from') windows)
        (refl, refl, refl, refl)

  pub windows-Delivers :
      (home : FilePath)
      → os.windows ≡ true
      → port ≤ max_u16
      → ((t : Trace) → (sshflow_home os t).0 ≡ ok home)
      → ((t : Trace)
          → os.read_to_string t (join home (codes "daemon.port")) ≡ ok (endpoint_text port token))
      → Delivers os daemon codec tcp home
  windows-Delivers home windows fits found file = record {
    delivers = λ r response w there back at_home up e.
        send_raw_windows-handle r response w there back windows fits
          (found w.trace ∙ ap ok (sym at_home))
          (subst
            (λ h.
              os.read_to_string (sshflow_home os w.trace).1 (join h (codes "daemon.port"))
              ≡ ok (endpoint_text port token))
            (sym at_home) (file (sshflow_home os w.trace).1))
          up e;
  }
