-- ===== src/Cli/Exchange/Answered.antt =====
-- The exchanges that are answered, step by step.
use sshflow.Prelude.{
  ℕ, ◌≡◌, refl, ◌∙◌, ap, if◌then◌else◌, [], ◌∷◌, ◌++◌, codes, Text, ok, some, true, false, is_empty,
  decimal, parse_uint, max_u16, lines,
}
use sshflow.Core.Protocol.{FilePath, DaemonRequest, DaemonResponse, join}
use sshflow.Config.{trim}
use sshflow.Config.Home.{sshflow_home}
use sshflow.System.{System, connected}
use sshflow.Cli.Process.{Desk, World, done}
use sshflow.Cli.Exchange.{
  send_raw, send_raw_unix, send_raw_windows, read_response, write_request, transmit, read_endpoint,
  read_port, exchange_lines,
}

module _ {S : Type 0} (os : System) (desk : Desk S) where
  on_unix :
      (r : DaemonRequest) (w : World S)
      → os.windows ≡ false
      → send_raw os desk r w ≡ send_raw_unix os desk r w
  unfolding send_raw
  on_unix r w e = ap (λ b. if b then send_raw_windows os desk r w else send_raw_unix os desk r w) e

  on_windows :
      (r : DaemonRequest) (w : World S)
      → os.windows ≡ true
      → send_raw os desk r w ≡ send_raw_windows os desk r w
  unfolding send_raw
  on_windows r w e =
      ap (λ b. if b then send_raw_windows os desk r w else send_raw_unix os desk r w) e

  pub send_raw_unix-answered :
      (r : DaemonRequest) (w : World S) (home : FilePath) (line out : Text) (s s' : S)
      (response : DaemonResponse)
      → (sshflow_home os w.trace).0 ≡ ok home
      → desk.connect (join home (codes "daemon.sock")) w.peer ≡ (ok tt, s)
      → desk.to_string r ≡ ok line
      → desk.exchange (line ++ b'\n' ∷ []) s ≡ (ok out, s')
      → is_empty (trim out) ≡ false
      → desk.from_str (trim out) ≡ ok response
      → os.windows ≡ false
      → send_raw os desk r w ≡ (
        done response,
        record w {
          peer = s';
          trace = connected (join home (codes "daemon.sock")) ∷ (sshflow_home os w.trace).1;
        },
      )
  unfolding send_raw_unix write_request transmit read_response
  send_raw_unix-answered r w home line out s s' response h c to e full from unix =
      on_unix r w unix ∙ rw (h, c, to, e, read_response, full, from) refl

  pub send_raw_windows-answered :
      (r : DaemonRequest) (w : World S) (home : FilePath) (raw : Text) (port : ℕ)
      (first token line out : Text) (s s' : S) (response : DaemonResponse)
      → (sshflow_home os w.trace).0 ≡ ok home
      → os.read_to_string (sshflow_home os w.trace).1 (join home (codes "daemon.port")) ≡ ok raw
      → lines raw ≡ first ∷ token ∷ []
      → parse_uint max_u16 first ≡ some port
      → desk.tcp_connect port w.peer ≡ (ok tt, s)
      → desk.to_string r ≡ ok line
      → desk.tcp_exchange (token ++ b'\n' ∷ []) (line ++ b'\n' ∷ []) s ≡ (ok out, s')
      → is_empty (trim out) ≡ false
      → desk.from_str (trim out) ≡ ok response
      → os.windows ≡ true
      → send_raw os desk r w ≡ (
        done response,
        record w {
          peer = s';
          trace = connected (codes "127.0.0.1:" ++ decimal port) ∷ (sshflow_home os w.trace).1;
        },
      )
  unfolding send_raw_windows read_endpoint exchange_lines read_port write_request read_response
  send_raw_windows-answered r w home raw port first token line out s s' response h f l p c to e full
        from windows =
      on_windows r w windows
      ∙ rw (h, f, l, read_endpoint, read_port, p, c, to, e, read_response, full, from) refl
