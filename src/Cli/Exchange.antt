-- ===== src/Cli/Exchange.antt =====
-- `send_raw` of crates/cli/src/ipc_client.rs: one exchange with the daemon, over the socket on Unix, and
-- over TCP on Windows, where the port and the token are read from the file that the daemon wrote.
pub mod Answered
pub mod Pauses
use sshflow.Prelude.{
  ℕ, List, [], ◌∷◌, ◌++◌, none, some, Text, codes, decimal, parse_uint, max_u16, lines, is_empty,
  if◌then◌else◌,
}
use sshflow.Core.Protocol.{FilePath, DaemonRequest, DaemonResponse, join}
use sshflow.Config.{trim}
use sshflow.Config.Home.{sshflow_home}
use sshflow.System.{System, connected}
use sshflow.Cli.Process.{
  Desk, Action, done, failed, ◌>>=◌, ◌>>◌, pure, bail, in_context, with_context, raised, of_config,
  on_trace, on_peer,
}

module _ {S : Type 0} (os : System) (desk : Desk S) where
  -- A response line.
  unfoldable pub read_response : Text → Action S DaemonResponse
  read_response line =
      if is_empty (trim line)
      then bail (codes "daemon closed the connection without responding")
      else λ w. (raised (desk.from_str (trim line)), w)

  write_request : DaemonRequest → Action S Text
  write_request request w = (raised (desk.to_string request), w)

  transmit : Text → Action S Text
  transmit line w = let (r, s) = desk.exchange line w.peer in (raised r, record w { peer = s })

  send_raw_unix : DaemonRequest → Action S DaemonResponse
  unfolding write_request transmit read_response
  send_raw_unix request = do
    home ← on_trace of_config (sshflow_home os)
    let socket = join home (codes "daemon.sock")
    with_context (codes "connecting to " ++ socket)
        (on_peer (connected socket) (desk.connect socket))
    line ← write_request request
    answer ← transmit (line ++ b'\n' ∷ [])
    read_response answer

  read_port : Text → Action S ℕ
  read_port l w = elim (parse_uint max_u16 l) [
    | some port ↦ (done port, w)
    | none ↦ (failed (desk.parse_error l ∷ []), w)
  ]

  -- The port is read before the second line is looked for.
  read_endpoint : List Text → Action S (ℕ × Text)
  unfolding read_port
  read_endpoint [] = bail (codes "malformed daemon.port")
  read_endpoint (l ∷ []) = do read_port l; bail (codes "malformed daemon.port")
  read_endpoint (l ∷ token ∷ rest) = do port ← read_port l; pure (port, token)

  exchange_lines : Text → Text → Action S Text
  exchange_lines token line w =
      let (r, s) = desk.tcp_exchange token line w.peer in (raised r, record w { peer = s })

  send_raw_windows : DaemonRequest → Action S DaemonResponse
  unfolding read_endpoint exchange_lines write_request read_response
  send_raw_windows request = do
    home ← on_trace of_config (sshflow_home os)
    let info = join home (codes "daemon.port")
    raw ← λ w. (in_context (codes "reading " ++ info) (raised (os.read_to_string w.trace info)), w)
    endpoint ← read_endpoint (lines raw)
    let address = codes "127.0.0.1:" ++ decimal endpoint.0
    with_context (codes "connecting to " ++ address)
        (on_peer (connected address) (desk.tcp_connect endpoint.0))
    line ← write_request request
    answer ← exchange_lines (endpoint.1 ++ b'\n' ∷ []) (line ++ b'\n' ∷ [])
    read_response answer

  unfoldable pub send_raw : DaemonRequest → Action S DaemonResponse
  unfolding send_raw_unix send_raw_windows
  send_raw request w = if os.windows then send_raw_windows request w else send_raw_unix request w
