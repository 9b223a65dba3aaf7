-- ===== src/Tests/Live.antt =====
-- The command line of crates/cli/src on a live daemon.
use sshflow.Prelude.{
  arith, subst, split_once, rsplit_once, decimal, ◌≡◌, refl, false, [], Option, none, some, Text,
  codes, Result, ok, err, get, text_eq, if◌then◌else◌, parse_uint,
}
use sshflow.Core.HostTarget.{key, parse}
use sshflow.Core.Protocol.{
  FilePath, DaemonRequest, DaemonResponse, pong, ack, needs_interactive_auth, join,
}
use sshflow.Config.{is_whitespace, trim, persist_time_duration, parse_duration}
use sshflow.Config.Home.{sshflow_home, config_path, load}
use sshflow.Manager
use sshflow.Manager.{ManagedConnection}
use sshflow.Ssh.{
  client_command, control_socket_path, start_master_noninteractive, start_master_interactive,
  start_failure,
}
use sshflow.Ssh.Auth.{needs_interactive_auth as needs_terminal, trim_lossy}
use sshflow.Daemon.Ensure.{ensure_connection, establish, make_room, settle, start_blocking}
use sshflow.Core.HostTarget.Fingerprint.{socket_fingerprint}
use sshflow.System.{System, Trace, Command}
use sshflow.Daemon.State.{DaemonState, start}
use sshflow.Daemon.Requests.{handle, handle_stream}
use sshflow.Cli.Process.{World, Exit, Outcome, done, replaced}
use sshflow.Cli.Exchange.{read_response, send_raw}
use sshflow.Cli.Ipc.{send, is_daemon_reachable, ensure_daemon_running}
use sshflow.Cli.Connect.{ssh, socket_from, connect_directly, start_directly, register, exec_client}
use sshflow.Cli.Live.{read_line, Codec, Carried}
use sshflow.Cli.Live.Unix.{live_desk, send_raw-handle, unix-Delivers}
use sshflow.Cli.Connect.Client.{client_of}
use sshflow.Cli.Live.Tracked.{ssh-TrackedAt}
use sshflow.Tests.System.{good_system, success, deploy}
use sshflow.Tests.Daemon.{begun}
use sshflow.Tests.Core.{parses_user_host_port}
use sshflow.Tests.Cli.{to_yaml, from_yaml, reading_system}

-- A socket, and a system on which `ssh` asks for a password.
abbrev pub asked_socket : FilePath
asked_socket = codes "/home/u/.sshflow/sockets/0000000000000014.sock"

abbrev pub asking_system : System
asking_system = record good_system {
  run = λ t c.
      ok (record success { success = false; stderr = codes "Permission denied (password)." });
}

abbrev pub codec : Codec
codec = record {
  print_request = request_text;
  scan_request = request_of;
  print_response = response_text;
  scan_response = response_of;
}
  where
    request_text : DaemonRequest → Result Text Text
    request_text DaemonRequest.ping = ok (codes "p")
    request_text (DaemonRequest.ensure_connection t) = ok (codes "e")
    request_text (DaemonRequest.register_external_master t socket pid) = ok (codes "r")
    request_text _ = err (codes "unused")

    request_of : Text → Result Text DaemonRequest
    request_of line =
        if text_eq line (codes "p")
        then ok DaemonRequest.ping
        else if text_eq line (codes "e")
        then ok (DaemonRequest.ensure_connection deploy)
        else ok (DaemonRequest.register_external_master deploy asked_socket none)

    response_text : DaemonResponse → Result Text Text
    response_text pong = ok (codes "o")
    response_text ack = ok (codes "a")
    response_text _ = ok (codes "n")

    response_of : Text → Result Text DaemonResponse
    response_of line =
        if text_eq line (codes "o")
        then ok pong
        else if text_eq line (codes "a")
        then ok ack
        else ok (needs_interactive_auth asked_socket)

abbrev pub live_world : World DaemonState
live_world = record { peer = begun; trace = []; out = []; err = [] }

abbrev pub runs : Trace → Command → Option Text
runs t c = none

pub ping-Carried : Carried codec.print_request codec.scan_request DaemonRequest.ping
unfolding text_eq trim is_whitespace
ping-Carried = (codes "p", refl, refl, refl, λ e. cc, omega arith)

pub pong-Carried : Carried codec.print_response codec.scan_response pong
unfolding text_eq trim is_whitespace
pong-Carried = (codes "o", refl, refl, refl, λ e. cc, omega arith)

pub ack-Carried : Carried codec.print_response codec.scan_response ack
unfolding text_eq trim is_whitespace
ack-Carried = (codes "a", refl, refl, refl, λ e. cc, omega arith)

pub ensure-Carried :
    Carried codec.print_request codec.scan_request (DaemonRequest.ensure_connection deploy)
unfolding text_eq trim is_whitespace
ensure-Carried = (codes "e", refl, refl, refl, λ e. cc, omega arith)

pub needs-Carried :
    Carried codec.print_response codec.scan_response (needs_interactive_auth asked_socket)
unfolding text_eq trim is_whitespace
needs-Carried = (codes "n", refl, refl, refl, λ e. cc, omega arith)

pub register-Carried :
    (s : FilePath)
    → ◌≡◌ {A = DaemonResponse} (needs_interactive_auth asked_socket) (needs_interactive_auth s)
    → Carried codec.print_request codec.scan_request
        (DaemonRequest.register_external_master deploy s none)
unfolding text_eq trim is_whitespace
register-Carried s e =
    let same : asked_socket ≡ s = cc in
    subst
      (λ x.
        Carried codec.print_request codec.scan_request
          (DaemonRequest.register_external_master deploy x none))
      same (codes "r", refl, refl, refl, λ e. cc, omega arith)

pub at_home : (t : Trace) → (sshflow_home reading_system t).0 ≡ ok (codes "/home/u/.sshflow")
unfolding sshflow_home join
at_home t = refl

send_raw-handle_example :
    let result =
      send_raw reading_system (live_desk good_system codec runs) DaemonRequest.ping live_world in
    (result.0 ≡ done pong)
    × (result.1.peer ≡ (handle good_system DaemonRequest.ping begun).1)
    × (result.1.out ≡ [])
    × (result.1.err ≡ [])
unfolding handle start
send_raw-handle_example =
    send_raw-handle reading_system good_system codec runs DaemonRequest.ping pong live_world
      ping-Carried pong-Carried refl (at_home []) refl refl

pub asks_for_a_terminal :
    (handle asking_system (DaemonRequest.ensure_connection deploy) begun).0
    ≡ some (needs_interactive_auth asked_socket)
unfolding handle start ensure_connection Manager.socket_for get establish control_socket_path
    persist_time_duration parse_duration make_room Manager.len settle start_blocking
    start_master_noninteractive start_failure needs_terminal trim_lossy join read_line
    socket_fingerprint key decimal
asks_for_a_terminal = refl

abbrev by_hand : Outcome Exit × World DaemonState
by_hand =
    ssh reading_system to_yaml from_yaml (live_desk asking_system codec runs)
      (codes "deploy@10.0.0.4:2222") [] live_world

client_takes_over : by_hand.0 ≡ done (replaced (client_command false asked_socket deploy []))
unfolding ssh parse split_once rsplit_once parse_uint send ensure_daemon_running is_daemon_reachable
    send_raw read_response sshflow_home text_eq handle_stream trim is_whitespace socket_from
    connect_directly start_directly config_path load start_master_interactive register exec_client
    handle start ensure_connection Manager.socket_for get establish control_socket_path
    persist_time_duration parse_duration make_room Manager.len settle start_blocking
    start_master_noninteractive start_failure needs_terminal trim_lossy join read_line
    socket_fingerprint key decimal
client_takes_over = refl

ssh-TrackedAt_example :
    (m : ManagedConnection) × (get (key deploy) by_hand.1.peer.connections ≡ some m)
    × (client_of (replaced (client_command false asked_socket deploy [])) by_hand.1.trace
        ≡ some (client_command false m.control_socket deploy []))
unfolding start
ssh-TrackedAt_example =
    ssh-TrackedAt reading_system asking_system codec (live_desk asking_system codec runs) to_yaml
      from_yaml ping-Carried pong-Carried ack-Carried (codes "/home/u/.sshflow")
      (unix-Delivers reading_system asking_system codec runs (codes "/home/u/.sshflow") refl
        at_home)
      (codes "deploy@10.0.0.4:2222") [] deploy (needs_interactive_auth asked_socket) live_world
      (replaced (client_command false asked_socket deploy [])) parses_user_host_port ensure-Carried
      register-Carried needs-Carried refl refl asks_for_a_terminal client_takes_over
