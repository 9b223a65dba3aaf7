-- ===== src/Tests/Platforms.antt =====
-- The doctor command on a live daemon, and a live daemon on Windows.
use sshflow.Prelude.{
  map, split_once, rsplit_once, decimal, ℕ, ◌≡◌, refl, true, lines, List, [], ◌∷◌, Option, some,
  Text, codes, Result, ok, get, text_eq, if◌then◌else◌, arith, unlines, parse_uint,
}
use sshflow.Core.HostTarget.{key, parse}
use sshflow.Core.Protocol.{
  DoctorReport, DaemonRequest, DaemonResponse, pong, needs_interactive_auth, join,
}
use sshflow.Daemon.Doctor
use sshflow.Config.{
  health_check_duration, is_whitespace, trim, persist_time_duration, parse_duration,
}
use sshflow.Config.Home.{sshflow_home, config_path, load}
use sshflow.Manager
use sshflow.Manager.{ManagedConnection}
use sshflow.Ssh.{
  client_command, control_socket_path, start_master_noninteractive, start_master_interactive,
  start_failure,
}
use sshflow.Ssh.Auth.{needs_interactive_auth as needs_terminal, trim_lossy}
use sshflow.Daemon.Ensure.{ensure_connection, establish, make_room, settle, start_blocking}
use sshflow.Core.HostTarget.Fingerprint.{socket_fingerprint}
use sshflow.System.{System, Trace, Command}
use sshflow.Daemon.State.{DaemonState, start}
use sshflow.Daemon.Requests.{handle, handle_stream, handle_stream_with_token}
use sshflow.Cli.Process.{Desk, World, Exit, Outcome, done, exited}
use sshflow.Cli.Exchange.{read_response, send_raw}
use sshflow.Cli.Ipc.{send, is_daemon_reachable, ensure_daemon_running}
use sshflow.Cli.{Commands, main}
use sshflow.Cli.Print.Checks.{check_text}
use sshflow.Cli.Live.Diagnosis.{ExitsBy, main-doctor}
use sshflow.Cli.Connect.{ssh, socket_from, connect_directly, start_directly, register, exec_client}
use sshflow.Cli.Live.{read_line, Codec}
use sshflow.Cli.Live.Unix.{live_desk, unix-Delivers}
use sshflow.Cli.Connect.Client.{client_of}
use sshflow.Cli.Live.Windows.{live_tcp, send_raw_windows-handle, windows-Delivers}
use sshflow.Daemon.Windows.{token_text, endpoint_text}
use sshflow.Cli.Live.Tracked.{ssh-TrackedAt}
use sshflow.Tests.System.{good_system, deploy}
use sshflow.Tests.Daemon.{begun}
use sshflow.Tests.Core.{parses_user_host_port}
use sshflow.Tests.Cli.{to_yaml, from_yaml, reading_system}
use sshflow.Tests.Live.{
  codec, live_world, runs, asking_system, ping-Carried, pong-Carried, ack-Carried, ensure-Carried,
  needs-Carried, register-Carried, at_home, asked_socket, asks_for_a_terminal,
}

abbrev tcp_bytes : List ℕ
tcp_bytes = 171 ∷ 7 ∷ []

abbrev endpoint_system : System
endpoint_system = record good_system {
  windows = true;
  read_to_string = λ t p. ok (endpoint_text 4000 (token_text tcp_bytes));
}

abbrev exits : Trace → Command → Result Text (Option ℕ)
exits t c = ok (some 7)

abbrev tcp : Desk DaemonState
tcp = live_tcp asking_system codec exits 4000 (token_text tcp_bytes)

at_windows_home : (t : Trace) → (sshflow_home endpoint_system t).0 ≡ ok (codes "/home/u/.sshflow")
unfolding sshflow_home join
at_windows_home t = refl

send_raw_windows-handle_example :
    let result = send_raw endpoint_system tcp DaemonRequest.ping live_world in
    (result.0 ≡ done pong)
    × (result.1.peer ≡ (handle asking_system DaemonRequest.ping begun).1)
    × (result.1.out ≡ [])
    × (result.1.err ≡ [])
unfolding handle start
send_raw_windows-handle_example =
    send_raw_windows-handle endpoint_system asking_system codec exits 4000 tcp_bytes
      DaemonRequest.ping pong live_world ping-Carried pong-Carried refl (omega arith)
      (at_windows_home []) refl refl refl

-- The client is waited for, with the socket that was made by hand.
abbrev waited_for : Outcome Exit × World DaemonState
waited_for = ssh endpoint_system to_yaml from_yaml tcp (codes "deploy@10.0.0.4:2222") [] live_world

ends_with_its_code : waited_for.0 ≡ done (exited 7)
unfolding ssh parse split_once rsplit_once parse_uint send ensure_daemon_running is_daemon_reachable
    send_raw read_response sshflow_home text_eq handle_stream trim is_whitespace socket_from
    connect_directly start_directly config_path load start_master_interactive register exec_client
    handle start ensure_connection Manager.socket_for get establish control_socket_path
    persist_time_duration parse_duration make_room Manager.len settle start_blocking
    start_master_noninteractive start_failure needs_terminal trim_lossy join read_line
    socket_fingerprint key decimal lines endpoint_text token_text handle_stream_with_token
ends_with_its_code = refl

on_windows :
    (m : ManagedConnection) × (get (key deploy) waited_for.1.peer.connections ≡ some m)
    × (client_of (exited 7) waited_for.1.trace
        ≡ some (client_command true m.control_socket deploy []))
unfolding start
on_windows =
    ssh-TrackedAt endpoint_system asking_system codec tcp to_yaml from_yaml ping-Carried
      pong-Carried ack-Carried (codes "/home/u/.sshflow")
      (windows-Delivers endpoint_system asking_system codec exits 4000 tcp_bytes
        (codes "/home/u/.sshflow") refl (omega arith) at_windows_home (λ t. refl))
      (codes "deploy@10.0.0.4:2222") [] deploy (needs_interactive_auth asked_socket) live_world
      (exited 7) parses_user_host_port ensure-Carried register-Carried needs-Carried refl refl
      asks_for_a_terminal ends_with_its_code

-- The report of a daemon, which its response carries.
abbrev found : DoctorReport
found = answered (handle asking_system DaemonRequest.doctor begun).0
  where
    answered : Option DaemonResponse → DoctorReport
    answered (some (DaemonResponse.doctor report)) = report
    answered _ = record { checks = [] }

abbrev doctor_codec : Codec
doctor_codec = record {
  print_request = λ r. ok (request_text r);
  scan_request =
      λ line. ok (if text_eq line (codes "p") then DaemonRequest.ping else DaemonRequest.doctor);
  print_response = λ r. ok (response_text r);
  scan_response =
      λ line. ok (if text_eq line (codes "o") then pong else DaemonResponse.doctor found);
}
  where
    request_text : DaemonRequest → Text
    request_text DaemonRequest.ping = codes "p"
    request_text _ = codes "d"

    response_text : DaemonResponse → Text
    response_text pong = codes "o"
    response_text _ = codes "d"

doctor_answers :
    (handle asking_system DaemonRequest.doctor begun).0 ≡ some (DaemonResponse.doctor found)
unfolding handle start Doctor.run health_check_duration parse_duration
doctor_answers = refl

main-doctor_example :
    let (exit, after) =
      main reading_system to_yaml from_yaml
        (live_desk asking_system doctor_codec runs)
        Commands.doctor
        live_world in
    ExitsBy found exit × (after.out ≡ unlines (map check_text found.checks)) × (after.err ≡ [])
unfolding start text_eq trim is_whitespace
main-doctor_example =
    main-doctor reading_system asking_system doctor_codec
      (live_desk asking_system doctor_codec runs) to_yaml from_yaml (codes "/home/u/.sshflow")
      live_world found (codes "p", refl, refl, refl, λ e. cc, omega arith)
      (codes "o", refl, refl, refl, λ e. cc, omega arith)
      (codes "d", refl, refl, refl, λ e. cc, omega arith)
      (codes "d", refl, refl, refl, λ e. cc, omega arith)
      (unix-Delivers reading_system asking_system doctor_codec runs (codes "/home/u/.sshflow") refl
        at_home)
      refl refl doctor_answers
