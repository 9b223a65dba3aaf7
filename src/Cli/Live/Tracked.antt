-- ===== src/Cli/Live/Tracked.antt =====
-- The socket that the client of `ssh` is given, and the daemon's table.
use sshflow.Prelude.{
  ℕ, ◌++◌, codes, ◌≡◌, refl, ◌∙◌, ap, sym, subst, false, List, Option, none, some, Text, Result, ok,
  get, text_eq_refl,
}
use sshflow.Core.HostTarget.{HostTarget, parse, key}
use sshflow.Core.Protocol.{
  FilePath, DaemonRequest, DaemonResponse, connection_ready, needs_interactive_auth, error, pong,
  ack,
}
use sshflow.Config.{Config, ConfigError, persist_time_duration}
use sshflow.Config.Home.{load}
use sshflow.Manager.{ManagedConnection, new_connection}
use sshflow.Ssh.{client_command, start_master_interactive}
use sshflow.System.{System}
use sshflow.Daemon.State.{DaemonState}
use sshflow.Daemon.Ensure.{or_ten_minutes, ensure_connection}
use sshflow.Daemon.Ensure.Ready.{Tracks, ensure_connection-Tracks}
use sshflow.Daemon.Requests.{handle}
use sshflow.Daemon.Requests.Registered.{register_tracks}
use sshflow.Daemon.Requests.Settings.{ensure_connection-Stays}
use sshflow.Cli.Process.{
  Desk, World, Exit, done, continue_with, continue_with-rule, continue_with-done, on_trace,
  of_config, of_core, pure, ◌>>◌, eprintln,
}
use sshflow.Cli.Connect.{register, start_directly, connect_directly, socket_from, exec_client, ssh}
use sshflow.Cli.Connect.Client.{client_of, exec_client-Runs}
use sshflow.Cli.Live.{Codec, Carried, Delivers}
use sshflow.Cli.Live.Sessions.{send-handle}

-- A connection to the target with that socket stands in the table.
abbrev pub TrackedAt : HostTarget → FilePath → DaemonState → Type 0
TrackedAt t socket d =
    (m : ManagedConnection) × (get (key t) d.connections ≡ some m) × (m.control_socket ≡ socket)

module _ (os daemon : System) (codec : Codec) (desk : Desk DaemonState) (to_yaml : Config → Text)
    (from_yaml : Text → Result Text Config)
    (ping_carried : Carried codec.print_request codec.scan_request DaemonRequest.ping)
    (pong_carried : Carried codec.print_response codec.scan_response pong)
    (ack_carried : Carried codec.print_response codec.scan_response ack) (home : FilePath)
    (line : Delivers os daemon codec desk home) where
  register-TrackedAt :
      (t : HostTarget) (socket : FilePath) (w : World DaemonState)
      → Carried codec.print_request codec.scan_request
          (DaemonRequest.register_external_master t socket none)
      → w.peer.home ≡ home
      → w.peer.shutdown ≡ false
      → TrackedAt t socket (register os to_yaml from_yaml desk t socket w).1.peer
  unfolding register
  register-TrackedAt t socket w there at_home up =
      let tracked = register_tracks daemon t socket none w.peer in
      let (w', sent, peer, _, _) =
        send-handle os daemon codec desk ping_carried pong_carried home line
          (DaemonRequest.register_external_master t socket none) ack w there ack_carried at_home up
          tracked.0 in
      (
        new_connection t socket none none (daemon.now w.peer.trace),
        ap (λ x. get (key t) x.1.peer.connections) sent
            ∙ ap (λ d. get (key t) d.connections) peer
            ∙ (tracked.1 (key t) ∙ rw (text_eq_refl (key t)) refl),
        refl,
      )

  start_directly-TrackedAt :
      (o : Option (Result ConfigError ℕ)) (t : HostTarget) (socket socket' : FilePath)
      (w : World DaemonState)
      → Carried codec.print_request codec.scan_request
          (DaemonRequest.register_external_master t socket none)
      → w.peer.home ≡ home
      → w.peer.shutdown ≡ false
      → (start_directly os to_yaml from_yaml desk o t socket w).0 ≡ done socket'
      → TrackedAt t socket' (start_directly os to_yaml from_yaml desk o t socket w).1.peer
  unfolding start_directly register
  start_directly-TrackedAt none t socket socket' w there at_home up e = cc
  start_directly-TrackedAt (some persist) t socket socket' w there at_home up e =
      let start =
        on_trace of_core (start_master_interactive os socket t (or_ten_minutes persist)) w in
      continue_with-rule (λ w'. TrackedAt t socket' w'.peer) start
        (λ _. register os to_yaml from_yaml desk t socket >> pure socket) socket'
        (λ _ h.
          let same : socket ≡ socket' = cc in
          subst (λ s. TrackedAt t s (register os to_yaml from_yaml desk t socket start.1).1.peer)
            same (register-TrackedAt t socket start.1 there at_home up))
        e

  connect_directly-TrackedAt :
      (target : Text) (t : HostTarget) (socket socket' : FilePath) (w : World DaemonState)
      → Carried codec.print_request codec.scan_request
          (DaemonRequest.register_external_master t socket none)
      → w.peer.home ≡ home
      → w.peer.shutdown ≡ false
      → (connect_directly os to_yaml from_yaml desk target t socket w).0 ≡ done socket'
      → TrackedAt t socket' (connect_directly os to_yaml from_yaml desk target t socket w).1.peer
  unfolding connect_directly
  connect_directly-TrackedAt target t socket socket' w there at_home up e =
      let loaded =
        on_trace of_config (load os to_yaml from_yaml)
          (eprintln
            (codes "sshflow: "
              ++ target
              ++ codes " needs interactive authentication, connecting directly...")
            w).1 in
      continue_with-rule (λ w'. TrackedAt t socket' w'.peer) loaded
        (λ config. start_directly os to_yaml from_yaml desk (persist_time_duration config) t socket)
        socket'
        (λ config h.
          start_directly-TrackedAt (persist_time_duration config) t socket socket' loaded.1 there
            at_home up h)
        e

  socket_from-TrackedAt :
      (target : Text) (t : HostTarget) (response : DaemonResponse) (socket : FilePath)
      (w : World DaemonState)
      → ((s : FilePath)
          → response ≡ needs_interactive_auth s
          → Carried codec.print_request codec.scan_request
              (DaemonRequest.register_external_master t s none))
      → w.peer.home ≡ home
      → w.peer.shutdown ≡ false
      → Tracks (some response) (get (key t) w.peer.connections)
      → (socket_from os to_yaml from_yaml desk target t response w).0 ≡ done socket
      → TrackedAt t socket (socket_from os to_yaml from_yaml desk target t response w).1.peer
  unfolding socket_from
  socket_from-TrackedAt target t (connection_ready ready reused latency) socket w there at_home up
        tracks e =
      let same : ready ≡ socket = cc in (tracks.0, tracks.1, tracks.2 ∙ same)
  socket_from-TrackedAt target t (needs_interactive_auth direct) socket w there at_home up tracks
        e =
      connect_directly-TrackedAt target t direct socket w (there direct refl) at_home up e
  socket_from-TrackedAt target t (error message) socket w there at_home up tracks e = cc
  socket_from-TrackedAt target t _ socket w there at_home up tracks e = cc

  -- When `ssh` ends well, its client was given the socket of a connection to the target that stands
  -- in the daemon's table, whether the daemon made it or the command line did, and whether the
  -- client takes the process's place or is waited for, if requests come to the handlers of a daemon
  -- that was not ordered to stop, and the messages in use come back from their texts,
  -- each a line.
  pub ssh-TrackedAt :
      (target : Text) (args : List Text) (t : HostTarget) (response : DaemonResponse)
      (w : World DaemonState) (exit : Exit)
      → parse target ≡ ok t
      → Carried codec.print_request codec.scan_request (DaemonRequest.ensure_connection t)
      → ((s : FilePath)
          → response ≡ needs_interactive_auth s
          → Carried codec.print_request codec.scan_request
              (DaemonRequest.register_external_master t s none))
      → Carried codec.print_response codec.scan_response response
      → w.peer.home ≡ home
      → w.peer.shutdown ≡ false
      → (handle daemon (DaemonRequest.ensure_connection t) w.peer).0 ≡ some response
      → (ssh os to_yaml from_yaml desk target args w).0 ≡ done exit
      → let after = (ssh os to_yaml from_yaml desk target args w).1 in
        (m : ManagedConnection) × (get (key t) after.peer.connections ≡ some m)
        × (client_of exit after.trace ≡ some (client_command os.windows m.control_socket t args))
  unfolding ssh handle
  ssh-TrackedAt target args t response w exit parsed there there' back at_home up answered e =
      let (later, sent, peer, _, _) =
        send-handle os daemon codec desk ping_carried pong_carried home line
          (DaemonRequest.ensure_connection t) response w there back at_home up answered in
      let kept = ensure_connection-Stays daemon t w.peer in
      let tracks : Tracks (some response) (get (key t) later.peer.connections) =
        subst (λ r. Tracks r (get (key t) later.peer.connections)) answered
          (subst (λ d. Tracks (ensure_connection daemon t w.peer).0 (get (key t) d.connections))
            (sym peer) (ensure_connection-Tracks daemon t w.peer)) in
      let had = socket_from os to_yaml from_yaml desk target t response later in
      let client = λ (socket : FilePath). exec_client os to_yaml from_yaml desk socket t args in
      let ends : (continue_with had client).0 ≡ done exit = rw (parsed, ssh, sent) at e in
      let (socket, given, launched, last) = continue_with-done had client exit ends in
      let tracked =
        socket_from-TrackedAt target t response socket later there'
          (ap (λ d. d.home) peer ∙ kept.1 ∙ at_home) (ap (λ d. d.shutdown) peer ∙ kept.0 ∙ up)
          tracks given in
      let (command, same) =
        exec_client-Runs os to_yaml from_yaml desk socket t args had.1 exit launched in
      let found_there : get (key t) (continue_with had client).1.peer.connections ≡ some tracked.0 =
        ap (λ x. get (key t) x.1.peer.connections) last
        ∙ ap (λ p. get (key t) p.connections) same
        ∙ tracked.1 in
      let runs_there : client_of exit (continue_with had client).1.trace
          ≡ some (client_command os.windows tracked.0.control_socket t args) =
        ap (λ x. client_of exit x.1.trace) last
        ∙ command
        ∙ ap (λ s. some (client_command os.windows s t args)) (sym tracked.2) in
      (tracked.0, rw (parsed, ssh, sent) found_there, rw (parsed, ssh, sent) runs_there)
