-- ===== src/Tests/Daemon.antt =====
-- The requests and the health check of crates/daemon/src, on a system where `ssh` succeeds.
use sshflow.Prelude.{
  false, ℕ, suc, ◌/◌, ◌≤◌, ◌<◌, ◌≡◌, ◌≢◌, refl, ◌↔◌, ◌⊎◌, true, [], ◌∷◌, none, some, Text, codes,
  Result, ok, get, parse_uint, is_some, is_ok, text_eq, NodupKeys, if◌then◌else◌, arith,
}
use mathlib.Core.Option
use sshflow.Core.HostTarget.{HostTarget, key}
use sshflow.Core.Protocol.{FilePath, DaemonRequest, DaemonResponse, ack, all_ok}
use sshflow.Config.{ConfigError, default_config, trim, parse_duration, health_check_duration}
use sshflow.Manager
use sshflow.Manager.{ManagedConnection, ConnectionManager, new_connection, least_recently_used}
use sshflow.Manager.Entries.{IsWellFormed}
use sshflow.Manager.Eviction.{UsedSince, least_recently_used_min}
use sshflow.Daemon.State.{DaemonState, start}
use sshflow.Daemon.Ensure.{ensure_connection}
use sshflow.Daemon.Ensure.Ready.{Tracks, ensure_connection-Tracks}
use sshflow.Daemon.Ensure.Capacity.{ensure_connection-capacity}
use sshflow.Daemon.Requests.{handle, handle_stream_with_token}
use sshflow.Daemon.Requests.Registered.{register_tracks}
use sshflow.Daemon.Health.{Round, goes_on, panics, check_all}
use sshflow.Daemon.Requests.Lifecycle.{handle_stream_with_token_guard}
use sshflow.Daemon.Contract.{view, Promise, SpecReach, Seen}
use sshflow.Ssh.Sockets.{own_socket}
use sshflow.Daemon.Contract.Sources.{Sourced, Reach-Sourced}
use sshflow.Daemon.Contract.Meets.{handle-Promise}
use sshflow.Daemon.Contract.Runs.{events, Reach-SpecReach}
use sshflow.Daemon.Reach.{Reach, here, next, request, Reach-keyed}
use sshflow.Daemon.Doctor.{detect_ssh, run}
use sshflow.Daemon.Doctor.Report.{IsOwnerOnly, run-all_ok}
use sshflow.Tests.System.{
  good_system, deploy, plain, tracked, metrics, with_connections, one_connection,
}

abbrev pub busy : DaemonState
busy = with_connections one_connection

one_connection-IsWellFormed : IsWellFormed one_connection
unfolding key
one_connection-IsWellFormed = record { nodup = (tt, tt); keyed = (refl, tt) }

ensure_connection-Tracks_example :
    let r = ensure_connection good_system deploy busy in
    Tracks r.0 (get (key deploy) r.1.connections)
ensure_connection-Tracks_example = ensure_connection-Tracks good_system deploy busy

ensure_connection-capacity_example :
    Manager.len (ensure_connection good_system deploy busy).1.connections ≤ 1
unfolding Manager.len
ensure_connection-capacity_example =
    ensure_connection-capacity good_system deploy 1 busy (omega arith) (omega arith) (tt, tt)
      (omega arith)

abbrev pub begun : DaemonState
begun = start (codes "/home/u/.sshflow") default_config metrics [] []

abbrev connected : DaemonState
connected = (handle good_system (DaemonRequest.ensure_connection deploy) begun).1

Reach-keyed_example :
    NodupKeys connected.connections
    × ((k : Text) (c : ManagedConnection) → get k connected.connections ≡ some c → k ≡ key c.target)
Reach-keyed_example =
    Reach-keyed good_system (codes "/home/u/.sshflow") default_config metrics [] [] connected
      (next here (request (DaemonRequest.ensure_connection deploy) refl))

abbrev two : ConnectionManager
two = (codes "b", tracked plain 9) ∷ (codes "@h:", tracked plain 5) ∷ []

least_recently_used_min_example :
    (c : ManagedConnection) × (get (codes "@h:") two ≡ some c) × UsedSince c.last_used two
unfolding least_recently_used text_eq
least_recently_used_min_example =
    least_recently_used_min two (codes "@h:") ((refl, tt), (tt, tt)) refl

abbrev outcome : Round → DaemonState
outcome (goes_on d) = d
outcome (panics d) = d

abbrev after_round : DaemonState
after_round = outcome (check_all good_system busy)

abbrev healed : ManagedConnection
healed = record (tracked plain 5) { healthy = true }

abbrev interval : Result ConfigError ℕ
interval = ok 30

run-all_ok_example :
    let (answer, asked) = run good_system busy in
    (Option.map all_ok answer ≡ some true) ↔ (
      (is_some (detect_ssh good_system []).0 ≡ true)
      × (good_system.windows ≡ false → IsOwnerOnly (some 0o40700) × (◌≢◌ {A = ℕ} 1000 0))
      × (0 < 1)
      × (is_ok interval ≡ true)
      × (32 < 104857600 / 1024 / 1024))
unfolding health_check_duration parse_duration parse_uint
run-all_ok_example = run-all_ok good_system busy interval refl

register_tracks_example :
    let r =
      handle good_system (DaemonRequest.register_external_master deploy (codes "/t") none) busy in
    (r.0 ≡ some ack)
    × ((j : Text)
        → get j r.1.connections ≡ (
            if text_eq (key deploy) j
            then some (new_connection deploy (codes "/t") none none 1000)
            else get j one_connection))
    × (Manager.len r.1.connections ≡ (
        if Manager.contains (key deploy) one_connection
        then Manager.len one_connection
        else suc (Manager.len one_connection)))
register_tracks_example = register_tracks good_system deploy (codes "/t") none busy

abbrev pings : Text → Result Text DaemonRequest
pings line = ok DaemonRequest.ping

abbrev pub says : DaemonResponse → Result Text Text
says r = ok (codes "r")

handle_stream_with_token_guard_example :
    ((line : Text) × (◌≡◌ {A = Result Text Text} (ok (codes "guess")) (ok line))
      × (trim line ≡ codes "secret"))
    ⊎ ((handle_stream_with_token good_system pings says
          (codes "secret")
          (ok (codes "guess"))
          (ok (codes "ping"))
          busy).1
        ≡ busy)
handle_stream_with_token_guard_example =
    handle_stream_with_token_guard good_system pings says (codes "secret") (ok (codes "guess"))
      (ok (codes "ping")) busy

handle-Promise_example :
    let r = handle good_system (DaemonRequest.ensure_connection deploy) busy in
    Promise
      (own_socket good_system (codes "/home/u/.sshflow"))
      (DaemonRequest.ensure_connection deploy)
      r.0
      (view busy)
      (view r.1)
handle-Promise_example = handle-Promise good_system (DaemonRequest.ensure_connection deploy) busy

-- A connection is made.
abbrev in_use : DaemonState
in_use = (handle good_system (DaemonRequest.ensure_connection deploy) begun).1

abbrev one_request : Reach good_system begun in_use
one_request = next here (request (DaemonRequest.ensure_connection deploy) refl)

Reach-SpecReach_example :
    SpecReach
      (own_socket good_system (codes "/home/u/.sshflow"))
      (view begun)
      (Seen.requested
          (DaemonRequest.ensure_connection deploy)
          (handle good_system (DaemonRequest.ensure_connection deploy) begun).0
        ∷ [])
      (view in_use)
unfolding start events
Reach-SpecReach_example =
    Reach-SpecReach good_system begun in_use (record { nodup = tt; keyed = tt }) one_request

-- Without registrations, every socket is that of its destination.
abbrev pub NoRegistration : HostTarget → FilePath → Type 0
NoRegistration t socket = (true ≡ false)

Reach-Sourced_example :
    Sourced (own_socket good_system (codes "/home/u/.sshflow")) NoRegistration (view in_use)
unfolding start
Reach-Sourced_example =
    Reach-Sourced good_system NoRegistration (codes "/home/u/.sshflow") default_config metrics [] []
      in_use one_request (tt, tt)
