-- ===== src/Tests/Interleaving.antt =====
-- Requests and rounds of crates/daemon/src that are cut at their awaits.
use sshflow.Prelude.{◌<◌, arith, ◌≡◌, refl, ok, ◌∷◌, [], Text, codes, some, get, insert, NodupKeys}
use sshflow.Core.HostTarget.{key}
use sshflow.Core.Protocol.{DaemonRequest}
use sshflow.Config.{Config, parse_duration, persist_time_duration, default_config}
use sshflow.Manager
use sshflow.Manager.{ManagedConnection}
use sshflow.Ssh.Sockets.{own_socket}
use sshflow.Daemon.State.{DaemonState, start, insert_new, record_connection, dispatch}
use sshflow.Daemon.Ensure.{make_room, settle, start_blocking}
use sshflow.Ssh.{control_socket_path, start_master_noninteractive}
use sshflow.Daemon.Interleaving.{
  resume, Progress, Task, starting, resumes, Reach, waiting, finished, Machine, settled, begin,
  here, next, arrives,
}
use sshflow.Daemon.Interleaving.Ends.{
  all_goes, all_awaits, all_brings, OnlyGoes, Reach-goes, machine_ends,
}
use sshflow.Daemon.Interleaving.Capacity.{starts, at_first, further, Few-capacity}
use sshflow.Daemon.Interleaving.Invariant.{Reach-interleaved}
use sshflow.Tests.System.{with_connections, good_system, deploy, plain, metrics}
use sshflow.Tests.Daemon.{begun, NoRegistration}
use sshflow.Daemon.Interleaving.Sources.{Machine-Sourced}
use sshflow.Daemon.Contract.{view}
use sshflow.Daemon.Contract.Sources.{Sourced}
use sshflow.Prelude.{parse_uint, ◌+◌, ◌≤◌}
use sshflow.Core.HostTarget.{HostTarget}

-- Two requests for a connection arrive before the start of either is over.
abbrev quiet : Machine
quiet = record { daemon = begun; tasks = [] }

abbrev first_waits : Machine
first_waits =
    settled (begin good_system (DaemonRequest.ensure_connection deploy) quiet.daemon) quiet.tasks

abbrev both_wait : Machine
both_wait =
    settled (begin good_system (DaemonRequest.ensure_connection plain) first_waits.daemon)
      first_waits.tasks

Reach-interleaved_example :
    NodupKeys both_wait.daemon.connections
    × ((k : Text) (c : ManagedConnection)
        → get k both_wait.daemon.connections ≡ some c
        → k ≡ key c.target)
Reach-interleaved_example =
    Reach-interleaved good_system (codes "/home/u/.sshflow") default_config metrics [] [] both_wait
      (next (next here (arrives (DaemonRequest.ensure_connection deploy) refl))
        (arrives (DaemonRequest.ensure_connection plain) refl))

-- The first of them goes on while the second waits.
abbrev start_of : HostTarget → Task
start_of target =
    starting target (own_socket good_system (codes "/home/u/.sshflow") target) (ok 600)

both_wait_to_start : both_wait.tasks ≡ start_of plain ∷ start_of deploy ∷ []
unfolding begin key get parse_duration persist_time_duration control_socket_path make_room
    Manager.len Manager.socket_for start parse_uint
both_wait_to_start = refl

abbrev one_goes_on : Machine
one_goes_on = settled (resume good_system (start_of deploy) both_wait.daemon) (start_of plain ∷ [])

two_arrive_one_goes_on : Reach good_system quiet one_goes_on
two_arrive_one_goes_on =
    next
      (next (next here (arrives (DaemonRequest.ensure_connection deploy) refl))
        (arrives (DaemonRequest.ensure_connection plain) refl))
      (resumes (start_of plain ∷ []) [] (start_of deploy) both_wait_to_start refl)

Machine-Sourced_example :
    Sourced
      (own_socket good_system (codes "/home/u/.sshflow"))
      NoRegistration
      (view one_goes_on.daemon)
unfolding two_arrive_one_goes_on
Machine-Sourced_example =
    Machine-Sourced good_system (codes "/home/u/.sshflow") NoRegistration default_config metrics []
      [] one_goes_on two_arrive_one_goes_on (((tt, tt), tt), tt)

Reach-goes_example :
    all_goes two_arrive_one_goes_on + all_awaits one_goes_on.tasks
    ≤ all_awaits quiet.tasks + all_brings two_arrive_one_goes_on
Reach-goes_example = Reach-goes good_system quiet one_goes_on two_arrive_one_goes_on

machine_ends_example :
    (m : Machine) × (r : Reach good_system both_wait m) × OnlyGoes r
    × (m.tasks ≡ [])
    × (all_goes r ≤ all_awaits both_wait.tasks)
machine_ends_example = machine_ends good_system both_wait

-- With a limit of one connection, two requests that interleave leave two.
abbrev state_of : Progress → DaemonState
state_of (waiting t d) = d
state_of (finished response d) = d

abbrev go_on : Progress → DaemonState → Progress
go_on (waiting t d) d' = resume good_system t d'
go_on (finished response d) d' = finished response d'

abbrev limited : DaemonState
limited = with_connections []

abbrev first : Progress
first = begin good_system (DaemonRequest.ensure_connection deploy) limited

abbrev second : Progress
second = begin good_system (DaemonRequest.ensure_connection plain) (state_of first)

abbrev both_done : DaemonState
both_done = state_of (go_on second (state_of (go_on first (state_of second))))

limit_is_passed : Manager.len both_done.connections ≡ 2
unfolding begin resume key get insert parse_duration persist_time_duration control_socket_path
    start_master_noninteractive insert_new record_connection dispatch make_room settle
    start_blocking Manager.len Manager.socket_for Manager.insert_new
limit_is_passed = refl

-- The two requests as steps, each at its start.
abbrev config : Config
config = record default_config { max_connections = 1 }

abbrev idle : Machine
idle = record { daemon = start (codes "/home/u/.sshflow") config metrics [] []; tasks = [] }

abbrev one_starts : Machine
one_starts =
    settled (begin good_system (DaemonRequest.ensure_connection deploy) idle.daemon) idle.tasks

abbrev two_start : Machine
two_start =
    settled (begin good_system (DaemonRequest.ensure_connection plain) one_starts.daemon)
      one_starts.tasks

one_start_on : starts one_starts.tasks ≡ 1
unfolding starts start begin get parse_duration persist_time_duration control_socket_path make_room
    Manager.len Manager.socket_for key
one_start_on = refl

two_starts_on : starts two_start.tasks ≡ 2
unfolding starts start begin get parse_duration persist_time_duration control_socket_path make_room
    Manager.len Manager.socket_for key
two_starts_on = refl

Few-capacity_example : Manager.len two_start.daemon.connections < 3
Few-capacity_example =
    Few-capacity good_system 1 2 (codes "/home/u/.sshflow") config metrics [] [] two_start
      (omega arith) (omega arith)
      (further
        (further at_first (arrives (DaemonRequest.ensure_connection deploy) refl) refl
          (omega (arith, one_start_on)))
        (arrives (DaemonRequest.ensure_connection plain) refl) refl (omega (arith, two_starts_on)))
