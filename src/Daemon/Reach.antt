-- ===== src/Daemon/Reach.antt =====
-- The daemon as requests and rounds of the health check in any order, each from its first statement
-- to its last. In between, the two concurrent maps may come to be iterated in another order.
use sshflow.Prelude.{◌≡◌, true, Text, some, subst, get}
use sshflow.Core.HostTarget.{key}
use sshflow.Core.Protocol.{FilePath, DaemonRequest}
use sshflow.Config.{Config}
use sshflow.Manager.{ManagedConnection, ConnectionManager}
use sshflow.Manager.Entries.{IsKeyed, Reordered-IsWellFormed}
use sshflow.Metrics.{HostStat, MetricsStore}
use sshflow.Plugins.{PluginManager}
use sshflow.Prelude.{NodupKeys, Entries-get, Table, Reordered}
use sshflow.System.{System, Trace}
use sshflow.Daemon.State.{DaemonState, start}
use sshflow.Daemon.Requests.{handle}
use sshflow.Daemon.Requests.Invariant.{IsSound, handle-IsSound}
use sshflow.Daemon.Health.{goes_on, panics, check_all}
use sshflow.Daemon.Health.Rule.{Holds}
use sshflow.Daemon.Health.Soundness.{check_all-IsWellFormed}

-- A step of the daemon. A handler or a round that panics leaves its changes.
pub data Step (os : System) (d d' : DaemonState) : Type 0 where
  request : (r : DaemonRequest) → d' ≡ (handle os r d).1 → Step os d d'
  round : check_all os d ≡ goes_on d' → Step os d d'
  broken_round : check_all os d ≡ panics d' → Step os d d'
  -- Outside the two, the trace may grow: time passes, and others use the system.
  passes : (t : Trace) → d' ≡ record d { trace = t } → Step os d d'
  -- The daemon is told to stop, by a signal or from within.
  ordered : d' ≡ record d { shutdown = true } → Step os d d'
  reorders :
      (m : ConnectionManager) (hosts : Table HostStat)
      → Reordered d.connections m
      → Reordered d.metrics.per_host hosts
      → d' ≡ record d { connections = m; metrics = record (d.metrics) { per_host = hosts } }
      → Step os d d'

pub data Reach (os : System) (s : DaemonState) : DaemonState → Type 0 where
  here : Reach os s s
  next : {d d' : DaemonState} → Reach os s d → Step os d d' → Reach os s d'

Step-IsSound : (os : System) (d d' : DaemonState) → Step os d d' → IsSound d → IsSound d'
Step-IsSound os d d' (request r e) v = rw e (handle-IsSound os r d v)
Step-IsSound os d d' (round e) v = subst (Holds IsSound) e (check_all-IsWellFormed os d v)
Step-IsSound os d d' (broken_round e) v = subst (Holds IsSound) e (check_all-IsWellFormed os d v)
Step-IsSound os d d' (passes t e) v = rw e v
Step-IsSound os d d' (ordered e) v = rw e v
Step-IsSound os d d' (reorders m hosts r h e) v = rw e (Reordered-IsWellFormed r v)

pub Reach-IsSound : {os : System} {s d : DaemonState} → IsSound s → Reach os s d → IsSound d
Reach-IsSound v here = v
Reach-IsSound {os} v (next {d} {d'} r st) = Step-IsSound os d d' st (Reach-IsSound v r)

pub start-IsSound :
    (home : FilePath) (config : Config) (metrics : MetricsStore) (plugins : PluginManager)
    (t : Trace)
    → IsSound (start home config metrics plugins t)
unfolding start
start-IsSound home config metrics plugins t = record { nodup = tt; keyed = tt }

-- In every state that a started daemon comes to, by any requests and rounds of the health check, a
-- connection that is found under a key is one to a destination with that key, and each key
-- stands in the table once, in whatever orders the maps are iterated between the steps.
pub Reach-keyed :
    (os : System) (home : FilePath) (config : Config) (metrics : MetricsStore)
    (plugins : PluginManager) (t : Trace) (d : DaemonState)
    → Reach os (start home config metrics plugins t) d
    → NodupKeys d.connections
      × ((k : Text) (c : ManagedConnection) → get k d.connections ≡ some c → k ≡ key c.target)
Reach-keyed os home config metrics plugins t d r =
    let v : IsSound d = Reach-IsSound (start-IsSound home config metrics plugins t) r in
    (v.nodup, λ k c e. Entries-get IsKeyed k d.connections c v.keyed e)
