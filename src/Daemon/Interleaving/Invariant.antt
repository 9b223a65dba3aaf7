-- ===== src/Daemon/Interleaving/Invariant.antt =====
-- The table of connections stays well-formed in whatever order requests, the health check and
-- their subprocesses go on.
use sshflow.Prelude.{◌≡◌, true, [], some, Text, get, NodupKeys, Entries-get}
use sshflow.Core.HostTarget.{key}
use sshflow.Core.Protocol.{FilePath}
use sshflow.Config.{Config}
use sshflow.System.{System, Trace}
use sshflow.Manager.{ManagedConnection}
use sshflow.Manager.Entries.{IsKeyed, mark_healthy-IsWellFormed}
use sshflow.Metrics.{MetricsStore}
use sshflow.Plugins.{PluginManager}
use sshflow.Daemon.State.{DaemonState, start, mark_healthy, dispatch}
use sshflow.Daemon.Health.{drop_stale}
use sshflow.Daemon.Health.Soundness.{after_start-IsWellFormed}
use sshflow.Daemon.Requests.Invariant.{
  IsSound, handle-IsSound, make_room-IsSound, reuse-IsSound, settle-IsSound, remove-IsSound,
  closed-IsSound,
}
use sshflow.Daemon.Reach.{start-IsSound}
use sshflow.Daemon.Interleaving.Rule.{Keeps, Anywhere, Anything}
use sshflow.Daemon.Interleaving.Steps.{Step-kept}
use sshflow.Daemon.Interleaving.{Machine, Step, Reach, here, next}

module _ (os : System) where
  drop_stale-IsSound :
      (k : Text) (c : ManagedConnection) (d : DaemonState)
      → IsSound d
      → IsSound (drop_stale os k c d)
  unfolding drop_stale dispatch
  drop_stale-IsSound k c d v = remove-IsSound os k d v

  mark_healthy-IsSound :
      (k : Text) (d : DaemonState) → IsSound d → IsSound (mark_healthy os k true d)
  unfolding mark_healthy
  mark_healthy-IsSound k d v = mark_healthy-IsWellFormed k true d.connections v

  Keeps-IsSound : Keeps os IsSound Anywhere Anything
  Keeps-IsSound = record {
    traced = λ t d v. v;
    handle = λ q d a v. handle-IsSound os q d v;
    path = λ target d v socket e. tt;
    make_room = make_room-IsSound os;
    reuse = reuse-IsSound os;
    settle = λ target socket st d g v. settle-IsSound os target socket st d v;
    remove = remove-IsSound os;
    closed = closed-IsSound os;
    mark_healthy = mark_healthy-IsSound;
    drop_stale = drop_stale-IsSound;
    after_start = λ k c. after_start-IsWellFormed os k c;
  }

pub Step-IsSound :
    (os : System) (m m' : Machine) → Step os m m' → IsSound m.daemon → IsSound m'.daemon
Step-IsSound os = Step-kept os IsSound (Keeps-IsSound os)

Reach-IsSound : {os : System} {s m : Machine} → IsSound s.daemon → Reach os s m → IsSound m.daemon
Reach-IsSound v here = v
Reach-IsSound {os} v (next {m₁} {m₂} r st) = Step-IsSound os m₁ m₂ st (Reach-IsSound v r)

-- In every state that a started daemon comes to, however the awaits of requests and of the health
-- check interleave, each key stands in the table once, and a connection that is found under a key
-- is one to a destination with that key.
pub Reach-interleaved :
    (os : System) (home : FilePath) (config : Config) (metrics : MetricsStore)
    (plugins : PluginManager) (t : Trace) (m : Machine)
    → Reach os (record { daemon = start home config metrics plugins t; tasks = [] }) m
    → NodupKeys m.daemon.connections
      × ((k : Text) (c : ManagedConnection)
          → get k m.daemon.connections ≡ some c
          → k ≡ key c.target)
Reach-interleaved os home config metrics plugins t m r =
    let v : IsSound m.daemon = Reach-IsSound (start-IsSound home config metrics plugins t) r in
    (v.nodup, λ k c e. Entries-get IsKeyed k m.daemon.connections c v.keyed e)
