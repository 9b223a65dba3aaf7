-- ===== src/Daemon/State.antt =====
-- `DaemonState` of crates/daemon/src/state.rs, and the calls on its parts with what they ask of the
-- system. A request is handled here without another one in between.
pub mod Frames
use sshflow.Prelude.{
  ℕ, Bool, true, false, List, [], ◌∷◌, Option, none, some, Text, Result, ok, err, is_some, is_ok,
  if◌then◌else◌,
}
use sshflow.Core.Events.{Event}
use sshflow.Core.HostTarget.{HostTarget}
use sshflow.Core.Protocol.{FilePath}
use sshflow.Config.{Config}
use sshflow.System.{System, Trace, read_clock, wrote_metrics}
use sshflow.Manager
use sshflow.Manager.{ManagedConnection, ConnectionManager}
use sshflow.Metrics
use sshflow.Metrics.{MetricsStore}
use sshflow.Plugins
use sshflow.Plugins.{PluginManager}
use sshflow.Ssh

pub record DaemonState : Type 0 where
  pub home : FilePath
  pub config : Config
  pub connections : ConnectionManager
  pub metrics : MetricsStore
  pub plugins : PluginManager
  pub shutdown : Bool
  pub trace : Trace

-- The state that `main` builds.
unfoldable pub start : FilePath → Config → MetricsStore → PluginManager → Trace → DaemonState
start home config metrics plugins t = record {
  home = home;
  config = config;
  connections = Manager.empty_manager;
  metrics = metrics;
  plugins = plugins;
  shutdown = false;
  trace = t;
}

module _ (os : System) where
  unfoldable pub insert_new :
      Text → HostTarget → FilePath → Option ℕ → Option ℕ → DaemonState → DaemonState
  insert_new key target socket pid latency d = record d {
    connections = Manager.insert_new key target socket pid latency (os.now d.trace) d.connections;
    trace = read_clock ∷ d.trace;
  }

  -- The clock is read when the connection is found.
  unfoldable pub mark_reused : Text → ℕ → DaemonState → DaemonState
  mark_reused key latency d =
      if Manager.contains key d.connections
      then record d {
        connections = Manager.mark_reused key latency (os.now d.trace) d.connections;
        trace = read_clock ∷ d.trace;
      }
      else d

  unfoldable pub touch : Text → DaemonState → DaemonState
  touch key d =
      if Manager.contains key d.connections
      then record d {
        connections = Manager.touch key (os.now d.trace) d.connections;
        trace = read_clock ∷ d.trace;
      }
      else d

  unfoldable pub mark_healthy : Text → Bool → DaemonState → DaemonState
  mark_healthy key healthy d = record d {
    connections = Manager.mark_healthy key healthy d.connections;
  }

  unfoldable pub remove : Text → DaemonState → DaemonState
  remove key d = record d { connections = (Manager.remove_connection key d.connections).1 }

  -- A method of the metrics store reads the clock, and then writes the file.
  unfoldable pub with_metrics : (ℕ → Bool → MetricsStore → MetricsStore) → DaemonState → DaemonState
  with_metrics method d =
      let clocked = read_clock ∷ d.trace in
      record d {
        metrics = method (os.now d.trace) (is_ok (os.write clocked d.metrics.path)) d.metrics;
        trace = wrote_metrics d.metrics.path ∷ clocked;
      }

  unfoldable pub record_connection : Text → Text → Bool → ℕ → DaemonState → DaemonState
  unfolding with_metrics
  record_connection key label reused latency =
      with_metrics (Metrics.record_connection key label reused latency)

  unfoldable pub record_failure : Text → Text → DaemonState → DaemonState
  unfolding with_metrics
  record_failure key label = with_metrics (Metrics.record_failure key label)

  unfoldable pub record_reconnect : DaemonState → DaemonState
  unfolding with_metrics
  record_reconnect = with_metrics Metrics.record_reconnect

  unfoldable pub dispatch : Event → DaemonState → DaemonState
  dispatch event d = record d { trace = Plugins.dispatch os d.plugins event d.trace }

  -- `spawn_blocking(is_master_alive).await.unwrap_or(false)`.
  unfoldable pub check_alive : FilePath → HostTarget → DaemonState → Bool × DaemonState
  check_alive socket target d =
      let (alive, t) = Ssh.is_master_alive os socket target d.trace in
      (if is_some (os.join_error t) then false else alive, record d { trace = t })

  -- The result of `stop_master` is dropped.
  unfoldable pub stop : ManagedConnection → DaemonState → DaemonState
  stop c d = record d { trace = (Ssh.stop_master os c.control_socket c.target d.trace).1 }

  evict : Option ManagedConnection → DaemonState → DaemonState
  evict none d = d
  evict (some c) d = stop c d

  -- The master is stopped after its entry is removed.
  evict_key : Option Text → DaemonState → DaemonState
  unfolding evict remove
  evict_key none d = d
  evict_key (some key) d = evict (Manager.remove_connection key d.connections).0 (remove key d)

  unfoldable pub evict_lru : DaemonState → DaemonState
  unfolding evict_key
  evict_lru d = evict_key (Manager.least_recently_used d.connections) d
