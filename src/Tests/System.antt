-- ===== src/Tests/System.antt =====
-- A system on which `ssh` always succeeds, and the destinations and tables of the tests.
use sshflow.Prelude.{ℕ, true, false, [], ◌∷◌, none, some, codes, ok, err, length}
use sshflow.Core.HostTarget.{HostTarget}
use sshflow.Config.{default_config}
use sshflow.Metrics.{MetricsStore, no_totals}
use sshflow.System.{System, Output}
use sshflow.Manager.{ManagedConnection, ConnectionManager}
use sshflow.Daemon.State.{DaemonState}

abbrev pub success : Output
success = record { success = true; stdout = codes "OpenSSH_9.6"; stderr = [] }

abbrev pub good_system : System
good_system = record {
  windows = false;
  exists = λ t p. true;
  run = λ t c. ok success;
  spawn = λ t c. ok tt;
  create_dir_all = λ t p. ok tt;
  set_permissions = λ t p. ok tt;
  read_to_string = λ t p. err (codes "no such file");
  write = λ t p. ok tt;
  open_append = λ t p. ok tt;
  remove_file = λ t p. ok tt;
  connect = λ t p. err (codes "connection refused");
  bind = λ t p. ok tt;
  is_file = λ t p. false;
  mode = λ t p. some 0o40700;
  home_dir = some (codes "/home/u");
  path_dirs = none;
  now = λ t. 1000;
  elapsed_ms = λ t. 7;
  uptime_secs = λ t. 60;
  process_id = 4711;
  geteuid = 1000;
  available_memory = λ t. 104857600;
  version = codes "0.1.0";
  join_error = λ t. none;
  event_json = λ e. ok (codes "{}");
  hash = length;
}

abbrev pub deploy : HostTarget
deploy = record { user = some (codes "deploy"); host = codes "10.0.0.4"; port = some 2222 }

abbrev pub plain : HostTarget
plain = record { user = none; host = codes "h"; port = none }

abbrev pub tracked : HostTarget → ℕ → ManagedConnection
tracked target last_used = record {
  target = target;
  control_socket = codes "/s";
  pid = none;
  created_at = 1;
  last_used = last_used;
  reused_count = 0;
  healthy = false;
  last_latency_ms = none;
}

abbrev pub metrics : MetricsStore
metrics = record {
  path = codes "/home/u/.sshflow/metrics.json";
  day_index = 0;
  baseline_handshake_ms = 200;
  totals = no_totals;
  per_host = [];
  file = none;
}

abbrev pub with_connections : ConnectionManager → DaemonState
with_connections m = record {
  home = codes "/home/u/.sshflow";
  config = record default_config { max_connections = 1 };
  connections = m;
  metrics = metrics;
  plugins = [];
  shutdown = false;
  trace = [];
}

abbrev pub one_connection : ConnectionManager
one_connection = (codes "@h:", tracked plain 5) ∷ []
