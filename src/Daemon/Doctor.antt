-- ===== src/Daemon/Doctor.antt =====
-- `run` of crates/daemon/src/doctor.rs, and the search for the `ssh` binary in
-- crates/ssh/src/lib.rs.
pub mod Report
use sshflow.Prelude.{
  ℕ, zero, suc, ◌/◌, ◌%◌, ◌<◌, Bool, true, false, not, List, [], ◌∷◌, ◌++◌, Option, none, some,
  Text, codes, Result, ok, err, is_empty, decimal, ltb, ◌==◌, if◌then◌else◌,
}
use sshflow.Core.Protocol.{FilePath, DoctorCheck, DoctorReport, join}
use sshflow.Config.{Config, ConfigError, health_check_duration, config_error_text}
use sshflow.Config.Home.{config_path}
use sshflow.System.{System, Trace, Command, Output, null, piped, ran}
use sshflow.Manager
use sshflow.Plugins
use sshflow.Ssh.{ssh_program}
use sshflow.Ssh.Auth.{trim_lossy}
use sshflow.Daemon.State.{DaemonState}

-- The version request for a candidate.
version_command : FilePath → Command
version_command candidate = record {
  program = candidate;
  args = codes "-V" ∷ [];
  stdin = null;
  stdout = piped;
  stderr = piped;
}

-- The error stream, or the output if that is blank.
version_text : Output → Text
version_text o = if is_empty (trim_lossy o.stderr) then trim_lossy o.stdout else trim_lossy o.stderr

module _ (os : System) where
  in_path : List FilePath → Trace → List FilePath
  in_path [] t = []
  in_path (dir ∷ dirs) t =
      let rest = in_path dirs t in
      let candidate = join dir (ssh_program os.windows) in
      if os.is_file t candidate then candidate ∷ rest else rest

  ssh_candidates : Trace → List FilePath
  unfolding in_path
  ssh_candidates t = elim os.path_dirs [
    | none ↦ ssh_program os.windows ∷ []
    | some dirs ↦ ssh_program os.windows ∷ in_path dirs t
  ]

  -- The candidates are asked in turn, until one gives a version.
  first_version : List FilePath → Trace → Option (FilePath × Text) × Trace
  first_version [] t = (none, t)
  first_version (c ∷ cs) t =
      let command = version_command c in
      let rest = first_version cs (ran command ∷ t) in
      elim (os.run t command) [
        | err e ↦ rest
        | ok o ↦
            if is_empty (version_text o) then rest else (some (c, version_text o), ran command ∷ t)
      ]

  unfoldable pub detect_ssh : Trace → Option (FilePath × Text) × Trace
  unfolding ssh_candidates first_version version_command version_text
  detect_ssh t = first_version (ssh_candidates t) t

ssh_check : Option (FilePath × Text) → DoctorCheck
ssh_check (some (path, version)) = record {
  name = codes "OpenSSH client";
  ok = true;
  detail = version ++ codes " (" ++ path ++ codes ")";
}
ssh_check none = record {
  name = codes "OpenSSH client";
  ok = false;
  detail = codes "could not find or execute 'ssh' on PATH";
}

config_check : Result ConfigError FilePath → DoctorCheck
config_check path = record {
  name = codes "Config file";
  ok = true;
  detail = elim path [ ok p ↦ p | err e ↦ codes "unresolvable" ];
}

-- `mode & 0o777 == 0o700`.
pub owner_only : Option ℕ → Bool
owner_only none = false
owner_only (some mode) = mode % 0o1000 == 0o700

home_check : Bool → DoctorCheck
home_check home_ok = record {
  name = codes "~/.sshflow permissions";
  ok = home_ok;
  detail =
      if home_ok
      then codes "0700 (owner-only)"
      else codes "not restricted to owner-only -- run `chmod 700 ~/.sshflow`";
}

root_check : Bool → DoctorCheck
root_check is_root = record {
  name = codes "Running as non-root";
  ok = not is_root;
  detail =
      if is_root
      then codes "daemon is running as root -- violates least-privilege; run as a normal user"
      else codes "OK";
}

max_check : ℕ → DoctorCheck
max_check n = record { name = codes "maxConnections"; ok = ltb 0 n; detail = decimal n }

interval_check : Result ConfigError ℕ → DoctorCheck
unfolding config_error_text
interval_check (ok secs) = record {
  name = codes "healthCheck interval";
  ok = true;
  detail = decimal secs ++ codes "s";
}
interval_check (err e) = record {
  name = codes "healthCheck interval";
  ok = false;
  detail = config_error_text e;
}

active_check : ℕ → ℕ → DoctorCheck
active_check active max = record {
  name = codes "Active managed connections";
  ok = true;
  detail = decimal active ++ codes " / " ++ decimal max;
}

plugins_check : ℕ → DoctorCheck
plugins_check n = record {
  name = codes "Plugins";
  ok = true;
  detail = decimal n ++ codes " loaded";
}

memory_check : ℕ → DoctorCheck
memory_check bytes = record {
  name = codes "System memory";
  ok = ltb 32 (bytes / 1024 / 1024);
  detail = decimal (bytes / 1024 / 1024) ++ codes " MB available";
}

module _ (os : System) where
  -- Two checks are made on Unix only.
  unix_checks : DaemonState → List DoctorCheck
  unix_checks d =
      if os.windows
      then []
      else home_check (owner_only (os.mode d.trace d.home)) ∷ root_check (os.geteuid == 0) ∷ []

  -- The report, when the interval is read without a panic.
  report :
      Option (FilePath × Text)
      → Result ConfigError FilePath
      → Result ConfigError ℕ
      → DaemonState
      → DoctorReport
  unfolding unix_checks
  report ssh path interval d = record {
    checks =
        ssh_check ssh
        ∷ config_check path
        ∷ (unix_checks d
            ++ max_check d.config.max_connections
              ∷ interval_check interval
              ∷ active_check (Manager.len d.connections) d.config.max_connections
              ∷ plugins_check (Plugins.plugin_count d.plugins)
              ∷ memory_check (os.available_memory d.trace)
              ∷ []);
  }

  report_of :
      Option (FilePath × Text)
      → Result ConfigError FilePath
      → Option (Result ConfigError ℕ)
      → DaemonState
      → Option DoctorReport
  report_of ssh path none d = none
  report_of ssh path (some interval) d = some (report ssh path interval d)

  -- `none` is a panic in the reading of the interval.
  unfoldable pub run : DaemonState → Option DoctorReport × DaemonState
  unfolding report report_of unix_checks ssh_check config_check home_check owner_only root_check
      max_check interval_check active_check plugins_check memory_check
  run d =
      let (ssh, t) = detect_ssh os d.trace in
      let (path, t') = config_path os t in
      let asked = record d { trace = t' } in
      (report_of ssh path (health_check_duration d.config) asked, asked)
