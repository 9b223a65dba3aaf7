-- ===== src/System.antt =====
-- What the daemon and the command line ask of the operating system and of code outside the
-- repository. Each answer may depend on all that was done before: the trace, newest first.
use sshflow.Prelude.{ℕ, Bool, List, Option, Text, Result}
use sshflow.Core.Events.{Event}
use sshflow.Core.Protocol.{FilePath}

pub data Stdio : Type 0 where
  inherit null piped : Stdio

-- A `std::process::Command`: the standard streams are input, output and error.
pub record Command : Type 0 where
  pub program : Text
  pub args : List Text
  pub stdin : Stdio
  pub stdout : Stdio
  pub stderr : Stdio

-- The exit status and the streams that were piped.
pub record Output : Type 0 where
  pub success : Bool
  pub stdout : Text
  pub stderr : Text

pub data Effect : Type 0 where
  -- A subprocess was run to its end.
  ran : Command → Effect
  -- A subprocess was started with a text on its input.
  spawned : Command → Text → Effect
  spawn_failed : Command → Effect
  -- A directory was created, a mode set.
  created_dir : FilePath → Effect
  set_mode : FilePath → ℕ → Effect
  read_clock : Effect
  wrote_file : FilePath → Text → Effect
  wrote_metrics : FilePath → Effect
  opened_log : FilePath → Effect
  connected : FilePath → Effect
  removed : FilePath → Effect
  bound : FilePath → Effect
  slept : ℕ → Effect

abbrev pub Trace : Type 0
Trace = List Effect

pub record System : Type 0 where
  -- `cfg!(windows)`, which the build settles; otherwise the target is a Unix.
  pub windows : Bool
  pub exists : Trace → FilePath → Bool
  pub run : Trace → Command → Result Text Output
  pub spawn : Trace → Command → Result Text (Unit {0})
  pub create_dir_all : Trace → FilePath → Result Text (Unit {0})
  pub set_permissions : Trace → FilePath → Result Text (Unit {0})
  pub read_to_string : Trace → FilePath → Result Text Text
  pub write : Trace → FilePath → Result Text (Unit {0})
  pub open_append : Trace → FilePath → Result Text (Unit {0})
  pub remove_file : Trace → FilePath → Result Text (Unit {0})
  -- A Unix socket: whether somebody listens, and `bind`.
  pub connect : Trace → FilePath → Result Text (Unit {0})
  pub bind : Trace → FilePath → Result Text (Unit {0})
  pub is_file : Trace → FilePath → Bool
  -- The permission bits of `metadata`.
  pub mode : Trace → FilePath → Option ℕ
  -- `BaseDirs`, and the directories of `PATH`, if they can be found.
  pub home_dir : Option FilePath
  pub path_dirs : Option (List FilePath)
  -- `now_unix`, and the milliseconds that an operation took.
  pub now : Trace → ℕ
  pub elapsed_ms : Trace → ℕ
  pub uptime_secs : Trace → ℕ
  pub process_id : ℕ
  pub geteuid : ℕ
  -- The free memory in bytes, from `sysinfo`.
  pub available_memory : Trace → ℕ
  -- The version that the build puts in.
  pub version : Text
  -- `JoinError` of a blocking task.
  pub join_error : Trace → Option Text
  -- `serde_json::to_string`.
  pub event_json : Event → Result Text Text
  -- The algorithm of `DefaultHasher`.
  pub hash : Text → ℕ
