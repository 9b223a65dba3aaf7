-- ===== src/Ssh.antt =====
-- crates/ssh/src/lib.rs: the commands of `ssh` that the daemon and the command line run.
pub mod Answers
pub mod Auth
pub mod Commands
pub mod Refused
pub mod Sockets
use sshflow.Prelude.{
  ℕ, Bool, true, false, ◌&&◌, not, List, [], ◌∷◌, ◌++◌, Option, none, some, Text, codes, Result, ok,
  err, decimal, if◌then◌else◌, is_empty, ltb,
}
use sshflow.Core.Errors.{SshFlowError, io, other, master_failed, Fallible}
use sshflow.Core.HostTarget.{HostTarget, destination_string, display}
use sshflow.Core.HostTarget.Fingerprint.{socket_fingerprint}
use sshflow.Core.Protocol.{FilePath, join}
use sshflow.System.{
  System, Trace, Command, Output, Stdio, Effect, inherit, null, piped, ran, created_dir, set_mode,
}
use sshflow.Ssh.Auth.{needs_interactive_auth, trim_lossy}

abbrev pub ssh_program : Bool → Text
ssh_program windows = if windows then codes "ssh.exe" else codes "ssh"

module _ (os : System) where
  -- `set_permissions` with its effect.
  chmod : FilePath → ℕ → Trace → Result Text (Unit {0}) × Trace
  chmod path mode t = (os.set_permissions t path, set_mode path mode ∷ t)

  -- The directory exists, or it is created.
  make_dir : FilePath → Trace → Result Text (Unit {0}) × Trace
  make_dir dir t =
      if os.exists t dir then (ok tt, t) else (os.create_dir_all t dir, created_dir dir ∷ t)

  lock_unix_dir : FilePath → Trace → Result Text FilePath × Trace
  unfolding chmod
  lock_unix_dir dir t = elim (chmod dir 0o700 t).0 [
    | ok _ ↦ (ok dir, (chmod dir 0o700 t).1)
    | err e ↦ (err e, (chmod dir 0o700 t).1)
  ]

  lock_dir : FilePath → Result Text (Unit {0}) × Trace → Result Text FilePath × Trace
  unfolding lock_unix_dir
  lock_dir dir (err e, t) = (err e, t)
  lock_dir dir (ok _, t) = if os.windows then (ok dir, t) else lock_unix_dir dir t

  unfoldable pub socket_dir : FilePath → Trace → Result Text FilePath × Trace
  unfolding make_dir lock_dir
  socket_dir home t = let dir = join home (codes "sockets") in lock_dir dir (make_dir dir t)

  socket_in : HostTarget → Result Text FilePath × Trace → Result Text FilePath × Trace
  socket_in target (err e, t) = (err e, t)
  socket_in target (ok dir, t) =
      (ok (join dir (socket_fingerprint os.hash target ++ codes ".sock")), t)

  unfoldable pub control_socket_path : FilePath → HostTarget → Trace → Result Text FilePath × Trace
  unfolding socket_in socket_dir
  control_socket_path home target t = socket_in target (socket_dir home t)

  -- A command that talks to a master, with all streams closed.
  pub control_command : FilePath → Text → HostTarget → Command
  control_command socket operation target = record {
    program = ssh_program os.windows;
    args = codes "-S" ∷ socket ∷ codes "-O" ∷ operation ∷ destination_string target ∷ [];
    stdin = null;
    stdout = null;
    stderr = null;
  }

  succeeded : Result Text Output → Bool
  succeeded (ok o) = o.success
  succeeded (err e) = false

  unfoldable pub is_master_alive : FilePath → HostTarget → Trace → Bool × Trace
  unfolding control_command succeeded
  is_master_alive socket target t =
      let check = control_command socket (codes "check") target in
      if os.exists t socket then (succeeded (os.run t check), ran check ∷ t) else (false, t)

  stopped : HostTarget → Result Text Output → Fallible (Unit {0})
  stopped target (err e) = err (io e)
  stopped target (ok o) =
      if o.success
      then ok tt
      else err (other (codes "failed to stop master for " ++ display target))

  unfoldable pub stop_master : FilePath → HostTarget → Trace → Fallible (Unit {0}) × Trace
  unfolding control_command stopped
  stop_master socket target t =
      let exit = control_command socket (codes "exit") target in
      (stopped target (os.run t exit), ran exit ∷ t)

  unfoldable pub harden_socket_permissions : FilePath → Trace → Trace
  unfolding chmod
  harden_socket_permissions socket t =
      if os.windows then t else if os.exists t socket then (chmod socket 0o600 t).1 else t

-- `as_secs().max(1)`.
abbrev at_least_one : ℕ → ℕ
at_least_one n = if ltb n 1 then 1 else n

port_args : Option ℕ → List Text
port_args none = []
port_args (some p) = codes "-p" ∷ decimal p ∷ []

-- The arguments of a master, around those for a start without a terminal.
master_args : FilePath → HostTarget → ℕ → List Text → List Text
unfolding port_args
master_args socket target persist batch =
    codes "-M"
    ∷ codes "-S"
    ∷ socket
    ∷ codes "-o"
    ∷ codes "ControlMaster=auto"
    ∷ codes "-o"
    ∷ (codes "ControlPersist=" ++ decimal (at_least_one persist) ++ codes "s")
    ∷ (batch ++ codes "-N" ∷ codes "-f" ∷ (port_args target.port ++ destination_string target ∷ []))

batch_args : ℕ → List Text
batch_args timeout =
    codes "-o"
    ∷ codes "BatchMode=yes"
    ∷ codes "-o"
    ∷ (codes "ConnectTimeout=" ++ decimal (at_least_one timeout))
    ∷ []

unfoldable pub start_command : Bool → FilePath → HostTarget → ℕ → ℕ → Command
unfolding master_args batch_args
start_command windows socket target persist timeout = record {
  program = ssh_program windows;
  args = master_args socket target persist (batch_args timeout);
  stdin = null;
  stdout = piped;
  stderr = piped;
}

unfoldable pub interactive_command : Bool → FilePath → HostTarget → ℕ → Command
unfolding master_args
interactive_command windows socket target persist = record {
  program = ssh_program windows;
  args = master_args socket target persist [];
  stdin = inherit;
  stdout = inherit;
  stderr = inherit;
}

pub data StartMasterError : Type 0 where
  needs_interactive : StartMasterError
  failed : Text → StartMasterError

-- What the standard error of a start that failed means.
unfoldable pub start_failure : Text → StartMasterError
start_failure stderr =
    if needs_interactive_auth stderr
    then needs_interactive
    else failed (if is_empty stderr then codes "ssh exited with a non-zero status" else stderr)

module _ (os : System) where
  started : FilePath → Result Text Output → Trace → Result StartMasterError ℕ × Trace
  started socket (err e) t = (err (failed e), t)
  started socket (ok o) t =
      if o.success
      then (ok (os.elapsed_ms t), harden_socket_permissions os socket t)
      else (err (start_failure (trim_lossy o.stderr)), t)

  -- The result is the milliseconds that the start took.
  unfoldable pub start_master_noninteractive :
      FilePath → HostTarget → ℕ → ℕ → Trace → Result StartMasterError ℕ × Trace
  unfolding started
  start_master_noninteractive socket target persist timeout t =
      let start = start_command os.windows socket target persist timeout in
      started socket (os.run t start) (ran start ∷ t)

  interactive_result :
      FilePath → HostTarget → Result Text Output → Trace → Fallible (Unit {0}) × Trace
  interactive_result socket target (err e) t = (err (io e), t)
  interactive_result socket target (ok o) t =
      if o.success
      then (ok tt, harden_socket_permissions os socket t)
      else (err (master_failed (codes "could not establish connection to " ++ display target)), t)

  unfoldable pub start_master_interactive :
      FilePath → HostTarget → ℕ → Trace → Fallible (Unit {0}) × Trace
  unfolding interactive_result
  start_master_interactive socket target persist t =
      let start = interactive_command os.windows socket target persist in
      interactive_result socket target (os.run t start) (ran start ∷ t)

-- The client, which takes the process's place on Unix, and is waited for on Windows.
unfoldable pub client_command : Bool → FilePath → HostTarget → List Text → Command
unfolding port_args
client_command windows socket target extra = record {
  program = ssh_program windows;
  args = codes "-S" ∷ socket ∷ (port_args target.port ++ destination_string target ∷ extra);
  stdin = inherit;
  stdout = inherit;
  stderr = inherit;
}
