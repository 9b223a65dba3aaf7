-- ===== src/Daemon/Interleaving.antt =====
-- The handlers of crates/daemon/src/ipc.rs and the health check of crates/daemon/src/health.rs, cut
-- at their awaits on a blocking thread, where other requests go on. A subprocess takes its effect
-- when its task is resumed.
pub mod Rule
pub mod Steps
pub mod Atomic
pub mod Awaits
pub mod Ends
pub mod Invariant
pub mod Settings
pub mod Sources
pub mod Growth
pub mod Capacity
use sshflow.Prelude.{
  ℕ, suc, zero, Bool, true, false, List, [], ◌∷◌, ◌++◌, Option, none, some, Text, codes, Result, ok,
  err, ◌≡◌, any, if◌then◌else◌,
}
use sshflow.Core.HostTarget.{HostTarget, key}
use sshflow.Core.Protocol.{FilePath, DaemonRequest, DaemonResponse, error}
use sshflow.Config.{ConfigError, persist_time_duration}
use sshflow.System.{System, Trace}
use sshflow.Manager
use sshflow.Manager.{ManagedConnection}
use sshflow.Ssh
use sshflow.Daemon.State.{DaemonState, mark_healthy, remove, check_alive}
use sshflow.Daemon.Ensure.{Handled, reuse, make_room, settle, start_blocking, or_ten_minutes}
use sshflow.Daemon.Health.{after_start, drop_stale}
use sshflow.Daemon.Requests.{handle, closed}

-- What waits for a blocking thread: the two awaits of `ensure_connection`, the one of a request to
-- close, and the two of the health check, with the keys that are left.
pub data Task : Type 0 where
  checking : HostTarget → FilePath → Task
  starting : HostTarget → FilePath → Result ConfigError ℕ → Task
  closing : Text → ManagedConnection → Task
  health_checking : Text → ManagedConnection → List Text → Task
  health_starting : Text → ManagedConnection → List Text → Result ConfigError ℕ → Task

-- A task stops at its next await, or it is over; without a response where it panicked, and for the
-- health check.
pub data Progress : Type 0 where
  waiting : Task → DaemonState → Progress
  finished : Option DaemonResponse → DaemonState → Progress

abbrev pub over : Handled → Progress
over h = finished h.0 h.1

module _ (os : System) where
  -- From `persist` to the await of the start.
  await_start : HostTarget → FilePath → Option (Result ConfigError ℕ) → DaemonState → Progress
  await_start target socket none d = finished none d
  await_start target socket (some persist) d = waiting (starting target socket persist) d

  prepare : HostTarget → Result Text FilePath → DaemonState → Progress
  unfolding await_start
  prepare target (err e) d =
      finished (some (error (codes "could not prepare control socket path: " ++ e))) d
  prepare target (ok socket) d = await_start target socket (persist_time_duration d.config) d

  begin_start : HostTarget → DaemonState → Progress
  unfolding prepare
  begin_start target d =
      let roomy = make_room os d in
      let (path, t) = Ssh.control_socket_path os roomy.home target roomy.trace in
      prepare target path (record roomy { trace = t })

  begin_ensure : HostTarget → Option FilePath → DaemonState → Progress
  unfolding begin_start
  begin_ensure target none d = begin_start target d
  begin_ensure target (some existing) d = waiting (checking target existing) d

  begin_close : Text → Option ManagedConnection → DaemonState → Progress
  begin_close k none d = over (closed os k none d)
  begin_close k (some c) d = waiting (closing k c) d

  -- A request up to its first await.
  unfoldable pub begin : DaemonRequest → DaemonState → Progress
  unfolding begin_ensure begin_close
  begin (DaemonRequest.ensure_connection target) d =
      begin_ensure target (Manager.socket_for (key target) d.connections) d
  begin (DaemonRequest.close_connection k) d =
      begin_close k (Manager.remove_connection k d.connections).0 (remove os k d)
  begin r d = over (handle os r d)

  -- The health check from one key to the next await.
  next_key : List Text → DaemonState → Progress
  next_key [] d = finished none d
  next_key (k ∷ keys) d =
      let rest = next_key keys d in
      elim (Manager.get_clone k d.connections) [
        | none ↦ rest
        | some c ↦ waiting (health_checking k c keys) d
      ]

  unfoldable pub begin_round : DaemonState → Progress
  unfolding next_key
  begin_round d = next_key (Manager.all_keys d.connections) d

  after_check : HostTarget → FilePath → Bool × DaemonState → Progress
  after_check target existing (true, d) = over (reuse os target existing d)
  after_check target existing (false, d) = begin_start target (remove os (key target) d)

  await_restart :
      Text → ManagedConnection → List Text → Option (Result ConfigError ℕ) → DaemonState → Progress
  await_restart k c keys none d = finished none d
  await_restart k c keys (some persist) d = waiting (health_starting k c keys persist) d

  after_health_check : Text → ManagedConnection → List Text → Bool × DaemonState → Progress
  unfolding await_restart
  after_health_check k c keys (true, d) = next_key keys (mark_healthy os k true d)
  after_health_check k c keys (false, d) =
      if d.config.reconnect
      then await_restart k c keys (persist_time_duration d.config) d
      else next_key keys (drop_stale os k c d)

  -- A task from the await that it stands at to the next.
  unfoldable pub resume : Task → DaemonState → Progress
  unfolding begin_start after_check next_key after_health_check
  resume (checking target existing) d =
      after_check target existing (check_alive os existing target d)
  resume (starting target socket persist) d =
      over (settle os target socket (start_blocking os socket target (or_ten_minutes persist) d))
  resume (closing k c) d = over (closed os k (some c) d)
  resume (health_checking k c keys) d =
      after_health_check k c keys (check_alive os c.control_socket c.target d)
  resume (health_starting k c keys persist) d =
      next_key keys (
        after_start os k c (start_blocking os c.control_socket c.target (or_ten_minutes persist) d))

-- The daemon and the tasks that wait.
pub record Machine : Type 0 where
  pub daemon : DaemonState
  pub tasks : List Task

abbrev pub is_health : Task → Bool
is_health (health_checking k c keys) = true
is_health (health_starting k c keys persist) = true
is_health _ = false

-- The machine after a task has come to its next await, beside the others.
abbrev pub settled : Progress → List Task → Machine
settled (waiting t d) others = record { daemon = d; tasks = t ∷ others }
settled (finished response d) others = record { daemon = d; tasks = others }

-- A request arrives, a round of the health check begins unless one is on, or a task goes on; time
-- may pass in between.
pub data Step (os : System) (m m' : Machine) : Type 0 where
  arrives : (r : DaemonRequest) → m' ≡ settled (begin os r m.daemon) m.tasks → Step os m m'
  ticks :
      any is_health m.tasks ≡ false → m' ≡ settled (begin_round os m.daemon) m.tasks → Step os m m'
  resumes :
      (before after : List Task) (t : Task)
      → m.tasks ≡ before ++ t ∷ after
      → m' ≡ settled (resume os t m.daemon) (before ++ after)
      → Step os m m'
  passes : (t : Trace) → m' ≡ record m { daemon = record (m.daemon) { trace = t } } → Step os m m'

pub data Reach (os : System) (m : Machine) : Machine → Type 0 where
  here : Reach os m m
  next : {m₁ m₂ : Machine} → Reach os m m₁ → Step os m₁ m₂ → Reach os m m₂
