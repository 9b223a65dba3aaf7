-- ===== src/Daemon/Interleaving/Rule.antt =====
-- A property of the state that the parts of every handler keep holds whenever a task stops or is
-- over.
use sshflow.Prelude.{
  ℕ, ◌≡◌, refl, Bool, true, false, List, [], ◌∷◌, Option, none, some, Text, Result, ok, err,
  if_both, Option-cases, inl, inr,
}
use sshflow.Core.HostTarget.{HostTarget, key}
use sshflow.Core.Protocol.{FilePath, DaemonRequest}
use sshflow.Config.{ConfigError, persist_time_duration}
use sshflow.System.{System, Trace}
use sshflow.Manager
use sshflow.Manager.{ManagedConnection}
use sshflow.Ssh
use sshflow.Daemon.State
use sshflow.Daemon.Ensure
use sshflow.Daemon.Health
use sshflow.Daemon.Requests
use sshflow.Daemon.State.{DaemonState, start, mark_healthy, check_alive, dispatch}
use sshflow.Daemon.Ensure.{start_blocking}
use sshflow.Daemon.Health.{drop_stale}
use sshflow.Daemon.Interleaving.{
  Task, checking, starting, closing, health_checking, health_starting, Progress, waiting, finished,
  await_start, prepare, begin_start, begin_ensure, begin_close, begin, next_key, begin_round,
  after_check, await_restart, after_health_check, resume,
}

-- The socket that a start is waited for is as it should be.
abbrev pub Held : (HostTarget → FilePath → Type 0) → Task → Type 0
Held G (starting target socket persist) = G target socket
Held G _ = Unit

abbrev pub Every : (DaemonState → Type 0) → (HostTarget → FilePath → Type 0) → Progress → Type 0
Every P G (waiting t d) = P d × Held G t
Every P G (finished response d) = P d

-- No condition on the sockets, or on the requests.
abbrev pub Anywhere : HostTarget → FilePath → Type 0
Anywhere target socket = Unit

abbrev pub Anything : DaemonRequest → Type 0
Anything r = Unit

-- The parts keep the property, at requests that are asked for and sockets that are as they should.
pub record Keeps (os : System) (P : DaemonState → Type 0) (G : HostTarget → FilePath → Type 0)
    (A : DaemonRequest → Type 0) : Type 0 where
  pub traced : (t : Trace) (d : DaemonState) → P d → P (record d { trace = t })
  pub handle : (r : DaemonRequest) (d : DaemonState) → A r → P d → P (Requests.handle os r d).1
  pub path :
      (target : HostTarget) (d : DaemonState)
      → P d
      → (socket : FilePath) → (Ssh.control_socket_path os d.home target d.trace).0 ≡ ok socket
      → G target socket
  pub make_room : (d : DaemonState) → P d → P (Ensure.make_room os d)
  pub reuse :
      (target : HostTarget) (existing : FilePath) (d : DaemonState)
      → P d
      → P (Ensure.reuse os target existing d).1
  pub settle :
      (target : HostTarget) (socket : FilePath) (s : Ensure.Start) (d : DaemonState)
      → G target socket
      → P d
      → P (Ensure.settle os target socket (s, d)).1
  pub remove : (k : Text) (d : DaemonState) → P d → P (State.remove os k d)
  pub closed :
      (k : Text) (o : Option ManagedConnection) (d : DaemonState)
      → P d
      → P (Requests.closed os k o d).1
  pub mark_healthy : (k : Text) (d : DaemonState) → P d → P (State.mark_healthy os k true d)
  pub drop_stale :
      (k : Text) (c : ManagedConnection) (d : DaemonState) → P d → P (Health.drop_stale os k c d)
  pub after_start :
      (k : Text) (c : ManagedConnection) (s : Ensure.Start) (d : DaemonState)
      → P d
      → P (Health.after_start os k c (s, d))

module _ (os : System) (P : DaemonState → Type 0) (G : HostTarget → FilePath → Type 0)
    (A : DaemonRequest → Type 0) (keeps : Keeps os P G A) where
  abbrev Fine : Progress → Type 0
  Fine = Every P G

  await_start-Fine :
      (target : HostTarget) (socket : FilePath) (persist : Option (Result ConfigError ℕ))
      (d : DaemonState)
      → G target socket
      → P d
      → Fine (await_start os target socket persist d)
  unfolding await_start
  await_start-Fine target socket none d g v = v
  await_start-Fine target socket (some persist) d g v = (v, g)

  prepare-Fine :
      (target : HostTarget) (path : Result Text FilePath) (d : DaemonState)
      → ((socket : FilePath) → path ≡ ok socket → G target socket)
      → P d
      → Fine (prepare os target path d)
  unfolding prepare
  prepare-Fine target (err e) d g v = v
  prepare-Fine target (ok socket) d g v =
      await_start-Fine target socket (persist_time_duration d.config) d (g socket refl) v

  begin_start-Fine : (target : HostTarget) (d : DaemonState) → P d → Fine (begin_start os target d)
  unfolding begin_start
  begin_start-Fine target d v =
      prepare-Fine target _ _ (keeps.path target (Ensure.make_room os d) (keeps.make_room d v))
        (keeps.traced _ (Ensure.make_room os d) (keeps.make_room d v))

  begin_ensure-Fine :
      (target : HostTarget) (o : Option FilePath) (d : DaemonState)
      → P d
      → Fine (begin_ensure os target o d)
  unfolding begin_ensure
  begin_ensure-Fine target none d v = begin_start-Fine target d v
  begin_ensure-Fine target (some existing) d v = (v, tt)

  begin_close-Fine :
      (k : Text) (o : Option ManagedConnection) (d : DaemonState)
      → P d
      → Fine (begin_close os k o d)
  unfolding begin_close
  begin_close-Fine k none d v = keeps.closed k none d v
  begin_close-Fine k (some c) d v = (v, tt)

  pub begin-Fine : (r : DaemonRequest) (d : DaemonState) → A r → P d → Fine (begin os r d)
  unfolding begin
  begin-Fine (DaemonRequest.ensure_connection target) d a v = begin_ensure-Fine target _ d v
  begin-Fine (DaemonRequest.close_connection k) d a v = begin_close-Fine k _ _ (keeps.remove k d v)
  begin-Fine DaemonRequest.ping d a v = keeps.handle DaemonRequest.ping d a v
  begin-Fine (DaemonRequest.register_external_master target socket pid) d a v =
      keeps.handle (DaemonRequest.register_external_master target socket pid) d a v
  begin-Fine DaemonRequest.status d a v = keeps.handle DaemonRequest.status d a v
  begin-Fine DaemonRequest.stats d a v = keeps.handle DaemonRequest.stats d a v
  begin-Fine DaemonRequest.connections d a v = keeps.handle DaemonRequest.connections d a v
  begin-Fine DaemonRequest.doctor d a v = keeps.handle DaemonRequest.doctor d a v
  begin-Fine (DaemonRequest.record_event e) d a v =
      keeps.handle (DaemonRequest.record_event e) d a v
  begin-Fine DaemonRequest.shutdown d a v = keeps.handle DaemonRequest.shutdown d a v

  next_key-Fine : (keys : List Text) (d : DaemonState) → P d → Fine (next_key os keys d)
  unfolding next_key
  next_key-Fine [] d v = v
  next_key-Fine (k ∷ keys) d v = elim (Option-cases (Manager.get_clone k d.connections)) [
    | inl e ↦ rw (e, next_key) (next_key-Fine keys d v)
    | inr (c, e) ↦ rw (e, next_key) (v, tt)
  ]

  after_check-Fine :
      (target : HostTarget) (existing : FilePath) (alive : Bool) (d : DaemonState)
      → P d
      → Fine (after_check os target existing (alive, d))
  unfolding after_check
  after_check-Fine target existing true d v = keeps.reuse target existing d v
  after_check-Fine target existing false d v =
      begin_start-Fine target _ (keeps.remove (key target) d v)

  await_restart-Fine :
      (k : Text) (c : ManagedConnection) (keys : List Text)
      (persist : Option (Result ConfigError ℕ)) (d : DaemonState)
      → P d
      → Fine (await_restart os k c keys persist d)
  unfolding await_restart
  await_restart-Fine k c keys none d v = v
  await_restart-Fine k c keys (some persist) d v = (v, tt)

  after_health_check-Fine :
      (k : Text) (c : ManagedConnection) (keys : List Text) (alive : Bool) (d : DaemonState)
      → P d
      → Fine (after_health_check os k c keys (alive, d))
  unfolding after_health_check
  after_health_check-Fine k c keys true d v = next_key-Fine keys _ (keeps.mark_healthy k d v)
  after_health_check-Fine k c keys false d v =
      if_both Fine d.config.reconnect
        (await_restart-Fine k c keys (persist_time_duration d.config) d v)
        (next_key-Fine keys _ (keeps.drop_stale k c d v))

  pub resume-Fine : (t : Task) (d : DaemonState) → Held G t → P d → Fine (resume os t d)
  unfolding resume check_alive start_blocking
  resume-Fine (checking target existing) d g v =
      after_check-Fine target existing _ _ (keeps.traced _ d v)
  resume-Fine (starting target socket persist) d g v =
      keeps.settle target socket _ _ g (keeps.traced _ d v)
  resume-Fine (closing k c) d g v = keeps.closed k (some c) d v
  resume-Fine (health_checking k c keys) d g v =
      after_health_check-Fine k c keys (check_alive os c.control_socket c.target d).0
        (check_alive os c.control_socket c.target d).1 (keeps.traced _ d v)
  resume-Fine (health_starting k c keys persist) d g v =
      next_key-Fine keys _ (keeps.after_start k c _ _ (keeps.traced _ d v))

  pub begin_round-Fine : (d : DaemonState) → P d → Fine (begin_round os d)
  unfolding begin_round
  begin_round-Fine d v = next_key-Fine (Manager.all_keys d.connections) d v
