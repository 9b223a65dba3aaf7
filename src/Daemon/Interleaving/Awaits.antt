-- ===== src/Daemon/Interleaving/Awaits.antt =====
-- How many awaits a request or a round of the health check comes to.
use sshflow.Prelude.{
  ℕ, suc, ◌+◌, ◌*◌, ◌≤◌, inl, inr, Bool, true, false, List, [], ◌∷◌, Option, none, some, Text,
  Result, ok, err, length, length-map, if_both, arith, Option-cases,
}
use sshflow.Core.HostTarget.{HostTarget}
use sshflow.Core.Protocol.{FilePath, DaemonRequest}
use sshflow.Config.{ConfigError, persist_time_duration}
use sshflow.System.{System}
use sshflow.Manager
use sshflow.Manager.{ManagedConnection}
use sshflow.Daemon.State.{DaemonState, check_alive}
use sshflow.Daemon.Interleaving.{
  Task, checking, starting, closing, health_checking, health_starting, Progress, waiting, finished,
  await_start, prepare, begin_start, begin_ensure, begin_close, begin, next_key, begin_round,
  after_check, await_restart, after_health_check, resume,
}

-- The awaits that a task still comes to at most, with the one that it stands at.
abbrev pub awaits : Task → ℕ
awaits (checking target existing) = 2
awaits (starting target socket persist) = 1
awaits (closing k c) = 1
awaits (health_checking k c keys) = 2 + 2 * length keys
awaits (health_starting k c keys persist) = 1 + 2 * length keys

abbrev pub left : Progress → ℕ
left (waiting t d) = awaits t
left (finished response d) = 0

module _ (os : System) where
  prepare-left :
      (target : HostTarget) (path : Result Text FilePath) (d : DaemonState)
      → left (prepare os target path d) ≤ 1
  unfolding prepare await_start
  prepare-left target (err e) d = omega arith
  prepare-left target (ok socket) d = go (persist_time_duration d.config)
    where
      go :
          (persist : Option (Result ConfigError ℕ))
          → left (await_start os target socket persist d) ≤ 1
      go none = omega arith
      go (some p) = omega arith

  begin_start-left : (target : HostTarget) (d : DaemonState) → left (begin_start os target d) ≤ 1
  unfolding begin_start
  begin_start-left target d = prepare-left target _ _

  begin_ensure-left :
      (target : HostTarget) (o : Option FilePath) (d : DaemonState)
      → left (begin_ensure os target o d) ≤ 2
  unfolding begin_ensure
  begin_ensure-left target none d = omega (arith, begin_start-left target d)
  begin_ensure-left target (some existing) d = omega arith

  begin_close-left :
      (k : Text) (o : Option ManagedConnection) (d : DaemonState) → left (begin_close os k o d) ≤ 2
  unfolding begin_close
  begin_close-left k none d = omega arith
  begin_close-left k (some c) d = omega arith

  pub begin-left : (r : DaemonRequest) (d : DaemonState) → left (begin os r d) ≤ 2
  unfolding begin
  begin-left (DaemonRequest.ensure_connection target) d = begin_ensure-left target _ d
  begin-left (DaemonRequest.close_connection k) d = begin_close-left k _ _
  begin-left DaemonRequest.ping d = omega arith
  begin-left (DaemonRequest.register_external_master target socket pid) d = omega arith
  begin-left DaemonRequest.status d = omega arith
  begin-left DaemonRequest.stats d = omega arith
  begin-left DaemonRequest.connections d = omega arith
  begin-left DaemonRequest.doctor d = omega arith
  begin-left (DaemonRequest.record_event e) d = omega arith
  begin-left DaemonRequest.shutdown d = omega arith

  next_key-left : (keys : List Text) (d : DaemonState) → left (next_key os keys d) ≤ 2 * length keys
  unfolding next_key
  next_key-left [] d = omega arith
  next_key-left (k ∷ keys) d = elim (Option-cases (Manager.get_clone k d.connections)) [
    | inl e ↦ rw (e, next_key) (omega (arith, next_key-left keys d))
    | inr (c, e) ↦ rw (e, next_key) (omega arith)
  ]

  pub begin_round-left : (d : DaemonState) → left (begin_round os d) ≤ 2 * Manager.len d.connections
  unfolding begin_round Manager.all_keys Manager.len
  begin_round-left d =
      omega (
        arith,
        next_key-left (Manager.all_keys d.connections) d,
        length-map (λ e. e.0) d.connections,
      )

  after_check-left :
      (target : HostTarget) (existing : FilePath) (alive : Bool) (d : DaemonState)
      → left (after_check os target existing (alive, d)) ≤ 1
  unfolding after_check
  after_check-left target existing true d = omega arith
  after_check-left target existing false d = begin_start-left target _

  await_restart-left :
      (k : Text) (c : ManagedConnection) (keys : List Text)
      (persist : Option (Result ConfigError ℕ)) (d : DaemonState)
      → left (await_restart os k c keys persist d) ≤ 1 + 2 * length keys
  unfolding await_restart
  await_restart-left k c keys none d = omega arith
  await_restart-left k c keys (some persist) d = omega arith

  after_health_check-left :
      (k : Text) (c : ManagedConnection) (keys : List Text) (alive : Bool) (d : DaemonState)
      → left (after_health_check os k c keys (alive, d)) ≤ 1 + 2 * length keys
  unfolding after_health_check
  after_health_check-left k c keys true d = omega (arith, next_key-left keys _)
  after_health_check-left k c keys false d =
      if_both (λ (p : Progress). left p ≤ 1 + 2 * length keys) d.config.reconnect
        (await_restart-left k c keys (persist_time_duration d.config) d)
        (omega (arith, next_key-left keys _))

  -- Whatever the state is by then, a task that goes on has an await less before it.
  pub resume-left : (t : Task) (d : DaemonState) → suc (left (resume os t d)) ≤ awaits t
  unfolding resume check_alive
  resume-left (checking target existing) d = omega (arith, after_check-left target existing _ _)
  resume-left (starting target socket persist) d = omega arith
  resume-left (closing k c) d = omega arith
  resume-left (health_checking k c keys) d = omega (
    arith,
    after_health_check-left k c keys (check_alive os c.control_socket c.target d).0
        (check_alive os c.control_socket c.target d).1,
  )
  resume-left (health_starting k c keys persist) d = omega (arith, next_key-left keys _)
