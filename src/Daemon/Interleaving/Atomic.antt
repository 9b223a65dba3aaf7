-- ===== src/Daemon/Interleaving/Atomic.antt =====
-- A task that nothing comes between does what Requests and Health describe as one step.
use sshflow.Prelude.{
  ℕ, zero, suc, ◌*◌, ◌≤◌, ◌≡◌, refl, inl, inr, Bool, true, false, List, [], ◌∷◌, Option, none, some,
  Text, Result, ok, err, length, arith, Option-cases, length-map, if_beside,
}
use sshflow.Core.HostTarget.{HostTarget, key}
use sshflow.Core.Protocol.{FilePath, DaemonRequest}
use sshflow.Config.{ConfigError, persist_time_duration}
use sshflow.System.{System}
use sshflow.Manager
use sshflow.Manager.{ManagedConnection, ConnectionManager}
use sshflow.Daemon.State.{DaemonState, check_alive}
use sshflow.Daemon.Ensure.{
  Handled, ensure_connection, ensure_from, establish, checked, start_at, start_in,
}
use sshflow.Daemon.Requests.{handle, close}
use sshflow.Daemon.Health.{
  Round, goes_on, panics, and_then, try_reconnect, unresponsive, judged, check_found, check_key,
  check_keys, check_all,
}
use sshflow.Daemon.Interleaving.{
  Progress, waiting, finished, over, await_start, prepare, begin_start, begin_ensure, begin_close,
  begin, next_key, begin_round, after_check, await_restart, after_health_check, resume,
}

module _ (os : System) where
  -- At most so many awaits, with nothing in between; a task that is not over then has no response.
  complete : Progress → ℕ → Handled
  complete (finished response d) n = (response, d)
  complete (waiting t d) zero = (none, d)
  complete (waiting t d) (suc n) = complete (resume os t d) n

  complete-over : (h : Handled) (n : ℕ) → complete (over h) n ≡ h
  unfolding complete
  complete-over h n = refl

  complete-await_start :
      (target : HostTarget) (socket : FilePath) (persist : Option (Result ConfigError ℕ))
      (d : DaemonState) (n : ℕ)
      → complete (await_start os target socket persist d) (suc n)
        ≡ start_at os target socket persist d
  unfolding complete await_start start_at resume
  complete-await_start target socket none d n = refl
  complete-await_start target socket (some persist) d n = refl

  complete-prepare :
      (target : HostTarget) (path : Result Text FilePath) (d : DaemonState) (n : ℕ)
      → complete (prepare os target path d) (suc n) ≡ start_in os target path d
  unfolding complete prepare start_in
  complete-prepare target (err e) d n = refl
  complete-prepare target (ok socket) d n =
      complete-await_start target socket (persist_time_duration d.config) d n

  complete-begin_start :
      (target : HostTarget) (d : DaemonState) (n : ℕ)
      → complete (begin_start os target d) (suc n) ≡ establish os target d
  unfolding begin_start establish
  complete-begin_start target d n = complete-prepare target _ _ n

  complete-after_check :
      (target : HostTarget) (existing : FilePath) (alive : Bool) (d : DaemonState) (n : ℕ)
      → complete (after_check os target existing (alive, d)) (suc n)
        ≡ checked os target existing (alive, d)
  unfolding after_check checked complete
  complete-after_check target existing true d n = refl
  complete-after_check target existing false d n = complete-begin_start target _ n

  complete-begin_ensure :
      (target : HostTarget) (o : Option FilePath) (d : DaemonState)
      → complete (begin_ensure os target o d) 2 ≡ ensure_from os target o d
  unfolding complete begin_ensure ensure_from resume check_alive
  complete-begin_ensure target none d = complete-begin_start target d 1
  complete-begin_ensure target (some existing) d = complete-after_check target existing _ _ 0

  complete-begin_close :
      (k : Text) (o : Option ManagedConnection) (d : DaemonState)
      → complete (begin_close os k o d) 2 ≡ sshflow.Daemon.Requests.closed os k o d
  unfolding complete begin_close resume
  complete-begin_close k none d = refl
  complete-begin_close k (some c) d = refl

  -- A request whose awaits nothing comes between is over after at most two of them, with the
  -- response and the state that the handler in one step gives.
  complete-begin : (r : DaemonRequest) (d : DaemonState) → complete (begin os r d) 2 ≡ handle os r d
  unfolding complete begin handle ensure_connection close
  complete-begin (DaemonRequest.ensure_connection target) d =
      complete-begin_ensure target (Manager.socket_for (key target) d.connections) d
  complete-begin (DaemonRequest.close_connection k) d = complete-begin_close k _ _
  complete-begin DaemonRequest.ping d = refl
  complete-begin (DaemonRequest.register_external_master target socket pid) d = refl
  complete-begin DaemonRequest.status d = refl
  complete-begin DaemonRequest.stats d = refl
  complete-begin DaemonRequest.connections d = refl
  complete-begin DaemonRequest.doctor d = refl
  complete-begin (DaemonRequest.record_event e) d = refl
  complete-begin DaemonRequest.shutdown d = refl

-- The state that a round leaves, whether it ends or panics; it answers to nobody.
abbrev round_result : Round → Handled
round_result (goes_on d) = (none, d)
round_result (panics d) = (none, d)

module _ (os : System) where
  abbrev Completes : List Text → Type 0
  Completes keys =
      (d : DaemonState) (n : ℕ)
      → 2 * length keys ≤ n
      → complete os (next_key os keys d) n ≡ round_result (check_keys os keys d)

  module _ (k : Text) (c : ManagedConnection) (keys : List Text) (rest : Completes keys) where
    complete-await_restart :
        (persist : Option (Result ConfigError ℕ)) (d : DaemonState) (n : ℕ)
        → 2 * length keys ≤ n
        → complete os (await_restart os k c keys persist d) (suc n)
          ≡ round_result (and_then (try_reconnect os k c persist d) (check_keys os keys))
    unfolding complete await_restart try_reconnect resume
    complete-await_restart none d n h = refl
    complete-await_restart (some persist) d n h = rest _ n h

    complete-after_health_check :
        (alive : Bool) (d : DaemonState) (n : ℕ)
        → 2 * length keys ≤ n
        → complete os (after_health_check os k c keys (alive, d)) (suc n)
          ≡ round_result (and_then (judged os k c (alive, d)) (check_keys os keys))
    unfolding after_health_check judged unresponsive
    complete-after_health_check true d n h = rest _ (suc n) (omega arith)
    complete-after_health_check false d n h =
        if_beside (λ p. complete os p (suc n)) (λ r. round_result (and_then r (check_keys os keys)))
          d.config.reconnect (complete-await_restart (persist_time_duration d.config) d n h)
          (rest _ (suc n) (omega arith))

  complete-next_key : (keys : List Text) → Completes keys
  unfolding complete next_key check_keys check_key check_found resume check_alive
  complete-next_key [] d n h = refl
  complete-next_key (k ∷ keys) d zero h = absurd (omega arith)
  complete-next_key (k ∷ keys) d (suc zero) h = absurd (omega arith)
  complete-next_key (k ∷ keys) d (suc (suc n)) h =
      elim (Option-cases (Manager.get_clone k d.connections)) [
        | inl e ↦ rw (e, next_key) (complete-next_key keys d (suc (suc n)) (omega arith))
        | inr (c, e) ↦
            rw (e, next_key)
              (complete-after_health_check k c keys (complete-next_key keys)
                (check_alive os c.control_socket c.target d).0
                (check_alive os c.control_socket c.target d).1 n (omega arith))
      ]

  keys_fit : (m : ConnectionManager) → 2 * length (Manager.all_keys m) ≤ 2 * length m
  unfolding Manager.all_keys
  keys_fit m = omega (arith, length-map (λ e. e.0) m)

  -- A round of the health check whose awaits nothing comes between is over after at most two for
  -- each connection, and leaves the state that the round in one step leaves.
  complete-begin_round :
      (d : DaemonState)
      → complete os (begin_round os d) (2 * Manager.len d.connections)
        ≡ round_result (check_all os d)
  unfolding begin_round check_all Manager.len
  complete-begin_round d =
      complete-next_key (Manager.all_keys d.connections) d _ (keys_fit d.connections)
