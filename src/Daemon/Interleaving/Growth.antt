-- ===== src/Daemon/Interleaving/Growth.antt =====
-- How far a task changes the number of connections between two awaits.
use sshflow.Prelude.{
  ℕ, suc, ◌≤◌, ◌<◌, ◌≡◌, inl, inr, Bool, true, false, List, [], ◌∷◌, Option, none, some, Text,
  Result, ok, err, length, length-modify, length-remove-le, if_both, arith, leb, Option-cases,
  NodupKeys, NodupKeys-remove,
}
use sshflow.Core.HostTarget.{HostTarget, key}
use sshflow.Core.Protocol.{FilePath, DaemonRequest}
use sshflow.Config.{ConfigError, persist_time_duration}
use sshflow.System.{System}
use sshflow.Manager
use sshflow.Manager.{ManagedConnection, least_recently_used}
use sshflow.Daemon.State.{
  DaemonState, mark_healthy, touch, remove, record_reconnect, dispatch, stop, check_alive,
}
use sshflow.Daemon.State.Frames.{evict_lru-frame, without}
use sshflow.Daemon.Ensure.{Start, joined, lost, make_room, start_blocking}
use sshflow.Daemon.Ensure.Capacity.{size, make_room-size, reuse-size, settle-size}
use sshflow.Daemon.Health.{drop_stale, after_start, recovered}
use sshflow.Daemon.Requests.{handle, closed, snapshot_of}
use sshflow.Daemon.Requests.Invariant.{doctored-connections, count_event-connections}
use sshflow.Daemon.Interleaving.{
  Task, checking, starting, closing, health_checking, health_starting, Progress, waiting, finished,
  await_start, prepare, begin_start, begin_ensure, begin_close, begin, next_key, begin_round,
  after_check, await_restart, after_health_check, resume,
}

abbrev pub is_start : Task → Bool
is_start (starting target socket persist) = true
is_start _ = false

abbrev pub is_registration : DaemonRequest → Bool
is_registration (DaemonRequest.register_external_master target socket pid) = true
is_registration _ = false

-- No connection is added; in front of a start there is room for one more below any bound that the
-- limit and the number before are within.
pub record Room (B n : ℕ) (d : DaemonState) : Type 0 where
  pub no_more : size d ≤ n
  pub free : (L : ℕ) → B ≤ L → n ≤ L → size d < L

abbrev pub Grows : ℕ → ℕ → Progress → Type 0
Grows B n (waiting (starting target socket persist) d) = Room B n d
Grows B n (waiting t d) = size d ≤ n
Grows B n (finished response d) = size d ≤ n

without-size : (m : Manager.ConnectionManager) (o : Option Text) → length (without o m) ≤ length m
without-size m none = omega arith
without-size m (some k) = length-remove-le k m

module _ (os : System) (B : ℕ) (one : 1 ≤ B) where
  make_room-le : (d : DaemonState) → size (make_room os d) ≤ size d
  unfolding make_room
  make_room-le d =
      if_both (λ (s : DaemonState). size s ≤ size d)
        (leb d.config.max_connections (Manager.len d.connections))
        (rw (evict_lru-frame os d) (without-size d.connections (least_recently_used d.connections)))
        (omega arith)

  make_room-Room :
      (target : HostTarget) (n : ℕ) (d : DaemonState)
      → NodupKeys d.connections
      → d.config.max_connections ≤ B
      → size d ≤ n
      → Room B n (make_room os d)
  make_room-Room target n d u fits small = record {
    no_more = omega (arith, make_room-le d);
    free = λ L b l. make_room-size os target L d u (omega arith) (omega arith) (omega arith);
  }

  prepare-Grows :
      (target : HostTarget) (n : ℕ) (path : Result Text FilePath) (d : DaemonState)
      → Room B n d
      → Grows B n (prepare os target path d)
  unfolding prepare await_start
  prepare-Grows target n (err e) d v = v.no_more
  prepare-Grows target n (ok socket) d v = go (persist_time_duration d.config)
    where
      go :
          (persist : Option (Result ConfigError ℕ))
          → Grows B n (await_start os target socket persist d)
      go none = v.no_more
      go (some p) = v

  begin_start-Grows :
      (target : HostTarget) (n : ℕ) (d : DaemonState)
      → NodupKeys d.connections
      → d.config.max_connections ≤ B
      → size d ≤ n
      → Grows B n (begin_start os target d)
  unfolding begin_start
  begin_start-Grows target n d u fits small =
      let v = make_room-Room target n d u fits small in
      prepare-Grows target n _ (record (make_room os d) { trace = _ })
        (record { no_more = v.no_more; free = v.free })

  after_check-Grows :
      (target : HostTarget) (existing : FilePath) (alive : Bool) (d : DaemonState)
      → NodupKeys d.connections
      → d.config.max_connections ≤ B
      → Grows B (size d) (after_check os target existing (alive, d))
  unfolding after_check remove Manager.remove_connection
  after_check-Grows target existing true d u fits = omega (arith, reuse-size os target B existing d)
  after_check-Grows target existing false d u fits =
      begin_start-Grows target (size d) (remove os (key target) d)
        (NodupKeys-remove (key target) d.connections u) fits
        (length-remove-le (key target) d.connections)

  closed-size :
      (k : Text) (o : Option ManagedConnection) (d : DaemonState)
      → size (closed os k o d).1 ≤ size d
  unfolding closed dispatch stop
  closed-size k none d = omega arith
  closed-size k (some c) d = omega arith

  begin_close-Grows :
      (k : Text) (n : ℕ) (o : Option ManagedConnection) (d : DaemonState)
      → size d ≤ n
      → Grows B n (begin_close os k o d)
  unfolding begin_close
  begin_close-Grows k n none d h = omega (arith, closed-size k none d)
  begin_close-Grows k n (some c) d h = h

  pub begin-Grows :
      (r : DaemonRequest) (d : DaemonState)
      → is_registration r ≡ false
      → NodupKeys d.connections
      → d.config.max_connections ≤ B
      → Grows B (size d) (begin os r d)
  unfolding begin begin_ensure remove dispatch Manager.remove_connection handle snapshot_of
  begin-Grows (DaemonRequest.ensure_connection target) d q u fits =
      go (Manager.socket_for (key target) d.connections)
    where
      go : (o : Option FilePath) → Grows B (size d) (begin_ensure os target o d)
      go none = begin_start-Grows target (size d) d u fits (omega arith)
      go (some existing) = omega arith
  begin-Grows (DaemonRequest.close_connection k) d q u fits =
      begin_close-Grows k (size d) _ (remove os k d) (length-remove-le k d.connections)
  begin-Grows DaemonRequest.ping d q u fits = omega arith
  begin-Grows (DaemonRequest.register_external_master target socket pid) d q u fits = cc
  begin-Grows DaemonRequest.status d q u fits = omega arith
  begin-Grows DaemonRequest.stats d q u fits = omega arith
  begin-Grows DaemonRequest.connections d q u fits = omega arith
  begin-Grows DaemonRequest.doctor d q u fits = rw (doctored-connections os d) (omega arith)
  begin-Grows (DaemonRequest.record_event e) d q u fits =
      rw (count_event-connections os e d) (omega arith)
  begin-Grows DaemonRequest.shutdown d q u fits = omega arith

  next_key-Grows :
      (n : ℕ) (keys : List Text) (d : DaemonState) → size d ≤ n → Grows B n (next_key os keys d)
  unfolding next_key
  next_key-Grows n [] d h = h
  next_key-Grows n (k ∷ keys) d h = elim (Option-cases (Manager.get_clone k d.connections)) [
    | inl e ↦ rw (e, next_key) (next_key-Grows n keys d h)
    | inr (c, e) ↦ rw (e, next_key) h
  ]

  pub begin_round-Grows : (d : DaemonState) → Grows B (size d) (begin_round os d)
  unfolding begin_round
  begin_round-Grows d = next_key-Grows (size d) (Manager.all_keys d.connections) d (omega arith)

  drop_stale-size :
      (k : Text) (c : ManagedConnection) (d : DaemonState) → size (drop_stale os k c d) ≤ size d
  unfolding drop_stale dispatch remove Manager.remove_connection
  drop_stale-size k c d = length-remove-le k d.connections

  mark_healthy-size : (k : Text) (d : DaemonState) → size (mark_healthy os k true d) ≤ size d
  unfolding mark_healthy Manager.mark_healthy
  mark_healthy-size k d = omega (arith, length-modify k _ d.connections)

  touch-size : (k : Text) (d : DaemonState) → size (touch os k d) ≤ size d
  unfolding touch Manager.touch
  touch-size k d =
      if_both (λ (s : DaemonState). size s ≤ size d) (Manager.contains k d.connections)
        (omega (arith, length-modify k _ d.connections)) (omega arith)

  after_start-size :
      (k : Text) (c : ManagedConnection) (s : Start) (d : DaemonState)
      → size (after_start os k c (s, d)) ≤ size d
  unfolding after_start recovered dispatch record_reconnect
  after_start-size k c (joined (ok elapsed)) d =
      omega (arith, touch-size k (mark_healthy os k true d), mark_healthy-size k d)
  after_start-size k c (joined (err e)) d = drop_stale-size k c d
  after_start-size k c (lost e) d = drop_stale-size k c d

  after_health_check-Grows :
      (k : Text) (c : ManagedConnection) (keys : List Text) (alive : Bool) (d : DaemonState)
      → Grows B (size d) (after_health_check os k c keys (alive, d))
  unfolding after_health_check await_restart
  after_health_check-Grows k c keys true d = next_key-Grows (size d) keys _ (mark_healthy-size k d)
  after_health_check-Grows k c keys false d =
      if_both (Grows B (size d)) d.config.reconnect (go (persist_time_duration d.config))
        (next_key-Grows (size d) keys _ (drop_stale-size k c d))
    where
      go :
          (persist : Option (Result ConfigError ℕ))
          → Grows B (size d) (await_restart os k c keys persist d)
      go none = omega arith
      go (some p) = omega arith

  -- A start that is over has added one connection at most, any other task none.
  abbrev pub After : Task → ℕ → Progress → Type 0
  After (starting target socket persist) n p = Grows B (suc n) p
  After _ n p = Grows B n p

  pub resume-Grows :
      (t : Task) (d : DaemonState)
      → NodupKeys d.connections
      → d.config.max_connections ≤ B
      → After t (size d) (resume os t d)
  unfolding resume check_alive start_blocking
  resume-Grows (checking target existing) d u fits =
      after_check-Grows target existing _ (record d { trace = _ }) u fits
  resume-Grows (starting target socket persist) d u fits =
      settle-size os target (suc (size d)) socket _ (record d { trace = _ }) (omega arith)
  resume-Grows (closing k c) d u fits = closed-size k (some c) d
  resume-Grows (health_checking k c keys) d u fits =
      after_health_check-Grows k c keys (check_alive os c.control_socket c.target d).0
        (check_alive os c.control_socket c.target d).1
  resume-Grows (health_starting k c keys persist) d u fits =
      next_key-Grows (size d) keys _ (after_start-size k c _ (record d { trace = _ }))
