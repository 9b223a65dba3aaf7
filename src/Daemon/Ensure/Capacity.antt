-- ===== src/Daemon/Ensure/Capacity.antt =====
-- The number of connections after `ensure_connection`.
use sshflow.Prelude.{
  ℕ, suc, ◌≤◌, ◌<◌, ◌≡◌, refl, ◌⊎◌, inl, inr, Bool, true, false, Option, none, some, Text, Result,
  ok, err, length, length-insert, length-modify, length-remove, length-remove-le, NodupKeys,
  NodupKeys-remove, leb, arith, Bool-cases, ap,
}
use sshflow.Core.HostTarget.{HostTarget, key}
use sshflow.Core.Protocol.{FilePath}
use sshflow.Config.{ConfigError, persist_time_duration}
use sshflow.System.{System}
use sshflow.Manager
use sshflow.Manager.{ManagedConnection, ConnectionManager, least_recently_used}
use sshflow.Manager.Eviction.{least_recently_used_min, least_recently_used-none}
use sshflow.Ssh.{needs_interactive, failed}
use sshflow.Daemon.State.{
  DaemonState, insert_new, mark_reused, remove, record_connection, record_failure, dispatch,
  check_alive,
}
use sshflow.Daemon.State.Frames.{evict_lru-frame, without}
use sshflow.Daemon.Ensure.{
  Start, joined, lost, reuse, make_room, settle, start_at, start_in, start_blocking, establish,
  checked, ensure_from, ensure_connection,
}

abbrev pub size : DaemonState → ℕ
size d = length d.connections

-- An eviction makes room for one, unless the table is empty.
pub length-without :
    (m : ConnectionManager) (o : Option Text)
    → NodupKeys m
    → least_recently_used m ≡ o
    → (length (without o m) ≡ 0) ⊎ (suc (length (without o m)) ≡ length m)
length-without m none n e = inl (ap length ((least_recently_used-none m).0 e))
length-without m (some k) n e =
    let (c, found, oldest) = least_recently_used_min m k n e in inr (length-remove k m c n found)

module _ (os : System) (target : HostTarget) (B : ℕ) where
  pub reuse-size :
      (existing : FilePath) (d : DaemonState) → size (reuse os target existing d).1 ≡ size d
  unfolding reuse mark_reused record_connection dispatch Manager.mark_reused
  reuse-size existing d = elim (Bool-cases (Manager.contains (key target) d.connections)) [
    | inl e ↦
        rw (e, mark_reused)
          (length-modify (key target) (Manager.reused (os.elapsed_ms d.trace) (os.now d.trace))
            d.connections)
    | inr e ↦ rw (e, mark_reused)
  ]

  pub make_room-size :
      (d : DaemonState)
      → NodupKeys d.connections
      → 1 ≤ B
      → d.config.max_connections ≤ B
      → size d ≤ B
      → size (make_room os d) < B
  unfolding make_room Manager.len
  make_room-size d n one fits small =
      elim (Bool-cases (leb d.config.max_connections (length d.connections))) [
        | inl full ↦
            rw (full, make_room, Manager.len)
              (rw (evict_lru-frame os d) (
                ground
                  (arith, length-without d.connections (least_recently_used d.connections) n refl)))
        | inr free ↦ rw (free, make_room, Manager.len) (ground arith)
      ]

  pub settle-size :
      (socket : FilePath) (s : Start) (d : DaemonState)
      → size d < B
      → size (settle os target socket (s, d)).1 ≤ B
  unfolding settle insert_new record_connection record_failure dispatch Manager.insert_new
  settle-size socket (joined (ok elapsed)) d h = ground (
    arith,
    length-insert (key target)
        (Manager.new_connection target socket none (some elapsed) (os.now d.trace)) d.connections,
  )
  settle-size socket (joined (err needs_interactive)) d h = omega arith
  settle-size socket (joined (err (failed message))) d h = omega arith
  settle-size socket (lost e) d h = omega arith

  start_at-size :
      (socket : FilePath) (persist : Option (Result ConfigError ℕ)) (d : DaemonState)
      → size d < B
      → size (start_at os target socket persist d).1 ≤ B
  unfolding start_at start_blocking
  start_at-size socket none d h = omega arith
  start_at-size socket (some persist) d h = settle-size socket _ _ h

  start_in-size :
      (path : Result Text FilePath) (d : DaemonState)
      → size d < B
      → size (start_in os target path d).1 ≤ B
  unfolding start_in
  start_in-size (err e) d h = omega arith
  start_in-size (ok socket) d h = start_at-size socket (persist_time_duration d.config) d h

  module _ (one : 1 ≤ B) where
    establish-size :
        (d : DaemonState)
        → NodupKeys d.connections
        → d.config.max_connections ≤ B
        → size d ≤ B
        → size (establish os target d).1 ≤ B
    unfolding establish
    establish-size d n fits small = start_in-size _ _ (make_room-size d n one fits small)

    checked-size :
        (existing : FilePath) (alive : Bool) (d : DaemonState)
        → NodupKeys d.connections
        → d.config.max_connections ≤ B
        → size d ≤ B
        → size (checked os target existing (alive, d)).1 ≤ B
    unfolding checked remove Manager.remove_connection
    checked-size existing true d n fits small = rw (reuse-size existing d) small
    checked-size existing false d n fits small =
        establish-size _ (NodupKeys-remove (key target) d.connections n) fits
          (omega (arith, length-remove-le (key target) d.connections))

    ensure_from-size :
        (found : Option FilePath) (d : DaemonState)
        → NodupKeys d.connections
        → d.config.max_connections ≤ B
        → size d ≤ B
        → size (ensure_from os target found d).1 ≤ B
    unfolding ensure_from check_alive
    ensure_from-size none d n fits small = establish-size d n fits small
    ensure_from-size (some existing) d n fits small = checked-size existing _ _ n fits small

-- A request for a connection never takes the number of connections above B, if it was not above
-- before: B is any number from `maxConnections` on, and at least one. So the limit is kept once it
-- is met, and a table above the limit does not grow.
pub ensure_connection-capacity :
    (os : System) (target : HostTarget) (B : ℕ) (d : DaemonState)
    → 1 ≤ B
    → d.config.max_connections ≤ B
    → NodupKeys d.connections
    → Manager.len d.connections ≤ B
    → Manager.len (ensure_connection os target d).1.connections ≤ B
unfolding ensure_connection Manager.len
ensure_connection-capacity os target B d one fits n small =
    ensure_from-size os target B one (Manager.socket_for (key target) d.connections) d n fits small
