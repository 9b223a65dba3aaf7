-- ===== src/Daemon/Ensure/Rule.antt =====
-- A property of the state that every step of `ensure_connection` keeps holds after the whole call.
use sshflow.Prelude.{ℕ, Bool, true, false, Option, none, some, Text, Result, ok, err}
use sshflow.Core.HostTarget.{HostTarget, key}
use sshflow.Core.Protocol.{FilePath}
use sshflow.Config.{ConfigError, persist_time_duration}
use sshflow.System.{System, Trace}
use sshflow.Manager
use sshflow.Daemon.State.{DaemonState, remove, check_alive}
use sshflow.Daemon.Ensure.{
  Start, reuse, make_room, settle, start_at, start_in, start_blocking, establish, checked,
  ensure_from, ensure_connection,
}

module _ (os : System) (target : HostTarget) (P : DaemonState → Type 0)
    (traced : (t : Trace) (d : DaemonState) → P d → P (record d { trace = t }))
    (reused : (existing : FilePath) (d : DaemonState) → P d → P (reuse os target existing d).1)
    (removed : (d : DaemonState) → P d → P (remove os (key target) d))
    (roomy : (d : DaemonState) → P d → P (make_room os d))
    (settled : (socket : FilePath) (s : Start) (d : DaemonState)
      → P d
      → P (settle os target socket (s, d)).1) where
  start_at-rule :
      (socket : FilePath) (persist : Option (Result ConfigError ℕ)) (d : DaemonState)
      → P d
      → P (start_at os target socket persist d).1
  unfolding start_at start_blocking
  start_at-rule socket none d p = p
  start_at-rule socket (some persist) d p = settled socket _ _ (traced _ d p)

  start_in-rule :
      (path : Result Text FilePath) (d : DaemonState) → P d → P (start_in os target path d).1
  unfolding start_in
  start_in-rule (err e) d p = p
  start_in-rule (ok socket) d p = start_at-rule socket (persist_time_duration d.config) d p

  establish-rule : (d : DaemonState) → P d → P (establish os target d).1
  unfolding establish
  establish-rule d p = start_in-rule _ _ (traced _ (make_room os d) (roomy d p))

  checked-rule :
      (existing : FilePath) (alive : Bool) (d : DaemonState)
      → P d
      → P (checked os target existing (alive, d)).1
  unfolding checked
  checked-rule existing true d p = reused existing d p
  checked-rule existing false d p = establish-rule _ (removed d p)

  ensure_from-rule :
      (found : Option FilePath) (d : DaemonState) → P d → P (ensure_from os target found d).1
  unfolding ensure_from check_alive
  ensure_from-rule none d p = establish-rule d p
  ensure_from-rule (some existing) d p = checked-rule existing _ _ (traced _ d p)

  pub ensure_connection-rule : (d : DaemonState) → P d → P (ensure_connection os target d).1
  unfolding ensure_connection
  ensure_connection-rule d p = ensure_from-rule (Manager.socket_for (key target) d.connections) d p
