-- ===== src/Daemon/Health/Rule.antt =====
-- A property of the state that the steps of a round keep holds after the round, also where it ends
-- in a panic.
use sshflow.Prelude.{
  ℕ, Bool, true, false, List, [], ◌∷◌, Option, none, some, Text, Result, ok, err, get, if_both,
}
use sshflow.Config.{ConfigError, persist_time_duration}
use sshflow.System.{System, Trace}
use sshflow.Manager
use sshflow.Manager.{ManagedConnection, all_keys}
use sshflow.Daemon.State.{
  DaemonState, mark_healthy, touch, remove, record_reconnect, dispatch, check_alive,
}
use sshflow.Daemon.Ensure.{Start, joined, lost, start_blocking}
use sshflow.Daemon.Health.{
  Round, goes_on, panics, and_then, after_start, try_reconnect, unresponsive, judged, check_found,
  check_key, check_keys, check_all,
}

-- Of the state that a round has come to.
abbrev pub Holds : (DaemonState → Type 0) → Round → Type 0
Holds P (goes_on d) = P d
Holds P (panics d) = P d

Holds-and_then :
    (P : DaemonState → Type 0) (r : Round) (f : DaemonState → Round)
    → Holds P r
    → ((d : DaemonState) → P d → Holds P (f d))
    → Holds P (and_then r f)
Holds-and_then P (goes_on d) f q h = h d q
Holds-and_then P (panics d) f q h = q

module _ (os : System) (P : DaemonState → Type 0)
    (by_trace : (t : Trace) (d : DaemonState) → P d → P (record d { trace = t }))
    (by_health : (k : Text) (healthy : Bool) (d : DaemonState)
      → P d
      → P (mark_healthy os k healthy d))
    (by_touch : (k : Text) (d : DaemonState) → P d → P (touch os k d))
    (by_count : (d : DaemonState) → P d → P (record_reconnect os d))
    (by_removal : (k : Text) (d : DaemonState) → P d → P (remove os k d)) where
  pub after_start-rule :
      (k : Text) (c : ManagedConnection) (s : Start) (d : DaemonState)
      → P d
      → P (after_start os k c (s, d))
  unfolding after_start dispatch
  after_start-rule k c (joined (ok elapsed)) d v =
      by_trace _ _ (by_count _ (by_touch k (mark_healthy os k true d) (by_health k true d v)))
  after_start-rule k c (joined (err e)) d v = by_trace _ _ (by_removal k d v)
  after_start-rule k c (lost e) d v = by_trace _ _ (by_removal k d v)

  try_reconnect-rule :
      (k : Text) (c : ManagedConnection) (persist : Option (Result ConfigError ℕ)) (d : DaemonState)
      → P d
      → Holds P (try_reconnect os k c persist d)
  unfolding try_reconnect start_blocking
  try_reconnect-rule k c none d v = v
  try_reconnect-rule k c (some persist) d v = after_start-rule k c _ _ (by_trace _ d v)

  judged-rule :
      (k : Text) (c : ManagedConnection) (alive : Bool) (d : DaemonState)
      → P d
      → Holds P (judged os k c (alive, d))
  unfolding judged unresponsive dispatch
  judged-rule k c true d v = by_health k true d v
  judged-rule k c false d v =
      if_both (Holds P) d.config.reconnect
        (try_reconnect-rule k c (persist_time_duration d.config) d v)
        (by_trace _ _ (by_removal k d v))

  check_found-rule :
      (k : Text) (o : Option ManagedConnection) (d : DaemonState)
      → P d
      → Holds P (check_found os k o d)
  unfolding check_found check_alive
  check_found-rule k none d v = v
  check_found-rule k (some c) d v = judged-rule k c _ _ (by_trace _ d v)

  check_keys-rule : (keys : List Text) (d : DaemonState) → P d → Holds P (check_keys os keys d)
  unfolding check_keys check_key Manager.get_clone
  check_keys-rule [] d v = v
  check_keys-rule (k ∷ keys) d v =
      Holds-and_then P (check_key os k d) (check_keys os keys)
        (check_found-rule k (get k d.connections) d v) (check_keys-rule keys)

  pub check_all-rule : (d : DaemonState) → P d → Holds P (check_all os d)
  unfolding check_all
  check_all-rule d v = check_keys-rule (all_keys d.connections) d v
