-- ===== src/Daemon/Health/Checked.antt =====
-- What the health check does to the table of connections for one key.

use sshflow.Prelude.{
  ℕ, ◌≡◌, refl, subst, if◌then◌else◌, inl, inr, Bool, true, false, Option, none, some, Text, Result,
  ok, err, get, get-remove, get-modify, text_eq, text_eq_refl, if_both, arith, Bool-cases,
  Option-cases,
}
use sshflow.Config.{ConfigError, persist_time_duration}
use sshflow.System.{System}
use sshflow.Manager
use sshflow.Manager.{ManagedConnection, ConnectionManager, all_keys}
use sshflow.Daemon.State.{
  DaemonState, mark_healthy, touch, remove, record_reconnect, dispatch, check_alive,
}
use sshflow.Daemon.Ensure.{Start, joined, lost, start_of, start_blocking}
use sshflow.Ssh.{StartMasterError}
use sshflow.Ssh.Answers.{IsAnswered, is_master_alive-IsAnswered, start_master-IsAnswered}
use mathlib.Core.Option.{some-injective}
use sshflow.Daemon.Health.{
  Round, goes_on, panics, after_start, try_reconnect, unresponsive, judged, check_found, check_key,
}

-- A property of the table when the round goes on.
abbrev pub Went : (ConnectionManager → Type 0) → Round → Type 0
Went Q (goes_on d) = Q d.connections
Went Q (panics d) = Unit

-- One key is checked: its connection is healthy and was answered for, or it is gone; the others are as
-- they were, and no connection appears.
pub record IsChecked (os : System) (k : Text) (m m' : ConnectionManager) : Type 0 where
  pub settled :
      (c : ManagedConnection)
      → get k m' ≡ some c
      → (c.healthy ≡ true) × IsAnswered os c.control_socket c.target
  pub others : (j : Text) → text_eq k j ≡ false → get j m' ≡ get j m
  pub none_new : get k m ≡ none → get k m' ≡ none

abbrev cured : ManagedConnection → ManagedConnection
cured c = record c { healthy = true }

abbrev touched : ℕ → ManagedConnection → ManagedConnection
touched now c = record c { last_used = now }

module _ (os : System) (k : Text) where
  -- The connection is marked, and a check or a start has answered for it.
  healthy-IsChecked :
      (c : ManagedConnection) (m : ConnectionManager)
      → get k m ≡ some c
      → IsAnswered os c.control_socket c.target
      → IsChecked os k m (Manager.mark_healthy k true m)
  unfolding Manager.mark_healthy
  healthy-IsChecked c m found answered = record {
    settled = λ c' e.
        let same : cured c ≡ c' =
          some-injective _ _ (ground (arith, get-modify k k cured m, text_eq_refl k)) in
        subst (λ x. (x.healthy ≡ true) × IsAnswered os x.control_socket x.target) same
          (refl, answered);
    others = λ j h. ground (arith, get-modify k j cured m);
    none_new = λ e. ground (arith, get-modify k k cured m, text_eq_refl k);
  }

  touch-IsChecked :
      (now : ℕ) (m m' : ConnectionManager)
      → IsChecked os k m m'
      → IsChecked os k m (Manager.touch k now m')
  unfolding Manager.touch
  touch-IsChecked now m m' v = record {
    settled = λ c e. elim (Option-cases (get k m')) [
      | inl gone ↦ absurd (ground (arith, get-modify k k (touched now) m', text_eq_refl k))
      | inr (old, found) ↦
          let same : touched now old ≡ c =
            some-injective _ _ (ground (arith, get-modify k k (touched now) m', text_eq_refl k)) in
          subst (λ x. (x.healthy ≡ true) × IsAnswered os x.control_socket x.target) same
            (v.settled old found)
    ];
    others = λ j h. ground (arith, get-modify k j (touched now) m', v.others j h);
    none_new = λ e. ground (arith, get-modify k k (touched now) m', text_eq_refl k, v.none_new e);
  }

  remove-IsChecked : (m : ConnectionManager) → IsChecked os k m (Manager.remove_connection k m).1
  unfolding Manager.remove_connection
  remove-IsChecked m = record {
    settled = λ c e. absurd (ground (arith, get-remove k k m, text_eq_refl k));
    others = λ j h. ground (arith, get-remove k j m);
    none_new = λ e. ground (arith, get-remove k k m, text_eq_refl k);
  }

  touch_state-IsChecked :
      (m : ConnectionManager) (d : DaemonState)
      → IsChecked os k m d.connections
      → IsChecked os k m (touch os k d).connections
  unfolding touch
  touch_state-IsChecked m d v = elim (Bool-cases (Manager.contains k d.connections)) [
    | inl e ↦ rw (e, touch) (touch-IsChecked (os.now d.trace) m d.connections v)
    | inr e ↦ rw (e, touch) v
  ]

  -- The outcome of a start that went well came from the command.
  start_of-ok :
      (e : Option Text) (r : Result StartMasterError ℕ) (elapsed : ℕ)
      → start_of e r ≡ joined (ok elapsed)
      → r ≡ ok elapsed
  unfolding start_of
  start_of-ok none r elapsed h = cc
  start_of-ok (some e) r elapsed h = cc

  after_start-IsChecked :
      (c : ManagedConnection) (s : Start) (d : DaemonState)
      → get k d.connections ≡ some c
      → ((elapsed : ℕ) → s ≡ joined (ok elapsed) → IsAnswered os c.control_socket c.target)
      → IsChecked os k d.connections (after_start os k c (s, d)).connections
  unfolding after_start dispatch record_reconnect mark_healthy remove
  after_start-IsChecked c (joined (ok elapsed)) d found answered =
      touch_state-IsChecked d.connections (mark_healthy os k true d)
        (healthy-IsChecked c d.connections found (answered elapsed refl))
  after_start-IsChecked c (joined (err e)) d found answered = remove-IsChecked d.connections
  after_start-IsChecked c (lost e) d found answered = remove-IsChecked d.connections

  module _ (c : ManagedConnection) (d : DaemonState) (found : get k d.connections ≡ some c) where
    try_reconnect-IsChecked :
        (persist : Option (Result ConfigError ℕ))
        → Went (IsChecked os k d.connections) (try_reconnect os k c persist d)
    unfolding try_reconnect start_blocking
    try_reconnect-IsChecked none = tt
    try_reconnect-IsChecked (some persist) =
        after_start-IsChecked c _ (record d { trace = _ }) found
          (λ elapsed e.
            start_master-IsAnswered os c.control_socket c.target _ _ elapsed d.trace
              (start_of-ok _ _ elapsed e))

    unresponsive-IsChecked : Went (IsChecked os k d.connections) (unresponsive os k c d)
    unfolding unresponsive remove dispatch
    unresponsive-IsChecked =
        if_both (Went (IsChecked os k d.connections)) d.config.reconnect
          (try_reconnect-IsChecked (persist_time_duration d.config))
          (remove-IsChecked d.connections)

    judged-IsChecked :
        (alive : Bool)
        → (alive ≡ true → IsAnswered os c.control_socket c.target)
        → Went (IsChecked os k d.connections) (judged os k c (alive, d))
    unfolding judged mark_healthy
    judged-IsChecked true answered = healthy-IsChecked c d.connections found (answered refl)
    judged-IsChecked false answered = unresponsive-IsChecked

  if_true : (b c : Bool) → (if b then false else c) ≡ true → c ≡ true
  if_true b c h = ground arith

  check_found-IsChecked :
      (o : Option ManagedConnection) (d : DaemonState)
      → get k d.connections ≡ o
      → Went (IsChecked os k d.connections) (check_found os k o d)
  unfolding check_found check_alive
  check_found-IsChecked none d e = record {
    settled = λ c found. absurd (ground arith);
    others = λ j h. refl;
    none_new = λ h. h;
  }
  check_found-IsChecked (some c) d e =
      judged-IsChecked c (record d { trace = _ }) e _
        (λ h. is_master_alive-IsAnswered os c.control_socket c.target d.trace (if_true _ _ h))

  pub check_key-IsChecked :
      (d : DaemonState) → Went (IsChecked os k d.connections) (check_key os k d)
  unfolding check_key Manager.get_clone
  check_key-IsChecked d = check_found-IsChecked (get k d.connections) d refl
