-- ===== src/Metrics/Days.antt =====
-- What the counters of a day count: the calls on that day since the last call on another day.
use sshflow.Prelude.{
  ℕ, ◌≡◌, refl, sym, ◌∙◌, ap, inl, inr, Bool, true, false, List, [], ◌∷◌, Text, add_u64, ◌==◌,
  if◌then◌else◌, arith, Bool-cases, ==_iff, subst,
}
use sshflow.Metrics.{
  DailyTotals, MetricsStore, no_totals, today_index, roll_day_if_needed, record_connection,
  record_failure, record_reconnect, snapshot, persist, count_connection,
}

-- A call that changes or reads the counters, at a time; `written` as for the method.
pub data Op : Type 0 where
  connection : Text → Text → Bool → ℕ → Op
  failure : Text → Text → Op
  reconnection : Op
  query : Op

pub record Call : Type 0 where
  pub now : ℕ
  pub written : Bool
  pub op : Op

unfoldable pub apply : Op → ℕ → Bool → MetricsStore → MetricsStore
apply (connection key label reused latency) now written =
    record_connection key label reused latency now written
apply (failure key label) now written = record_failure key label now written
apply reconnection now written = record_reconnect now written
apply query now written = λ s. (snapshot now s).1

-- The calls of a history, newest first.
pub replay : List Call → MetricsStore → MetricsStore
unfolding apply
replay [] s = s
replay (c ∷ older) s = apply c.op c.now c.written (replay older s)

abbrev pub is_connection : Op → Bool
is_connection (connection key label reused latency) = true
is_connection _ = false

abbrev pub is_reuse : Op → Bool
is_reuse (connection key label reused latency) = reused
is_reuse _ = false

abbrev pub is_failure : Op → Bool
is_failure (failure key label) = true
is_failure _ = false

abbrev pub is_reconnection : Op → Bool
is_reconnection reconnection = true
is_reconnection _ = false

-- The number of calls of one kind on a day, in `u64`, back to the newest call on another day; where
-- there is none, the counter `start` at the beginning, if that was of the day too.
unfoldable pub tally : (Op → Bool) → ℕ → ℕ → ℕ → List Call → ℕ
tally counts day start_day start [] = if start_day == day then start else 0
tally counts day start_day start (c ∷ older) =
    let before = tally counts day start_day start older in
    if today_index c.now == day then (if counts c.op then add_u64 before 1 else before) else 0

-- The totals as they would count for a day.
abbrev as_of : ℕ → MetricsStore → DailyTotals
as_of day s = if s.day_index == day then s.totals else no_totals

abbrev bump : Bool → ℕ → ℕ
bump b n = if b then add_u64 n 1 else n

-- What a call does to one counter: `n` is the counter before, `m` after.
abbrev Counts : Op → (Op → Bool) → ℕ → ℕ → Type 0
Counts op counts n m = m ≡ bump (counts op) n

record CountsAll (op : Op) (t u : DailyTotals) : Type 0 where
  connections : Counts op is_connection t.connections u.connections
  reused : Counts op is_reuse t.reused u.reused
  failures : Counts op is_failure t.failures u.failures
  reconnects : Counts op is_reconnection t.reconnects u.reconnects

module _ (now : ℕ) (s : MetricsStore) where
  roll-day : (roll_day_if_needed now s).day_index ≡ today_index now
  unfolding roll_day_if_needed
  roll-day = elim (Bool-cases (s.day_index == today_index now)) [
    | inl e ↦ rw (e, roll_day_if_needed) ((==_iff _ _).0 e)
    | inr e ↦ rw (e, roll_day_if_needed)
  ]

  roll-totals : (roll_day_if_needed now s).totals ≡ as_of (today_index now) s
  unfolding roll_day_if_needed
  roll-totals = elim (Bool-cases (s.day_index == today_index now)) [
    | inl e ↦ rw (e, roll_day_if_needed)
    | inr e ↦ rw (e, roll_day_if_needed)
  ]

module _ (written : Bool) (s : MetricsStore) where
  persist-day : (persist written s).day_index ≡ s.day_index
  unfolding persist
  persist-day = ground arith

  persist-totals : (persist written s).totals ≡ s.totals
  unfolding persist
  persist-totals = ground arith

module _ (now : ℕ) (written : Bool) (s : MetricsStore) where
  apply-day : (op : Op) → (apply op now written s).day_index ≡ today_index now
  unfolding apply record_connection record_failure record_reconnect snapshot
  apply-day (connection key label reused latency) = persist-day written _ ∙ roll-day now s
  apply-day (failure key label) = persist-day written _ ∙ roll-day now s
  apply-day reconnection = persist-day written _ ∙ roll-day now s
  apply-day query = roll-day now s

  apply-rolled :
      (op : Op) → CountsAll op (roll_day_if_needed now s).totals (apply op now written s).totals
  unfolding apply record_connection record_failure record_reconnect snapshot count_connection
  apply-rolled (connection key label true latency) =
      rw (persist-totals written)
        (record { connections = refl; reused = refl; failures = refl; reconnects = refl })
  apply-rolled (connection key label false latency) =
      rw (persist-totals written)
        (record { connections = refl; reused = refl; failures = refl; reconnects = refl })
  apply-rolled (failure key label) =
      rw (persist-totals written)
        (record { connections = refl; reused = refl; failures = refl; reconnects = refl })
  apply-rolled reconnection =
      rw (persist-totals written)
        (record { connections = refl; reused = refl; failures = refl; reconnects = refl })
  apply-rolled query = record {
    connections = refl;
    reused = refl;
    failures = refl;
    reconnects = refl;
  }

  apply-CountsAll :
      (op : Op) → CountsAll op (as_of (today_index now) s) (apply op now written s).totals
  apply-CountsAll op =
      subst (λ t. CountsAll op t (apply op now written s).totals) (roll-totals now s)
        (apply-rolled op)

module _ (counts : Op → Bool) (field : DailyTotals → ℕ) (zeroed : field no_totals ≡ 0)
    (steps : (op : Op) (t u : DailyTotals)
      → CountsAll op t u
      → Counts op counts (field t) (field u)) where
  as_of-replay :
      (day : ℕ) (calls : List Call) (s : MetricsStore)
      → field (as_of day (replay calls s)) ≡ tally counts day s.day_index (field s.totals) calls
  unfolding replay tally
  as_of-replay day [] s = elim (Bool-cases (s.day_index == day)) [
    | inl e ↦ rw e
    | inr e ↦ rw e zeroed
  ]
  as_of-replay day (c ∷ older) s =
      let before = replay older s in
      let after = apply c.op c.now c.written before in
      elim (Bool-cases (today_index c.now == day)) [
        | inl e ↦
            rw (apply-day c.now c.written before c.op, e)
              (steps c.op (as_of (today_index c.now) before) after.totals
                  (apply-CountsAll c.now c.written before c.op)
                ∙ ap (bump (counts c.op)) (
                    subst
                      (λ d.
                        field (as_of d before)
                        ≡ tally counts day s.day_index (field s.totals) older)
                      (sym ((==_iff _ _).0 e)) (as_of-replay day older s)))
        | inr e ↦ rw (apply-day c.now c.written before c.op, e) zeroed
      ]

-- The four counters of a snapshot after any history of calls are the numbers of connections,
-- reuses, failures and reconnections on the snapshot's day, modulo 2^64: each is counted back to
-- the newest call on another day, and to the loaded counter if there is no such call.
pub snapshot-tally :
    (now : ℕ) (calls : List Call) (s : MetricsStore)
    → let shot = (snapshot now (replay calls s)).0 in
      let day = today_index now in
      (shot.connections_today ≡ tally is_connection day s.day_index s.totals.connections calls)
      × (shot.reused_today ≡ tally is_reuse day s.day_index s.totals.reused calls)
      × (shot.failures_today ≡ tally is_failure day s.day_index s.totals.failures calls)
      × (shot.reconnects_today ≡ tally is_reconnection day s.day_index s.totals.reconnects calls)
unfolding snapshot
snapshot-tally now calls s =
    let rolled = roll-totals now (replay calls s) in
    (
      rw rolled (
          as_of-replay is_connection (λ t. t.connections) refl (λ op t u c. c.connections)
            (today_index now) calls s),
      rw rolled (
          as_of-replay is_reuse (λ t. t.reused) refl (λ op t u c. c.reused) (today_index now) calls
            s),
      rw rolled (
          as_of-replay is_failure (λ t. t.failures) refl (λ op t u c. c.failures) (today_index now)
            calls s),
      rw rolled (
          as_of-replay is_reconnection (λ t. t.reconnects) refl (λ op t u c. c.reconnects)
            (today_index now) calls s),
    )
