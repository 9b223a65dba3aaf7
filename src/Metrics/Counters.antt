-- ===== src/Metrics/Counters.antt =====
-- The sums of a day stay within what its connections can add up to.
use sshflow.Prelude.{
  ℕ, ◌+◌, ◌-◌, ◌*◌, ◌^◌, ◌≤◌, ◌<◌, ◌≡◌, refl, ap, inl, inr, Bool, true, false, Text, add_u64, ◌==◌,
  arith, Bool-cases,
}
use sshflow.Metrics.{
  DailyTotals, MetricsStore, today_index, roll_day_if_needed, record_connection, record_failure,
  count_connection, next_baseline, persist,
}

-- `B` bounds the baseline and every latency.
pub record IsBounded (B : ℕ) (baseline : ℕ) (t : DailyTotals) : Type 0 where
  pub baseline_le : baseline ≤ B
  pub reused_le : t.reused ≤ t.connections
  pub sampled : t.latency_samples ≡ t.connections
  pub saved_le : t.time_saved_ms ≤ t.reused * B
  pub sum_le : t.latency_sum_ms ≤ t.connections * B

module _ (B baseline latency : ℕ) (t : DailyTotals) (fast : latency ≤ B) where
  saved_step :
      IsBounded B baseline t → add_u64 t.time_saved_ms (baseline - latency) ≤ (t.reused + 1) * B
  saved_step v = omega (arith, v.saved_le, v.baseline_le)

  sum_step : IsBounded B baseline t → add_u64 t.latency_sum_ms latency ≤ (t.connections + 1) * B
  sum_step v = omega (arith, v.sum_le)

  count_connection-IsBounded :
      (reused : Bool)
      → IsBounded B baseline t
      → t.connections + 1 < 2 ^ 64
      → IsBounded B
          (next_baseline reused latency baseline)
          (count_connection reused latency baseline t)
  unfolding count_connection next_baseline
  count_connection-IsBounded true v r =
      let one_reuse : add_u64 t.reused 1 ≡ t.reused + 1 = omega (arith, v.reused_le) in
      let one_more : add_u64 t.connections 1 ≡ t.connections + 1 = omega arith in
      record {
        baseline_le = v.baseline_le;
        reused_le = omega (arith, v.reused_le);
        sampled = ap (λ n. add_u64 n 1) v.sampled;
        saved_le = rw one_reuse (saved_step v);
        sum_le = rw one_more (sum_step v);
      }
  count_connection-IsBounded false v r =
      let one_more : add_u64 t.connections 1 ≡ t.connections + 1 = omega arith in
      record {
        baseline_le = omega (arith, v.baseline_le);
        reused_le = omega (arith, v.reused_le);
        sampled = ap (λ n. add_u64 n 1) v.sampled;
        saved_le = v.saved_le;
        sum_le = rw one_more (sum_step v);
      }

-- The bound on a store.
abbrev pub StoreIsBounded : ℕ → MetricsStore → Type 0
StoreIsBounded B s = IsBounded B s.baseline_handshake_ms s.totals

roll-IsBounded :
    (B now : ℕ) (s : MetricsStore)
    → StoreIsBounded B s
    → StoreIsBounded B (roll_day_if_needed now s)
unfolding roll_day_if_needed
roll-IsBounded B now s v = elim (Bool-cases (s.day_index == today_index now)) [
  | inl e ↦ rw (e, roll_day_if_needed) v
  | inr e ↦
      rw (e, roll_day_if_needed)
        (record {
          baseline_le = v.baseline_le;
          reused_le = omega arith;
          sampled = refl;
          saved_le = omega arith;
          sum_le = omega arith;
        })
]

persist-IsBounded :
    (B : ℕ) (written : Bool) (s : MetricsStore)
    → StoreIsBounded B s
    → StoreIsBounded B (persist written s)
unfolding persist
persist-IsBounded B true s v = v
persist-IsBounded B false s v = v

roll-connections-le :
    (now : ℕ) (s : MetricsStore)
    → (roll_day_if_needed now s).totals.connections ≤ s.totals.connections
unfolding roll_day_if_needed
roll-connections-le now s = ground arith

-- Recording a connection keeps the sums of the day in proportion, whether or not a day begins:
-- no more reuses than connections, one latency for each connection, a total latency of at most B
-- for each, and a total time saved of at most B for each reuse, as long as B bounds the latencies
-- and the baseline, and the counter of connections does not overflow.
pub record_connection-IsBounded :
    (B : ℕ) (key label : Text) (reused : Bool) (latency now : ℕ) (written : Bool) (s : MetricsStore)
    → latency ≤ B
    → s.totals.connections + 1 < 2 ^ 64
    → StoreIsBounded B s
    → StoreIsBounded B (record_connection key label reused latency now written s)
unfolding record_connection
record_connection-IsBounded B key label reused latency now written s fast room v =
    let r = roll_day_if_needed now s in
    persist-IsBounded B written _ (
      count_connection-IsBounded B r.baseline_handshake_ms latency r.totals fast reused
        (roll-IsBounded B now s v) (omega (arith, roll-connections-le now s)))

-- A failure leaves that proportion alone.
record_failure-IsBounded :
    (B : ℕ) (key label : Text) (now : ℕ) (written : Bool) (s : MetricsStore)
    → StoreIsBounded B s
    → StoreIsBounded B (record_failure key label now written s)
unfolding record_failure
record_failure-IsBounded B key label now written s v =
    let r = roll-IsBounded B now s v in
    persist-IsBounded B written _ (record {
      baseline_le = r.baseline_le;
      reused_le = r.reused_le;
      sampled = r.sampled;
      saved_le = r.saved_le;
      sum_le = r.sum_le;
    })
