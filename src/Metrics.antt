-- ===== src/Metrics.antt =====
-- `MetricsStore` of crates/metrics/src/lib.rs. `now` is the clock that a method reads, `written`
-- tells whether its write of metrics.json succeeds, and `file` is what that file holds, as
-- `serde_json` reads it. The sums of `u64` wrap, as they do in a release build.
pub mod Days
pub mod Counters
pub mod Reload
pub mod Ranking
pub mod Duration
use sshflow.Prelude.{
  ℕ, suc, ◌+◌, ◌-◌, ◌/◌, ◌%◌, Bool, true, false, List, [], ◌∷◌, map, Option, none, some, Text,
  codes, Table, get, insert, modify, is_some, add_u64, leb, ltb, ◌==◌, if◌then◌else◌, unwrap_or,
  take,
}
use sshflow.Core.Events.{
  Event, connection_opened, connection_closed, connection_reused, host_added, host_removed,
  authentication_failed, reconnect,
}
use sshflow.Core.Protocol.{FilePath, StatsSnapshot, Average, join}

pub record DailyTotals : Type 0 where
  pub connections : ℕ
  pub reused : ℕ
  pub failures : ℕ
  pub reconnects : ℕ
  pub time_saved_ms : ℕ
  pub latency_sum_ms : ℕ
  pub latency_samples : ℕ
  pub bytes_transferred : ℕ

abbrev pub no_totals : DailyTotals
no_totals = record {
  connections = 0;
  reused = 0;
  failures = 0;
  reconnects = 0;
  time_saved_ms = 0;
  latency_sum_ms = 0;
  latency_samples = 0;
  bytes_transferred = 0;
}

pub record HostStat : Type 0 where
  pub label : Text
  pub connections : ℕ
  pub reused : ℕ
  pub failures : ℕ
  pub last_latency_ms : ℕ

pub record PersistedState : Type 0 where
  pub day_index : ℕ
  pub baseline_handshake_ms : ℕ
  pub totals : DailyTotals
  pub per_host : Table HostStat

abbrev pub no_state : PersistedState
no_state = record { day_index = 0; baseline_handshake_ms = 0; totals = no_totals; per_host = [] }

pub record MetricsStore : Type 0 where
  pub path : FilePath
  pub day_index : ℕ
  pub baseline_handshake_ms : ℕ
  pub totals : DailyTotals
  pub per_host : Table HostStat
  pub file : Option PersistedState

unfoldable pub today_index : ℕ → ℕ
today_index now = now / 86400

-- The state that is written.
abbrev pub persisted : MetricsStore → PersistedState
persisted s = record {
  day_index = s.day_index;
  baseline_handshake_ms = s.baseline_handshake_ms;
  totals = s.totals;
  per_host = s.per_host;
}

unfoldable pub persist : Bool → MetricsStore → MetricsStore
persist written s = if written then record s { file = some (persisted s) } else s

-- The loop that fills the map of hosts.
fill : Table HostStat → Table HostStat → Table HostStat
fill m [] = m
fill m ((k, v) ∷ rest) = fill (insert k v m) rest

unfoldable pub load : FilePath → Option PersistedState → ℕ → Bool → MetricsStore
unfolding persist today_index fill
load home file now written =
    let loaded = unwrap_or file no_state in
    let same = loaded.day_index == today_index now in
    persist written (record {
      path = join home (codes "metrics.json");
      day_index = if same then loaded.day_index else today_index now;
      baseline_handshake_ms =
          if ltb loaded.baseline_handshake_ms 1 then 1 else loaded.baseline_handshake_ms;
      totals = if same then loaded.totals else no_totals;
      per_host = fill [] loaded.per_host;
      file = file;
    })

unfoldable pub roll_day_if_needed : ℕ → MetricsStore → MetricsStore
roll_day_if_needed now s =
    if s.day_index == today_index now
    then s
    else record s { day_index = today_index now; totals = no_totals }

-- The totals after one more connection.
unfoldable pub count_connection : Bool → ℕ → ℕ → DailyTotals → DailyTotals
count_connection reused latency baseline t = record t {
  connections = add_u64 t.connections 1;
  latency_sum_ms = add_u64 t.latency_sum_ms latency;
  latency_samples = add_u64 t.latency_samples 1;
  reused = if reused then add_u64 t.reused 1 else t.reused;
  time_saved_ms = if reused then add_u64 t.time_saved_ms (baseline - latency) else t.time_saved_ms;
}

unfoldable pub next_baseline : Bool → ℕ → ℕ → ℕ
next_baseline reused latency baseline = if reused then baseline else add_u64 baseline latency / 2

-- `entry(key).and_modify(f).or_insert(v)`.
upsert : Text → (HostStat → HostStat) → HostStat → Table HostStat → Table HostStat
upsert key f v m = if is_some (get key m) then modify key f m else insert key v m

host_connection : Text → Text → Bool → ℕ → Table HostStat → Table HostStat
unfolding upsert
host_connection key label reused latency =
    upsert key
      (λ s. record s {
        connections = add_u64 s.connections 1;
        reused = if reused then add_u64 s.reused 1 else s.reused;
        last_latency_ms = latency;
      })
      (record {
        label = label;
        connections = 1;
        reused = if reused then 1 else 0;
        failures = 0;
        last_latency_ms = latency;
      })

host_failure : Text → Text → Table HostStat → Table HostStat
unfolding upsert
host_failure key label =
    upsert key (λ s. record s { failures = add_u64 s.failures 1 })
      (record { label = label; connections = 0; reused = 0; failures = 1; last_latency_ms = 0 })

unfoldable pub record_connection : Text → Text → Bool → ℕ → ℕ → Bool → MetricsStore → MetricsStore
unfolding host_connection
record_connection key label reused latency now written store =
    let s = roll_day_if_needed now store in
    persist written (record s {
      totals = count_connection reused latency s.baseline_handshake_ms s.totals;
      baseline_handshake_ms = next_baseline reused latency s.baseline_handshake_ms;
      per_host = host_connection key label reused latency s.per_host;
    })

unfoldable pub record_failure : Text → Text → ℕ → Bool → MetricsStore → MetricsStore
unfolding host_failure
record_failure key label now written store =
    let s = roll_day_if_needed now store in
    persist written (record s {
      totals = record (s.totals) { failures = add_u64 s.totals.failures 1 };
      per_host = host_failure key label s.per_host;
    })

unfoldable pub record_reconnect : ℕ → Bool → MetricsStore → MetricsStore
record_reconnect now written store =
    let s = roll_day_if_needed now store in
    persist written
      (record s { totals = record (s.totals) { reconnects = add_u64 s.totals.reconnects 1 } })

unfoldable pub add_bytes : ℕ → MetricsStore → MetricsStore
add_bytes n s = record s {
  totals = record (s.totals) { bytes_transferred = add_u64 s.totals.bytes_transferred n };
}

unfoldable pub record_event : Event → ℕ → Bool → MetricsStore → MetricsStore
record_event (authentication_failed host reason) now written s =
    record_failure host host now written s
record_event (reconnect key host attempt) now written s = record_reconnect now written s
record_event (connection_opened key host) now written s = s
record_event (connection_closed key host) now written s = s
record_event (connection_reused key host) now written s = s
record_event (host_added host) now written s = s
record_event (host_removed host) now written s = s

-- The stable sort by falling counts.
insert_ranked : Text × ℕ → List (Text × ℕ) → List (Text × ℕ)
insert_ranked a [] = a ∷ []
insert_ranked a (b ∷ l) = if leb b.1 a.1 then a ∷ b ∷ l else b ∷ insert_ranked a l

rank : List (Text × ℕ) → List (Text × ℕ)
unfolding insert_ranked
rank [] = []
rank (a ∷ l) = insert_ranked a (rank l)

unfoldable pub most_used : Table HostStat → List (Text × ℕ)
unfolding rank
most_used m = take 5 (rank (map (λ e. (e.1.label, e.1.connections)) m))

average : DailyTotals → Average
average t =
    if ltb 0 t.latency_samples
    then record { sum = t.latency_sum_ms; samples = t.latency_samples }
    else record { sum = 0; samples = 1 }

unfoldable pub snapshot : ℕ → MetricsStore → StatsSnapshot × MetricsStore
unfolding average
snapshot now store =
    let s = roll_day_if_needed now store in
    (
      record {
        connections_today = s.totals.connections;
        reused_today = s.totals.reused;
        failures_today = s.totals.failures;
        reconnects_today = s.totals.reconnects;
        time_saved_ms = s.totals.time_saved_ms;
        average_latency_ms = average s.totals;
        bytes_transferred = s.totals.bytes_transferred;
        most_used_hosts = most_used s.per_host;
      },
      s,
    )
