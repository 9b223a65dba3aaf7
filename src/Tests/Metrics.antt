-- ===== src/Tests/Metrics.antt =====
-- The counters of crates/metrics/src/lib.rs.
use mathlib.Core.List.{Perm, Permᴰ}
use sshflow.Prelude.{
  ℕ, ◌≡◌, refl, true, false, List, [], ◌∷◌, ◌++◌, map, Text, codes, Table, Reordered, get, insert,
  text_eq, length, arith,
}
use sshflow.Metrics.{
  MetricsStore, persist, roll_day_if_needed, HostStat, load, record_connection, most_used, snapshot,
  today_index,
}
use sshflow.Metrics.Days.{
  Op, Call, connection, failure, query, apply, replay, tally, is_connection, is_reuse, is_failure,
  is_reconnection, snapshot-tally,
}
use sshflow.Metrics.Counters.{StoreIsBounded, record_connection-IsBounded}
use sshflow.Metrics.Reload.{Shows, in_order, snapshot-load}
use sshflow.Metrics.Ranking.{IsRanked, Above, most_used_top}
use sshflow.Tests.System.{metrics}

abbrev fresh : Op
fresh = connection (codes "@h:") (codes "h") false 90

-- A failure on the first day, a connection and a look on the second; the newest first.
abbrev history : List Call
history =
    record { now = 90000; written = true; op = query }
    ∷ record { now = 86400; written = true; op = fresh }
    ∷ record { now = 10; written = true; op = failure (codes "@h:") (codes "h") }
    ∷ []

one_connection_that_day : tally is_connection 1 0 0 history ≡ 1
unfolding tally today_index
one_connection_that_day = refl

no_failure_that_day : tally is_failure 1 0 0 history ≡ 0
unfolding tally today_index
no_failure_that_day = refl

snapshot-tally_example :
    let shot = (snapshot 90001 (replay history metrics)).0 in
    let day = today_index 90001 in
    (shot.connections_today ≡ tally is_connection day 0 0 history)
    × (shot.reused_today ≡ tally is_reuse day 0 0 history)
    × (shot.failures_today ≡ tally is_failure day 0 0 history)
    × (shot.reconnects_today ≡ tally is_reconnection day 0 0 history)
snapshot-tally_example = snapshot-tally 90001 history metrics

record_connection-IsBounded_example :
    StoreIsBounded 500 (record_connection (codes "@h:") (codes "h") true 40 10 true metrics)
record_connection-IsBounded_example =
    record_connection-IsBounded 500 (codes "@h:") (codes "h") true 40 10 true metrics (omega arith)
      (omega arith)
      (record {
        baseline_le = omega arith;
        reused_le = omega arith;
        sampled = refl;
        saved_le = omega arith;
        sum_le = omega arith;
      })

abbrev stat : Text → ℕ → HostStat
stat label n = record {
  label = label;
  connections = n;
  reused = 0;
  failures = 0;
  last_latency_ms = 3;
}

abbrev with_host : MetricsStore
with_host = record metrics { per_host = (codes "@g:", stat (codes "g") 4) ∷ [] }

-- The hosts after the connection, the other way around.
abbrev swapped : Table HostStat
swapped =
    (codes "@h:", record (stat (codes "h") 1) { last_latency_ms = 90 })
    ∷ (codes "@g:", stat (codes "g") 4)
    ∷ []

swapped_hosts : Reordered (apply fresh 10 true with_host).per_host swapped
unfolding apply record_connection persist roll_day_if_needed today_index get insert text_eq
swapped_hosts = Permᴰ.swap refl refl

snapshot-load_example :
    let reloaded =
      load
        (codes "/home/u/.sshflow")
        (in_order swapped (apply fresh 10 true with_host).file)
        20
        true in
    (reloaded.per_host ≡ swapped)
    × Shows (snapshot 20 reloaded).0 (snapshot 20 (apply fresh 10 true with_host)).0
snapshot-load_example =
    snapshot-load fresh (codes "/home/u/.sshflow") 10 20 true with_host swapped refl (tt, tt)
      swapped_hosts

abbrev six : Table HostStat
six =
    (codes "a", stat (codes "a") 1)
    ∷ (codes "b", stat (codes "b") 6)
    ∷ (codes "c", stat (codes "c") 2)
    ∷ (codes "d", stat (codes "d") 5)
    ∷ (codes "e", stat (codes "e") 3)
    ∷ (codes "f", stat (codes "f") 4)
    ∷ []

most_used_of_six :
    most_used six
    ≡ (codes "b", 6) ∷ (codes "d", 5) ∷ (codes "f", 4) ∷ (codes "e", 3) ∷ (codes "c", 2) ∷ []
unfolding most_used
most_used_of_six = refl

most_used_top_example :
    (length (most_used six) ≡ 5)
    × IsRanked (most_used six)
    × ((rest : List (Text × ℕ)) × Perm
          (most_used six ++ rest)
          (map (λ e. (e.1.label, e.1.connections)) six)
        × Above (most_used six) rest)
most_used_top_example = most_used_top six
