-- ===== src/Metrics/Reload.antt =====
-- A restart of the daemon: the store is loaded from the file that its last write left.
use sshflow.Prelude.{
  Reordered, NodupKeys-Reordered, Option, map, ℕ, ◌≡◌, refl, sym, ◌∙◌, ap, Bool, true, false, [],
  ◌∷◌, ◌++◌, some, Text, Table, insert, NodupKeys, NodupKeys-insert, NodupKeys-modify, Fresh,
  text_eq, text_eq_sym, arith, append_assoc, append-nil,
}
use mathlib.Core.Option
use sshflow.Core.Protocol.{FilePath, StatsSnapshot}
use sshflow.Metrics.Ranking.{most_used-counts}
use sshflow.Metrics.{
  HostStat, MetricsStore, PersistedState, most_used, persisted, persist, fill, load,
  roll_day_if_needed, record_connection, record_failure, record_reconnect, host_connection,
  host_failure, upsert, snapshot,
}
use sshflow.Metrics.Days.{Op, connection, failure, reconnection, query, apply}

Fresh-middle :
    (j k : Text) (v : HostStat) (a rest : Table HostStat)
    → Fresh j (a ++ (k, v) ∷ rest)
    → text_eq k j ≡ false
Fresh-middle j k v [] rest f = f.0
Fresh-middle j k v (e ∷ a) rest f = Fresh-middle j k v a rest f.1

-- A new key goes to the end.
insert-append :
    (k : Text) (v : HostStat) (a rest : Table HostStat)
    → NodupKeys (a ++ (k, v) ∷ rest)
    → insert k v a ≡ a ++ (k, v) ∷ []
unfolding insert
insert-append k v [] rest n = refl
insert-append k v ((j, w) ∷ a) rest n =
    rw (text_eq_sym k j (Fresh-middle j k v a rest n.0))
      (ap (◌∷◌ (j, w)) (insert-append k v a rest n.1))

-- The loop that fills the map keeps the entries, when every key stands once.
fill-append : (a l : Table HostStat) → NodupKeys (a ++ l) → fill a l ≡ a ++ l
unfolding fill
fill-append a [] n = sym (append-nil a)
fill-append a ((k, v) ∷ l) n = rw (insert-append k v a l n) (
    fill-append (a ++ (k, v) ∷ []) l (rw (append_assoc a ((k, v) ∷ []) l) n)
    ∙ append_assoc a ((k, v) ∷ []) l)

-- The file holds the present state.
pub record IsSaved (s : MetricsStore) : Type 0 where
  pub file : s.file ≡ some (persisted s)
  pub hosts : NodupKeys s.per_host

NodupKeys-upsert :
    (k : Text) (f : HostStat → HostStat) (v : HostStat) (m : Table HostStat)
    → NodupKeys m
    → NodupKeys (upsert k f v m)
unfolding upsert
NodupKeys-upsert k f v m n = ground (arith, NodupKeys-modify k f m n, NodupKeys-insert k v m n)

roll-per_host : (now : ℕ) (s : MetricsStore) → (roll_day_if_needed now s).per_host ≡ s.per_host
unfolding roll_day_if_needed
roll-per_host now s = ground arith

persist-IsSaved : (s : MetricsStore) → NodupKeys s.per_host → IsSaved (persist true s)
unfolding persist
persist-IsSaved s n = record { file = refl; hosts = n }

host_connection-NodupKeys :
    (key label : Text) (reused : Bool) (latency : ℕ) (m : Table HostStat)
    → NodupKeys m
    → NodupKeys (host_connection key label reused latency m)
unfolding host_connection
host_connection-NodupKeys key label reused latency m n = NodupKeys-upsert key _ _ m n

host_failure-NodupKeys :
    (key label : Text) (m : Table HostStat) → NodupKeys m → NodupKeys (host_failure key label m)
unfolding host_failure
host_failure-NodupKeys key label m n = NodupKeys-upsert key _ _ m n

roll-NodupKeys :
    (now : ℕ) (s : MetricsStore)
    → NodupKeys s.per_host
    → NodupKeys (roll_day_if_needed now s).per_host
roll-NodupKeys now s n = rw (roll-per_host now s) n

-- The calls that write the file.
abbrev pub writes : Op → Bool
writes query = false
writes _ = true

apply-IsSaved :
    (op : Op) (now : ℕ) (s : MetricsStore)
    → writes op ≡ true
    → NodupKeys s.per_host
    → IsSaved (apply op now true s)
unfolding apply record_connection record_failure record_reconnect
apply-IsSaved (connection key label reused latency) now s h n =
    persist-IsSaved _
      (host_connection-NodupKeys key label reused latency _ (roll-NodupKeys now s n))
apply-IsSaved (failure key label) now s h n =
    persist-IsSaved _ (host_failure-NodupKeys key label _ (roll-NodupKeys now s n))
apply-IsSaved reconnection now s h n = persist-IsSaved _ (roll-NodupKeys now s n)
apply-IsSaved query now s h n = cc

-- What a snapshot shows without the names of the hosts.
abbrev pub Shows : StatsSnapshot → StatsSnapshot → Type 0
Shows a b =
    (record a { most_used_hosts = [] } ≡ record b { most_used_hosts = [] })
    × (map (λ e. e.1) a.most_used_hosts ≡ map (λ e. e.1) b.most_used_hosts)

abbrev with_hosts : Table HostStat → PersistedState → PersistedState
with_hosts hosts p = record p { per_host = hosts }

-- The hosts of the file come back in another order.
abbrev pub in_order : Table HostStat → Option PersistedState → Option PersistedState
in_order hosts file = Option.map (with_hosts hosts) file

module _ (home : FilePath) (later : ℕ) (written : Bool) (s : MetricsStore) (hosts : Table HostStat)
    (v : IsSaved s) (r : Reordered s.per_host hosts) where
  load-per_host : (load home (in_order hosts s.file) later written).per_host ≡ hosts
  unfolding load persist
  load-per_host =
      let filled = fill-append [] hosts (NodupKeys-Reordered r v.hosts) in
      rw v.file (ground (arith, filled))

  load-counters :
      record ((snapshot later (load home (in_order hosts s.file) later written)).0) {
        most_used_hosts = [];
      }
      ≡ record ((snapshot later s).0) { most_used_hosts = [] }
  unfolding load snapshot roll_day_if_needed persist
  load-counters = rw v.file (ground arith)

snapshot-most_used :
    (later : ℕ) (s : MetricsStore) → (snapshot later s).0.most_used_hosts ≡ most_used s.per_host
unfolding snapshot
snapshot-most_used later s = ap most_used (roll-per_host later s)

-- After a call that records something and whose write succeeds, a restart at any later time is not
-- seen in the statistics, in whatever order the hosts come back from the file: the reloaded store
-- has the same hosts and gives the snapshot that the running one gives, up to the names of hosts
-- that were used equally often.
pub snapshot-load :
    (op : Op) (home : FilePath) (now later : ℕ) (written : Bool) (s : MetricsStore)
    (hosts : Table HostStat)
    → writes op ≡ true
    → NodupKeys s.per_host
    → Reordered (apply op now true s).per_host hosts
    → let reloaded = load home (in_order hosts (apply op now true s).file) later written in
      (reloaded.per_host ≡ hosts)
      × Shows (snapshot later reloaded).0 (snapshot later (apply op now true s)).0
snapshot-load op home now later written s hosts h n r =
    let s' = apply op now true s in
    let v = apply-IsSaved op now s h n in
    let same = load-per_host home later written s' hosts v r in
    (
      same,
      (
        load-counters home later written s' hosts v r,
        ap (map (λ e. e.1)) (snapshot-most_used later _ ∙ ap most_used same)
            ∙ sym (most_used-counts r)
            ∙ ap (map (λ e. e.1)) (sym (snapshot-most_used later s')),
      ),
    )
