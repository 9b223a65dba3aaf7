-- ===== src/Manager.antt =====
-- `ConnectionManager` of crates/daemon/src/connection_manager.rs. The concurrent map is the table of
-- its entries in the order of an iteration; a method is one atomic step. `now` is the clock that
-- the method reads.
pub mod Entries
pub mod Eviction
use mathlib.Core.Option
use sshflow.Prelude.{
  ℕ, suc, Bool, true, false, List, [], ◌∷◌, map, Option, none, some, Text, Table, get, insert,
  remove, modify, length, is_empty, is_some, add_u64, ltb, if◌then◌else◌,
}
use sshflow.Core.HostTarget.{HostTarget}
use sshflow.Core.Protocol.{FilePath, ConnectionInfo}

pub record ManagedConnection : Type 0 where
  pub target : HostTarget
  pub control_socket : FilePath
  pub pid : Option ℕ
  pub created_at : ℕ
  pub last_used : ℕ
  pub reused_count : ℕ
  pub healthy : Bool
  pub last_latency_ms : Option ℕ

unfoldable pub to_info : Text → ManagedConnection → ConnectionInfo
to_info key c = record {
  key = key;
  target = c.target;
  control_socket = c.control_socket;
  pid = c.pid;
  created_at_unix = c.created_at;
  last_used_unix = c.last_used;
  reused_count = c.reused_count;
  healthy = c.healthy;
  last_latency_ms = c.last_latency_ms;
}

abbrev pub ConnectionManager : Type 0
ConnectionManager = Table ManagedConnection

abbrev pub empty_manager : ConnectionManager
empty_manager = []

unfoldable pub len : ConnectionManager → ℕ
len m = length m

unfoldable pub is_empty_manager : ConnectionManager → Bool
is_empty_manager m = is_empty m

unfoldable pub socket_for : Text → ConnectionManager → Option FilePath
socket_for key m = Option.map (λ c. c.control_socket) (get key m)

unfoldable pub contains : Text → ConnectionManager → Bool
contains key m = is_some (get key m)

-- A connection as `insert_new` makes it.
abbrev pub new_connection : HostTarget → FilePath → Option ℕ → Option ℕ → ℕ → ManagedConnection
new_connection target socket pid latency now = record {
  target = target;
  control_socket = socket;
  pid = pid;
  created_at = now;
  last_used = now;
  reused_count = 0;
  healthy = true;
  last_latency_ms = latency;
}

unfoldable pub insert_new :
    Text → HostTarget → FilePath → Option ℕ → Option ℕ → ℕ → ConnectionManager → ConnectionManager
insert_new key target socket pid latency now m =
    insert key (new_connection target socket pid latency now) m

abbrev pub reused : ℕ → ℕ → ManagedConnection → ManagedConnection
reused latency now c = record c {
  reused_count = add_u64 c.reused_count 1;
  last_used = now;
  last_latency_ms = some latency;
  healthy = true;
}

unfoldable pub mark_reused : Text → ℕ → ℕ → ConnectionManager → ConnectionManager
mark_reused key latency now m = modify key (reused latency now) m

unfoldable pub mark_healthy : Text → Bool → ConnectionManager → ConnectionManager
mark_healthy key healthy m = modify key (λ c. record c { healthy = healthy }) m

unfoldable pub touch : Text → ℕ → ConnectionManager → ConnectionManager
touch key now m = modify key (λ c. record c { last_used = now }) m

unfoldable pub remove_connection :
    Text → ConnectionManager → Option ManagedConnection × ConnectionManager
remove_connection key m = (get key m, remove key m)

unfoldable pub get_clone : Text → ConnectionManager → Option ManagedConnection
get_clone key m = get key m

unfoldable pub all_keys : ConnectionManager → List Text
all_keys m = map (λ e. e.0) m

unfoldable pub list : ConnectionManager → List ConnectionInfo
unfolding to_info
list m = map (λ e. to_info e.0 e.1) m

-- `min_by_key`: the first of the entries with the least value, behind the best one so far.
min_from : Text × ManagedConnection → ConnectionManager → Text × ManagedConnection
min_from best [] = best
min_from best (e ∷ m) = min_from (if ltb e.1.last_used best.1.last_used then e else best) m

unfoldable pub least_recently_used : ConnectionManager → Option Text
unfolding min_from
least_recently_used [] = none
least_recently_used (e ∷ m) = some (min_from e m).0
