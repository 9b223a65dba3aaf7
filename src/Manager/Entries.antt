-- ===== src/Manager/Entries.antt =====
-- The table of connections: every connection stands once, under the key of its target.
use sshflow.Prelude.{
  Reordered, NodupKeys-Reordered, All-Reordered, ℕ, ◌≡◌, refl, Bool, Option, Text, remove, modify,
  NodupKeys, NodupKeys-insert, NodupKeys-remove, NodupKeys-modify, Entries, Entries-insert,
  Entries-remove, Entries-modify,
}
use sshflow.Core.HostTarget.{HostTarget, key}
use sshflow.Core.Protocol.{FilePath}
use sshflow.Manager.{
  ManagedConnection, ConnectionManager, insert_new, mark_reused, mark_healthy, touch,
  remove_connection,
}

abbrev pub IsKeyed : Text → ManagedConnection → Type 0
IsKeyed k c = k ≡ key c.target

pub record IsWellFormed (m : ConnectionManager) : Type 0 where
  pub nodup : NodupKeys m
  pub keyed : Entries IsKeyed m

-- A change of a connection that keeps its target.
modify-IsWellFormed :
    (k : Text) (f : ManagedConnection → ManagedConnection) (m : ConnectionManager)
    → ((j : Text) (c : ManagedConnection) → IsKeyed j c → IsKeyed j (f c))
    → IsWellFormed m
    → IsWellFormed (modify k f m)
modify-IsWellFormed k f m h v = record {
  nodup = NodupKeys-modify k f m v.nodup;
  keyed = Entries-modify IsKeyed k f m h v.keyed;
}

pub Reordered-IsWellFormed :
    {m m' : ConnectionManager} → Reordered m m' → IsWellFormed m → IsWellFormed m'
Reordered-IsWellFormed r v = record {
  nodup = NodupKeys-Reordered r v.nodup;
  keyed = All-Reordered _ r v.keyed;
}

pub remove-IsWellFormed :
    (k : Text) (m : ConnectionManager) → IsWellFormed m → IsWellFormed (remove k m)
remove-IsWellFormed k m v = record {
  nodup = NodupKeys-remove k m v.nodup;
  keyed = Entries-remove IsKeyed k m v.keyed;
}

pub remove_connection-IsWellFormed :
    (k : Text) (m : ConnectionManager) → IsWellFormed m → IsWellFormed (remove_connection k m).1
unfolding remove_connection
remove_connection-IsWellFormed k m v = remove-IsWellFormed k m v

pub insert_new-IsWellFormed :
    (target : HostTarget) (socket : FilePath) (pid latency : Option ℕ) (now : ℕ)
    (m : ConnectionManager)
    → IsWellFormed m
    → IsWellFormed (insert_new (key target) target socket pid latency now m)
unfolding insert_new
insert_new-IsWellFormed target socket pid latency now m v = record {
  nodup = NodupKeys-insert (key target) _ m v.nodup;
  keyed = Entries-insert IsKeyed (key target) _ m refl v.keyed;
}

pub mark_reused-IsWellFormed :
    (k : Text) (latency now : ℕ) (m : ConnectionManager)
    → IsWellFormed m
    → IsWellFormed (mark_reused k latency now m)
unfolding mark_reused
mark_reused-IsWellFormed k latency now m v = modify-IsWellFormed k _ m (λ j c h. h) v

pub mark_healthy-IsWellFormed :
    (k : Text) (healthy : Bool) (m : ConnectionManager)
    → IsWellFormed m
    → IsWellFormed (mark_healthy k healthy m)
unfolding mark_healthy
mark_healthy-IsWellFormed k healthy m v = modify-IsWellFormed k _ m (λ j c h. h) v

pub touch-IsWellFormed :
    (k : Text) (now : ℕ) (m : ConnectionManager) → IsWellFormed m → IsWellFormed (touch k now m)
unfolding touch
touch-IsWellFormed k now m v = modify-IsWellFormed k _ m (λ j c h. h) v
