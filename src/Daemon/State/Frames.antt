-- ===== src/Daemon/State/Frames.antt =====
-- What the calls of the state change, and what they leave alone.
use sshflow.Prelude.{
  ℕ, ◌≡◌, refl, Option, none, some, Text, get, get-modify, get-remove, remove as remove_entry,
  text_eq_refl, arith,
}
use sshflow.Core.HostTarget.{HostTarget}
use sshflow.Core.Protocol.{FilePath}
use sshflow.Manager
use sshflow.Manager.{ManagedConnection, ConnectionManager, reused}
use sshflow.System.{System}
use sshflow.Daemon.State.{
  DaemonState, mark_reused, remove, evict, evict_key, evict_lru, stop, check_alive,
}

-- The table without the entry that is chosen.
abbrev pub without : Option Text → ConnectionManager → ConnectionManager
without none m = m
without (some k) m = remove_entry k m

module _ (os : System) where
  evict-frame :
      (o : Option ManagedConnection) (d : DaemonState)
      → evict os o d ≡ record d { trace = (evict os o d).trace }
  unfolding evict stop
  evict-frame none d = refl
  evict-frame (some c) d = refl

  evict_key-frame :
      (o : Option Text) (d : DaemonState)
      → evict_key os o d
        ≡ record d { connections = without o d.connections; trace = (evict_key os o d).trace }
  unfolding evict_key Manager.remove_connection
  evict_key-frame none d = refl
  evict_key-frame (some k) d = evict-frame (get k d.connections) (remove os k d)

  -- An eviction changes the table by the entry it takes out, and the trace.
  pub evict_lru-frame :
      (d : DaemonState)
      → evict_lru os d ≡ record d {
        connections = without (Manager.least_recently_used d.connections) d.connections;
        trace = (evict_lru os d).trace;
      }
  unfolding evict_lru
  evict_lru-frame d = evict_key-frame (Manager.least_recently_used d.connections) d

  -- A check changes the trace.
  pub check_alive-frame :
      (socket : FilePath) (target : HostTarget) (d : DaemonState)
      → (check_alive os socket target d).1
        ≡ record d { trace = (check_alive os socket target d).1.trace }
  unfolding check_alive
  check_alive-frame socket target d = refl

  -- A reuse of a known connection.
  pub mark_reused-get :
      (key : Text) (latency : ℕ) (d : DaemonState) (c : ManagedConnection)
      → get key d.connections ≡ some c
      → get key (mark_reused os key latency d).connections
        ≡ some (reused latency (os.now d.trace) c)
  unfolding mark_reused Manager.contains Manager.mark_reused
  mark_reused-get key latency d c e =
      rw (e, mark_reused, Manager.contains)
        (rw
          (get-modify key key (reused latency (os.now d.trace)) d.connections, text_eq_refl key, e))

pub get-without :
    (j : Text) (o : Option Text) (m : ConnectionManager)
    → get j m ≡ none
    → get j (without o m) ≡ none
get-without j none m e = e
get-without j (some k) m e = ground (arith, get-remove k j m)
