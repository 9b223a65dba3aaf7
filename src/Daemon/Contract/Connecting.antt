-- ===== src/Daemon/Contract/Connecting.antt =====
-- A request for a connection keeps its promise.

use sshflow.Prelude.{
  sym, subst, if_both, ℕ, ◌≡◌, refl, ◌∙◌, ap, inl, inr, Bool, true, false, Option, none, some, Text,
  Result, ok, err, get-insert, get-remove, get-modify, text_eq, text_eq_refl, Bool-cases,
  Option-cases, leb, arith,
}
use sshflow.Core.HostTarget.{HostTarget, key}
use sshflow.Core.Protocol.{FilePath}
use sshflow.Config.{ConfigError, persist_time_duration}
use sshflow.System.{System}
use sshflow.Manager
use sshflow.Manager.{ManagedConnection, ConnectionManager, reused, new_connection}
use sshflow.Ssh.{needs_interactive, failed}
use sshflow.Ssh.{control_socket_path}
use sshflow.Ssh.Sockets.{own_socket, control_socket_path-own}
use sshflow.Daemon.State.{
  DaemonState, insert_new, mark_reused, remove, record_connection, record_failure, dispatch,
  check_alive,
}
use sshflow.Daemon.State.Frames.{evict_lru-frame, without}
use sshflow.Daemon.Ensure.{
  Start, joined, lost, reuse, make_room, settle, start_at, start_in, start_blocking, establish,
  checked, ensure_connection,
}
use sshflow.Daemon.Contract.{View, view, Same, cut, Spared, EnsurePromise}

socket_for-without :
    (o : Option Text) (m : ConnectionManager) (j : Text)
    → Manager.socket_for j (without o m) ≡ cut o (λ k. Manager.socket_for k m) j
unfolding Manager.socket_for
socket_for-without none m j = refl
socket_for-without (some k) m j = ground (arith, get-remove k j m)

module _ (os : System) (home : FilePath) (target : HostTarget) where
  abbrev own : HostTarget → FilePath
  own = own_socket os home

  pub make_room-view :
      (d : DaemonState)
      → (o : Option Text) × ((j : Text) → view (make_room os d) j ≡ cut o (view d) j)
  unfolding make_room view
  make_room-view d = elim (Bool-cases (leb d.config.max_connections (Manager.len d.connections))) [
    | inl full ↦
        let victim = Manager.least_recently_used d.connections in
        (
          victim,
          λ j.
              rw (full, make_room)
                (ap (λ s. Manager.socket_for j s.connections) (evict_lru-frame os d)
                  ∙ socket_for-without victim d.connections j),
        )
    | inr free ↦ (none, λ j. rw (free, make_room) refl)
  ]

  pub make_room-home : (d : DaemonState) → (make_room os d).home ≡ d.home
  unfolding make_room
  make_room-home d =
      if_both (λ (d' : DaemonState). d'.home ≡ d.home)
        (leb d.config.max_connections (Manager.len d.connections))
        (ap (λ s. s.home) (evict_lru-frame os d)) refl

  pub reuse-view :
      (existing : FilePath) (d : DaemonState) → Same (view d) (view (reuse os target existing d).1)
  unfolding reuse mark_reused record_connection dispatch view Manager.socket_for Manager.mark_reused
  reuse-view existing d j = ground (
    arith,
    get-modify (key target) j (reused (os.elapsed_ms d.trace) (os.now d.trace)) d.connections,
  )

  settle-Promise :
      (socket : FilePath) (s : Start) (d : DaemonState) (v : View)
      → socket ≡ own target
      → view d (key target) ≡ none
      → Spared (key target) v (view d)
      → EnsurePromise own target
          (settle os target socket (s, d)).0
          v
          (view (settle os target socket (s, d)).1)
  unfolding settle insert_new record_connection record_failure dispatch Manager.insert_new view
      Manager.socket_for
  settle-Promise socket (joined (ok elapsed)) d v p e (o, h) = (
    p,
    rw (get-insert (key target) (key target), text_eq_refl (key target)) refl,
    (o, λ j n. rw (get-insert (key target) j, n) (h j n)),
  )
  settle-Promise socket (joined (err needs_interactive)) d v p e s = (e, s)
  settle-Promise socket (joined (err (failed message))) d v p e s = (e, s)
  settle-Promise socket (lost x) d v p e s = (e, s)

  start_at-Promise :
      (socket : FilePath) (persist : Option (Result ConfigError ℕ)) (d : DaemonState) (v : View)
      → socket ≡ own target
      → view d (key target) ≡ none
      → Spared (key target) v (view d)
      → EnsurePromise own target
          (start_at os target socket persist d).0
          v
          (view (start_at os target socket persist d).1)
  unfolding start_at start_blocking view
  start_at-Promise socket none d v p e s = (e, s)
  start_at-Promise socket (some persist) d v p e s = settle-Promise socket _ _ v p e s

  start_in-Promise :
      (path : Result Text FilePath) (d : DaemonState) (v : View)
      → ((socket : FilePath) → path ≡ ok socket → socket ≡ own target)
      → view d (key target) ≡ none
      → Spared (key target) v (view d)
      → EnsurePromise own target
          (start_in os target path d).0
          v
          (view (start_in os target path d).1)
  unfolding start_in
  start_in-Promise (err x) d v p e s = (e, s)
  start_in-Promise (ok socket) d v p e s =
      start_at-Promise socket (persist_time_duration d.config) d v (p socket refl) e s

  cut-none : (o : Option Text) (v : View) (k : Text) → v k ≡ none → cut o v k ≡ none
  cut-none none v k e = e
  cut-none (some x) v k e = ground arith

  -- Room is made, and the connection then.
  establish-Promise :
      (d : DaemonState) (v : View)
      → d.home ≡ home
      → view d (key target) ≡ none
      → ((j : Text) → text_eq (key target) j ≡ false → view d j ≡ v j)
      → EnsurePromise own target (establish os target d).0 v (view (establish os target d).1)
  unfolding establish view
  establish-Promise d v at e s =
      let (o, h) = make_room-view d in
      start_in-Promise _ _ v
        (subst
          (λ x.
            (socket : FilePath)
            → (control_socket_path os x target (make_room os d).trace).0 ≡ ok socket
            → socket ≡ own target)
          (sym (make_room-home d ∙ at))
          (control_socket_path-own os home target (make_room os d).trace))
        (h (key target) ∙ cut-none o (view d) (key target) e) (o, λ j n. h j ∙ cut-eq o (s j n))
    where
      cut-eq : (o : Option Text) {j : Text} → view d j ≡ v j → cut o (view d) j ≡ cut o v j
      cut-eq none h = h
      cut-eq (some x) h = ground (arith, h)

  checked-Promise :
      (existing : FilePath) (alive : Bool) (d : DaemonState)
      → d.home ≡ home
      → view d (key target) ≡ some existing
      → EnsurePromise own target
          (checked os target existing (alive, d)).0
          (view d)
          (view (checked os target existing (alive, d)).1)
  unfolding checked remove Manager.remove_connection view Manager.socket_for reuse
  checked-Promise existing true d at e = (e, reuse-view existing d)
  checked-Promise existing false d at e =
      establish-Promise _ (view d) at
        (rw (get-remove (key target) (key target), text_eq_refl (key target)) refl)
        (λ j n. rw (get-remove (key target) j, n) refl)

  pub ensure_connection-Promise :
      (d : DaemonState)
      → d.home ≡ home
      → EnsurePromise own target
          (ensure_connection os target d).0
          (view d)
          (view (ensure_connection os target d).1)
  unfolding ensure_connection check_alive view
  ensure_connection-Promise d at =
      elim (Option-cases (Manager.socket_for (key target) d.connections)) [
        | inl e ↦ rw (e, ensure_connection) (establish-Promise d (view d) at e (λ j n. refl))
        | inr (existing, e) ↦
            rw (e, ensure_connection)
              (checked-Promise existing (check_alive os existing target d).0
                (check_alive os existing target d).1 at e)
      ]
