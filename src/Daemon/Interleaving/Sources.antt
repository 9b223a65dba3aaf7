-- ===== src/Daemon/Interleaving/Sources.antt =====
-- Where the sockets come from that the daemon knows, however its tasks interleave.
use sshflow.Prelude.{
  ◌≡◌, refl, ok, err, ◌∙◌, sym, ap, subst, inl, Bool, true, false, Option, none, some, [], Text,
  get, get-insert, get-modify, get-remove, text_eq, text_eq_refl, arith,
}
use mathlib.Core.Option.{some-injective}
use sshflow.Core.HostTarget.{HostTarget, key}
use sshflow.Core.Protocol.{FilePath, DaemonRequest}
use sshflow.Config.{Config}
use sshflow.Metrics.{MetricsStore}
use sshflow.Plugins.{PluginManager}
use sshflow.System.{System, Trace}
use sshflow.Manager
use sshflow.Manager.{ManagedConnection}
use sshflow.Ssh.{needs_interactive, failed, control_socket_path}
use sshflow.Ssh.Sockets.{own_socket, control_socket_path-own}
use sshflow.Daemon.State.{
  DaemonState, start, insert_new, mark_healthy, touch, remove, record_connection, record_failure,
  record_reconnect, dispatch,
}
use sshflow.Daemon.Ensure.{Start, joined, lost, reuse, make_room, settle}
use sshflow.Daemon.Health.{drop_stale}
use sshflow.Daemon.Health.Rule.{after_start-rule}
use sshflow.Daemon.Requests.{handle, closed}
use sshflow.Daemon.Requests.Settings.{handle-home, reuse-Stays, closed-Stays}
use sshflow.Daemon.Contract.{View, view, Promise}
use sshflow.Daemon.Contract.Connecting.{make_room-view, make_room-home, reuse-view}
use sshflow.Daemon.Contract.Meets.{handle-Promise, closed-view}
use sshflow.Daemon.Contract.Runs.{touched-view, touched-home}
use sshflow.Daemon.Contract.Sources.{
  Sourced, IsAllowed, Same-Sourced, cut-Sourced, at_key, Promise-Sourced,
}
use sshflow.Daemon.Interleaving.{Machine, Reach}
use sshflow.Daemon.Interleaving.Rule.{Keeps}
use sshflow.Daemon.Interleaving.Steps.{AsksAll, Reach-Safe}

module _ (os : System) (home : FilePath) (allowed : HostTarget → FilePath → Type 0) where
  abbrev own : HostTarget → FilePath
  own = own_socket os home

  -- Every socket has a source, and the daemon has the home directory.
  abbrev Known : DaemonState → Type 0
  Known d = Sourced own allowed (view d) × (d.home ≡ home)

  -- A start is on the destination's own socket.
  abbrev Own : HostTarget → FilePath → Type 0
  Own target socket = socket ≡ own target

  handle-Known :
      (r : DaemonRequest) (d : DaemonState)
      → IsAllowed allowed r
      → Known d
      → Known (handle os r d).1
  handle-Known r d a (s, h) = (
    Promise-Sourced own allowed r (handle os r d).0 (view d) (view (handle os r d).1) a
        (subst
          (λ x. Promise (own_socket os x) r (handle os r d).0 (view d) (view (handle os r d).1)) h
          (handle-Promise os r d))
        s,
    handle-home os r d ∙ h,
  )

  path-Own :
      (target : HostTarget) (d : DaemonState)
      → Known d
      → (socket : FilePath) → (control_socket_path os d.home target d.trace).0 ≡ ok socket
      → Own target socket
  path-Own target d (s, h) socket e =
      control_socket_path-own os d.home target d.trace socket e ∙ ap (λ x. own_socket os x target) h

  make_room-Known : (d : DaemonState) → Known d → Known (make_room os d)
  make_room-Known d (s, h) =
      let (o, cuts) = make_room-view os home plain d in
      (
        λ k socket e. cut-Sourced own allowed o k socket s (sym (cuts k) ∙ e),
        make_room-home os home plain d ∙ h,
      )
    where
      plain : HostTarget
      plain = record { user = none; host = []; port = none }

  reuse-Known :
      (target : HostTarget) (existing : FilePath) (d : DaemonState)
      → Known d
      → Known (reuse os target existing d).1
  reuse-Known target existing d (s, h) = (
    Same-Sourced own allowed (reuse-view os home target existing d) s,
    (reuse-Stays os target existing d).1 ∙ h,
  )

  settle-Known :
      (target : HostTarget) (socket : FilePath) (st : Start) (d : DaemonState)
      → Own target socket
      → Known d
      → Known (settle os target socket (st, d)).1
  unfolding settle insert_new record_connection record_failure dispatch Manager.insert_new view
      Manager.socket_for
  settle-Known target socket (joined (ok elapsed)) d g (s, h) = (
    at_key own allowed target
        (λ socket' e.
          let there : socket ≡ socket' = some-injective _ _ (sym here ∙ e) in
          (target, refl, inl (sym there ∙ g)))
        (λ k socket' other e. s k socket' (sym (elsewhere k other) ∙ e)),
    h,
  )
    where
      after : View
      after = view (settle os target socket (joined (ok elapsed), d)).1

      here : after (key target) ≡ some socket
      here = rw (get-insert (key target) (key target), text_eq_refl (key target)) refl

      elsewhere : (k : Text) → text_eq (key target) k ≡ false → after k ≡ view d k
      elsewhere k other = rw (get-insert (key target) k, other) refl
  settle-Known target socket (joined (err needs_interactive)) d g k = k
  settle-Known target socket (joined (err (failed message))) d g k = k
  settle-Known target socket (lost e) d g k = k

  remove-Known : (k : Text) (d : DaemonState) → Known d → Known (remove os k d)
  unfolding remove Manager.remove_connection view Manager.socket_for
  remove-Known k d (s, h) = (
    λ j socket e.
        cut-Sourced own allowed (some k) j socket s
          (ground (arith, get-remove k j d.connections, e)),
    h,
  )

  closed-Known :
      (k : Text) (o : Option ManagedConnection) (d : DaemonState)
      → Known d
      → Known (closed os k o d).1
  closed-Known k o d (s, h) =
      (Same-Sourced own allowed (closed-view os k o d) s, (closed-Stays os k o d).1 ∙ h)

  mark_healthy-Known :
      (k : Text) (healthy : Bool) (d : DaemonState) → Known d → Known (mark_healthy os k healthy d)
  unfolding mark_healthy Manager.mark_healthy view Manager.socket_for
  mark_healthy-Known k healthy d (s, h) = (
    Same-Sourced own allowed
        (λ j. ground (arith, get-modify k j (λ c. record c { healthy = healthy }) d.connections)) s,
    h,
  )

  touch-Known : (k : Text) (d : DaemonState) → Known d → Known (touch os k d)
  touch-Known k d (s, h) =
      (Same-Sourced own allowed (λ j. touched-view os k d j) s, touched-home os k d ∙ h)

  count-Known : (d : DaemonState) → Known d → Known (record_reconnect os d)
  unfolding record_reconnect view
  count-Known d k = k

  drop_stale-Known :
      (k : Text) (c : ManagedConnection) (d : DaemonState) → Known d → Known (drop_stale os k c d)
  unfolding drop_stale dispatch view
  drop_stale-Known k c d v = remove-Known k d v

  Keeps-Known : Keeps os Known Own (IsAllowed allowed)
  unfolding view
  Keeps-Known = record {
    traced = λ t d v. v;
    handle = handle-Known;
    path = path-Own;
    make_room = make_room-Known;
    reuse = reuse-Known;
    settle = settle-Known;
    remove = remove-Known;
    closed = closed-Known;
    mark_healthy = λ k. mark_healthy-Known k true;
    drop_stale = drop_stale-Known;
    after_start =
        after_start-rule os Known (λ t d v. v) mark_healthy-Known touch-Known count-Known
          remove-Known;
  }

  -- In every state that a started daemon comes to, however the awaits of requests and of the health
  -- check interleave, the socket under a key is the own one of a destination with that key, in the
  -- directory for sockets of the daemon's home, or one that was registered for such a destination;
  -- `allowed` is any condition that the registrations of the run meet.
  pub Machine-Sourced :
      (config : Config) (metrics : MetricsStore) (plugins : PluginManager) (t : Trace) (m : Machine)
      (r : Reach os (record { daemon = start home config metrics plugins t; tasks = [] }) m)
      → AsksAll (IsAllowed allowed) r
      → Sourced (own_socket os home) allowed (view m.daemon)
  unfolding start view Manager.socket_for get
  Machine-Sourced config metrics plugins t m r a =
      (Reach-Safe os Known Own (IsAllowed allowed) Keeps-Known
        (record { daemon = start home config metrics plugins t; tasks = [] }) m r a
        ((λ k socket e. cc, refl), tt)).0.0
