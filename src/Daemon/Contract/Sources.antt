-- ===== src/Daemon/Contract/Sources.antt =====
-- Where the sockets come from that the daemon knows.
use mathlib.Core.Option.{some-injective}
use sshflow.Prelude.{
  ◌≡◌, refl, ◌∙◌, sym, ap, ◌⊎◌, inl, inr, Bool, true, false, Option, none, some, Text, text_eq,
  text_eq→eq, text_eq_refl, get, if◌then◌else◌, Bool-cases, subst,
}
use sshflow.Core.HostTarget.{HostTarget, key}
use sshflow.Core.Protocol.{FilePath, DaemonRequest, DaemonResponse, connection_ready}
use sshflow.Config.{Config}
use sshflow.Manager
use sshflow.Metrics.{MetricsStore}
use sshflow.Plugins.{PluginManager}
use sshflow.System.{System, Trace}
use sshflow.Ssh.Sockets.{own_socket}
use sshflow.Daemon.State.{DaemonState, start}
use sshflow.Daemon.Requests.Invariant.{IsSound}
use sshflow.Daemon.Requests.{handle}
use sshflow.Daemon.Reach.{
  Reach, request, round, broken_round, passes, ordered, reorders, Reach-IsSound, start-IsSound,
}
use sshflow.Daemon.Contract.Runs.{Reach-home, Step-Shows}
use sshflow.Daemon.Contract.{View, view, Same, cut, Spared, EnsurePromise, Promise, Shrinks}

-- A registration is one of those that are allowed.
abbrev pub IsAllowed : (HostTarget → FilePath → Type 0) → DaemonRequest → Type 0
IsAllowed allowed (DaemonRequest.register_external_master t socket pid) = allowed t socket
IsAllowed allowed _ = Unit

-- `allowed` says which sockets are registered for which destinations.
module _ (own : HostTarget → FilePath) (allowed : HostTarget → FilePath → Type 0) where
  -- A socket that is known under a key is the own one of a destination with that key, or one that
  -- was registered for it.
  abbrev pub Source : Text → FilePath → Type 0
  Source k socket = (t : HostTarget) × (key t ≡ k) × ((socket ≡ own t) ⊎ allowed t socket)

  abbrev pub Sourced : View → Type 0
  Sourced v = (k : Text) (socket : FilePath) → v k ≡ some socket → Source k socket

  pub Same-Sourced : {v v' : View} → Same v v' → Sourced v → Sourced v'
  Same-Sourced h s k socket e = s k socket (sym (h k) ∙ e)

  Shrinks-Sourced : {v v' : View} → Shrinks v v' → Sourced v → Sourced v'
  Shrinks-Sourced h s k socket e = elim (h k) [
    | inl same ↦ s k socket (sym same ∙ e)
    | inr gone ↦ cc
  ]

  pub cut-Sourced :
      {v : View} (o : Option Text) (k : Text) (socket : FilePath)
      → Sourced v
      → cut o v k ≡ some socket
      → Source k socket
  cut-Sourced none k socket s e = s k socket e
  cut-Sourced {v} (some victim) k socket s e = by_victim (text_eq victim k) e
    where
      by_victim : (b : Bool) → (if b then none else v k) ≡ some socket → Source k socket
      by_victim true e' = cc
      by_victim false e' = s k socket e'

  -- One key has changed, and the others have a source.
  pub at_key :
      {v' : View} (t : HostTarget)
      → ((socket : FilePath) → v' (key t) ≡ some socket → Source (key t) socket)
      → ((k : Text) (socket : FilePath)
          → text_eq (key t) k ≡ false
          → v' k ≡ some socket
          → Source k socket)
      → Sourced v'
  at_key {v'} t here there k socket e = elim (Bool-cases (text_eq (key t) k)) [
    | inl same ↦
        let path = text_eq→eq (key t) k same in
        subst (λ x. Source x socket) path (here socket (ap v' path ∙ e))
    | inr other ↦ there k socket other e
  ]

  absent-Sourced :
      {v v' : View} (t : HostTarget)
      → (v' (key t) ≡ none) × Spared (key t) v v'
      → Sourced v
      → Sourced v'
  absent-Sourced t (gone, (o, spared)) s =
      at_key t (λ socket e. cc)
        (λ k socket other e. cut-Sourced o k socket s (sym (spared k other) ∙ e))

  EnsurePromise-Sourced :
      (t : HostTarget) (r : Option DaemonResponse) (v v' : View)
      → EnsurePromise own t r v v'
      → Sourced v
      → Sourced v'
  EnsurePromise-Sourced t (some (connection_ready socket true latency)) v v' (known, same) s =
      Same-Sourced same s
  EnsurePromise-Sourced t (some (connection_ready socket false latency)) v v'
        (is_own, made, (o, spared)) s =
      at_key t
        (λ socket' e. let there : socket ≡ socket' = cc in (t, refl, inl (sym there ∙ is_own)))
        (λ k socket' other e. cut-Sourced o k socket' s (sym (spared k other) ∙ e))
  EnsurePromise-Sourced t _ v v' p s = absent-Sourced t p s

  -- The promises keep the sources.
  pub Promise-Sourced :
      (r : DaemonRequest) (response : Option DaemonResponse) (v v' : View)
      → IsAllowed allowed r
      → Promise own r response v v'
      → Sourced v
      → Sourced v'
  Promise-Sourced (DaemonRequest.ensure_connection t) response v v' a p s =
      EnsurePromise-Sourced t response v v' p s
  Promise-Sourced (DaemonRequest.register_external_master t socket pid) response v v' a (r, h) s =
      at_key t
        (λ socket' e.
          let there : socket ≡ socket' = some-injective _ _ (set_there ∙ e) in
          (t, refl, inr (subst (allowed t) there a)))
        (λ k socket' other e.
          s k socket' (sym (h k ∙ ap (λ b. if b then some socket else v k) other) ∙ e))
    where
      set_there : some socket ≡ v' (key t)
      set_there =
          sym (h (key t) ∙ ap (λ b. if b then some socket else v (key t)) (text_eq_refl (key t)))
  Promise-Sourced (DaemonRequest.close_connection k) response v v' a (r, h) s =
      λ j socket e. cut-Sourced (some k) j socket s (sym (h j) ∙ e)
  Promise-Sourced _ response v v' a p s = Same-Sourced p s

-- The registrations of a run are allowed.
abbrev pub Only :
    {os : System} {s d : DaemonState} → (HostTarget → FilePath → Type 0) → Reach os s d → Type 0
Only allowed Reach.here = Unit
Only allowed (Reach.next r (request q e)) = Only allowed r × IsAllowed allowed q
Only allowed (Reach.next r _) = Only allowed r

module _ (os : System) (allowed : HostTarget → FilePath → Type 0) where
  Reach-Sourced_from :
      (s d : DaemonState) (r : Reach os s d)
      → IsSound s
      → Sourced (own_socket os s.home) allowed (view s)
      → Only allowed r
      → Sourced (own_socket os s.home) allowed (view d)
  Reach-Sourced_from s _ Reach.here v h a = h
  Reach-Sourced_from s _ (Reach.next {d} {d'} r (request q e)) v h (a, b) =
      Promise-Sourced (own_socket os s.home) allowed q (handle os q d).0 (view d) (view d') b
        (subst (λ x. Promise (own_socket os x) q (handle os q d).0 (view d) (view d'))
          (Reach-home os s d r) (Step-Shows os d d' (request q e) (Reach-IsSound v r)))
        (Reach-Sourced_from s d r v h a)
  Reach-Sourced_from s _ (Reach.next {d} {d'} r (round e)) v h a =
      Shrinks-Sourced (own_socket os s.home) allowed
        (Step-Shows os d d' (round e) (Reach-IsSound v r)) (Reach-Sourced_from s d r v h a)
  Reach-Sourced_from s _ (Reach.next {d} {d'} r (broken_round e)) v h a =
      Shrinks-Sourced (own_socket os s.home) allowed
        (Step-Shows os d d' (broken_round e) (Reach-IsSound v r)) (Reach-Sourced_from s d r v h a)
  Reach-Sourced_from s _ (Reach.next {d} {d'} r (passes t e)) v h a =
      Same-Sourced (own_socket os s.home) allowed
        (Step-Shows os d d' (passes t e) (Reach-IsSound v r)) (Reach-Sourced_from s d r v h a)
  Reach-Sourced_from s _ (Reach.next {d} {d'} r (ordered e)) v h a =
      Same-Sourced (own_socket os s.home) allowed
        (Step-Shows os d d' (ordered e) (Reach-IsSound v r)) (Reach-Sourced_from s d r v h a)
  Reach-Sourced_from s _ (Reach.next {d} {d'} r (reorders m hosts o o' e)) v h a =
      Same-Sourced (own_socket os s.home) allowed
        (Step-Shows os d d' (reorders m hosts o o' e) (Reach-IsSound v r))
        (Reach-Sourced_from s d r v h a)

  -- In every state that a started daemon comes to, the socket under a key is the own one of a
  -- destination with that key, in the directory for sockets of the daemon's home, or one that was
  -- registered for such a destination, whatever happens in between; `allowed` is any condition that
  -- the registrations of the run meet.
  pub Reach-Sourced :
      (home : FilePath) (config : Config) (metrics : MetricsStore) (plugins : PluginManager)
      (t : Trace) (d : DaemonState) (r : Reach os (start home config metrics plugins t) d)
      → Only allowed r
      → Sourced (own_socket os home) allowed (view d)
  unfolding start view Manager.socket_for get
  Reach-Sourced home config metrics plugins t d r a =
      Reach-Sourced_from (start home config metrics plugins t) d r
        (start-IsSound home config metrics plugins t) (λ k socket e. cc) a
