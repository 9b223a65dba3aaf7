-- ===== src/Daemon/Contract/Runs.antt =====
-- The daemon is an implementation of the abstract one.
use mathlib.Core.Path.{fun_ext}
use mathlib.Core.Option
use sshflow.Prelude.{
  ◌≡◌, refl, List, [], ◌∷◌, ◌∙◌, sym, ap, subst, ◌⊎◌, inl, inr, none, Text, get-modify, get-remove,
  arith, get-Reordered, if_both,
}
use sshflow.System.{System}
use sshflow.Manager
use sshflow.Manager.{ConnectionManager}
use sshflow.Ssh.Sockets.{own_socket}
use sshflow.Daemon.Requests.Settings.{handle-home}
use sshflow.Daemon.State.{DaemonState, mark_healthy, touch, remove, record_reconnect}
use sshflow.Daemon.Requests.{handle}
use sshflow.Daemon.Requests.Invariant.{IsSound}
use sshflow.Daemon.Health.{check_all}
use sshflow.Daemon.Health.Rule.{Holds, check_all-rule}
use sshflow.Daemon.Reach.{
  Step, request, round, broken_round, passes, ordered, reorders, Reach, Reach-IsSound,
}
use sshflow.Daemon.Contract.{
  View, view, Same, Shrinks, Seen, requested, health_checked, idled, Allowed, SpecReach, Promise,
}
use sshflow.Daemon.Contract.Meets.{handle-Promise}

Shrinks-by :
    {v w w' : View} → ((j : Text) → (w' j ≡ w j) ⊎ (w' j ≡ none)) → Shrinks v w → Shrinks v w'
Shrinks-by h s j = elim (h j) [
  | inl same ↦ elim (s j) [ inl e ↦ inl (same ∙ e) | inr e ↦ inr (same ∙ e) ]
  | inr gone ↦ inr gone
]

module _ (os : System) where
  -- What a round may do to the state: connections go, and the home directory stays.
  abbrev Fades : DaemonState → DaemonState → Type 0
  Fades s d = Shrinks (view s) (view d) × (d.home ≡ s.home)

  pub touched-view : (k : Text) (d : DaemonState) (j : Text) → view (touch os k d) j ≡ view d j
  unfolding touch view Manager.touch Manager.socket_for
  touched-view k d j =
      ground (arith, get-modify k j (λ c. record c { last_used = os.now d.trace }) d.connections)

  pub touched-home : (k : Text) (d : DaemonState) → (touch os k d).home ≡ d.home
  unfolding touch
  touched-home k d =
      if_both (λ (d' : DaemonState). d'.home ≡ d.home) (Manager.contains k d.connections) refl refl

  touch-Fades : (s : DaemonState) (k : Text) (d : DaemonState) → Fades s d → Fades s (touch os k d)
  touch-Fades s k d (v, h) =
      (Shrinks-by {w = view d} (λ j. inl (touched-view k d j)) v, touched-home k d ∙ h)

  pub check_all-Fades : (s : DaemonState) → Holds (Fades s) (check_all os s)
  unfolding view Manager.socket_for Manager.mark_healthy Manager.remove_connection mark_healthy
      remove record_reconnect
  check_all-Fades s =
      check_all-rule os (Fades s) (λ t d f. f)
        (λ k healthy d f. (
          Shrinks-by {w = view d}
              (λ j. inl (
                ground (arith, get-modify k j (λ c. record c { healthy = healthy }) d.connections)))
              f.0,
          f.1,
        ))
        (touch-Fades s) (λ d f. f)
        (λ k d f.
          (Shrinks-by {w = view d} (λ j. ground (arith, get-remove k j d.connections)) f.0, f.1))
        s (λ j. inl refl, refl)

  -- No step changes the home directory.
  Step-home : (d d' : DaemonState) → Step os d d' → d'.home ≡ d.home
  Step-home d d' (request r e) = ap (λ x. x.home) e ∙ handle-home os r d
  Step-home d d' (round e) = (subst (Holds (Fades d)) e (check_all-Fades d)).1
  Step-home d d' (broken_round e) = (subst (Holds (Fades d)) e (check_all-Fades d)).1
  Step-home d d' (passes t e) = ap (λ x. x.home) e
  Step-home d d' (ordered e) = ap (λ x. x.home) e
  Step-home d d' (reorders m hosts r r' e) = ap (λ x. x.home) e

  pub Reach-home : (s d : DaemonState) → Reach os s d → d.home ≡ s.home
  Reach-home s _ Reach.here = refl
  Reach-home s _ (Reach.next {d} {d'} r st) = Step-home d d' st ∙ Reach-home s d r

  -- What is seen of a step and of a run: each request with its handler's response.
  abbrev pub event : {d d' : DaemonState} → Step os d d' → Seen
  event {d} (request r e) = requested r (handle os r d).0
  event (round e) = health_checked
  event (broken_round e) = health_checked
  event _ = idled

  unfoldable pub events : {s d : DaemonState} → Reach os s d → List Seen
  events Reach.here = []
  events (Reach.next r st) = event st ∷ events r

  -- What a step does to the view: a request keeps its promise, connections go in a round, and
  -- nothing else changes it.
  abbrev pub Shows : {d d' : DaemonState} → Step os d d' → Type 0
  Shows {d} {d'} st = Allowed (own_socket os d.home) (event st) (view d) (view d')

  view-Same : {v v' : View} → v' ≡ v → Same v v'
  view-Same e j = ap (λ w. w j) e

  pub Step-Shows : (d d' : DaemonState) (st : Step os d d') → IsSound d → Shows st
  unfolding view Manager.socket_for
  Step-Shows d d' (request r e) s =
      subst (λ x. Promise (own_socket os d.home) r (handle os r d).0 (view d) (view x)) (sym e)
        (handle-Promise os r d)
  Step-Shows d d' (round e) s = (subst (Holds (Fades d)) e (check_all-Fades d)).0
  Step-Shows d d' (broken_round e) s = (subst (Holds (Fades d)) e (check_all-Fades d)).0
  Step-Shows d d' (passes t e) s = view-Same (ap view e)
  Step-Shows d d' (ordered e) s = view-Same (ap view e)
  Step-Shows d d' (reorders m hosts r r' e) s = view-Same (
      ap view e
      ∙ fun_ext (λ k. ap (Option.map (λ c. c.control_socket)) (sym (get-Reordered k r s.nodup))))

-- Whatever a started daemon does, by requests, rounds of the health check, orders to stop and changes
-- of the maps' orders, the abstract daemon does too on the same events, which are the requests in
-- their order, each with its handler's response, the rounds, and steps in which nothing is requested:
-- which socket is known under which key changes by a request only as its promise allows, by a round
-- only in that connections go, and not at all by the rest.
pub Reach-SpecReach :
    (os : System) (s d : DaemonState)
    → IsSound s
    → (r : Reach os s d) → SpecReach (own_socket os s.home) (view s) (events os r) (view d)
unfolding events
Reach-SpecReach os s _ v Reach.here = SpecReach.here
Reach-SpecReach os s _ v (Reach.next {d} {d'} r st) =
    SpecReach.next (Reach-SpecReach os s d v r) (event os st) (
      subst (λ h. Allowed (own_socket os h) (event os st) (view d) (view d')) (Reach-home os s d r)
        (Step-Shows os d d' st (Reach-IsSound v r)))
