-- ===== src/Daemon/Interleaving/Steps.antt =====
-- A property of the daemon that the parts of every handler keep, step by step.
use sshflow.Prelude.{sym, subst, List, [], ◌∷◌, ◌++◌, All}
use sshflow.Core.HostTarget.{HostTarget}
use sshflow.Core.Protocol.{FilePath, DaemonRequest}
use sshflow.System.{System}
use sshflow.Daemon.State.{DaemonState}
use sshflow.Daemon.Interleaving.{
  Task, Progress, waiting, finished, begin, begin_round, resume, Machine, settled, Step, arrives,
  ticks, resumes, passes, Reach, here, next, starting, checking, closing, health_checking,
  health_starting,
}
use sshflow.Daemon.Interleaving.Rule.{
  Held, Every, Keeps, Anywhere, Anything, begin-Fine, begin_round-Fine, resume-Fine,
}

-- The property holds of the daemon, and the starts that are on have sockets as they should.
abbrev pub Safe : (DaemonState → Type 0) → (HostTarget → FilePath → Type 0) → Machine → Type 0
Safe P G m = P m.daemon × All (Held G) m.tasks

settled-Safe :
    (P : DaemonState → Type 0) (G : HostTarget → FilePath → Type 0) (p : Progress)
    (others : List Task)
    → Every P G p
    → All (Held G) others
    → Safe P G (settled p others)
settled-Safe P G (waiting t d) others (v, g) a = (v, (g, a))
settled-Safe P G (finished response d) others v a = (v, a)

All-without :
    {A : Type 0} (Q : A → Type 0) (before after : List A) (a : A)
    → All Q (before ++ a ∷ after)
    → Q a × All Q (before ++ after)
All-without Q [] after a h = h
All-without Q (b ∷ before) after a (q, h) =
    let (this, others) = All-without Q before after a h in (this, (q, others))

-- The requests that arrive are asked for.
abbrev pub Asks : {os : System} {m m' : Machine} → (DaemonRequest → Type 0) → Step os m m' → Type 0
Asks A (arrives r e) = A r
Asks A _ = Unit

abbrev pub AsksAll :
    {os : System} {m m' : Machine} → (DaemonRequest → Type 0) → Reach os m m' → Type 0
AsksAll A here = Unit
AsksAll A (next r st) = AsksAll A r × Asks A st

module _ (os : System) (P : DaemonState → Type 0) (G : HostTarget → FilePath → Type 0)
    (A : DaemonRequest → Type 0) (keeps : Keeps os P G A) where
  pub Step-Safe : (m m' : Machine) (st : Step os m m') → Asks A st → Safe P G m → Safe P G m'
  Step-Safe m m' (arrives r e) a (v, g) =
      subst (Safe P G) (sym e) (
        settled-Safe P G (begin os r m.daemon) m.tasks (begin-Fine os P G A keeps r m.daemon a v) g)
  Step-Safe m m' (ticks idle e) a (v, g) = subst (Safe P G) (sym e) (
      settled-Safe P G (begin_round os m.daemon) m.tasks
        (begin_round-Fine os P G A keeps m.daemon v) g)
  Step-Safe m m' (resumes before after t at e) a (v, g) =
      let (this, others) = All-without (Held G) before after t (subst (All (Held G)) at g) in
      subst (Safe P G) (sym e) (
        settled-Safe P G (resume os t m.daemon) (before ++ after)
          (resume-Fine os P G A keeps t m.daemon this v) others)
  Step-Safe m m' (passes t e) a (v, g) = subst (Safe P G) (sym e) (keeps.traced t m.daemon v, g)

  pub Reach-Safe : (s m : Machine) (r : Reach os s m) → AsksAll A r → Safe P G s → Safe P G m
  Reach-Safe s _ here a h = h
  Reach-Safe s _ (next {m₁} {m₂} r st) (a, b) h = Step-Safe m₁ m₂ st b (Reach-Safe s m₁ r a h)

-- Without conditions on the sockets and the requests.
Anywhere-Held : (ts : List Task) → All (Held Anywhere) ts
Anywhere-Held [] = tt
Anywhere-Held (starting target socket persist ∷ ts) = (tt, Anywhere-Held ts)
Anywhere-Held (checking target existing ∷ ts) = (tt, Anywhere-Held ts)
Anywhere-Held (closing k c ∷ ts) = (tt, Anywhere-Held ts)
Anywhere-Held (health_checking k c keys ∷ ts) = (tt, Anywhere-Held ts)
Anywhere-Held (health_starting k c keys persist ∷ ts) = (tt, Anywhere-Held ts)

Anything-asked : {os : System} {m m' : Machine} (st : Step os m m') → Asks Anything st
Anything-asked (arrives r e) = tt
Anything-asked _ = tt

pub Step-kept :
    (os : System) (P : DaemonState → Type 0) (keeps : Keeps os P Anywhere Anything) (m m' : Machine)
    → Step os m m'
    → P m.daemon
    → P m'.daemon
Step-kept os P keeps m m' st v =
    (Step-Safe os P Anywhere Anything keeps m m' st (Anything-asked st)
      (v, Anywhere-Held m.tasks)).0
