-- ===== src/Daemon/Interleaving/Ends.antt =====
-- Tasks end, however they interleave.
use sshflow.Prelude.{ℕ, suc, ◌+◌, ◌*◌, ◌≤◌, ◌≡◌, List, [], ◌∷◌, ◌++◌, arith, ap, refl, zero}
use sshflow.System.{System}
use sshflow.Manager
use sshflow.Manager.{ManagedConnection}
use sshflow.Daemon.Interleaving.{
  Task, Progress, waiting, finished, begin, begin_round, resume, Machine, settled, Step, arrives,
  ticks, resumes, passes, Reach, here, next,
}
use sshflow.Daemon.Interleaving.Awaits.{awaits, left, begin-left, begin_round-left, resume-left}

-- The awaits before all tasks.
unfoldable pub all_awaits : List Task → ℕ
all_awaits [] = 0
all_awaits (t ∷ ts) = awaits t + all_awaits ts

all_awaits-append : (xs ys : List Task) → all_awaits (xs ++ ys) ≡ all_awaits xs + all_awaits ys
unfolding all_awaits
all_awaits-append [] ys = omega arith
all_awaits-append (t ∷ xs) ys = omega (arith, all_awaits-append xs ys)

all_awaits-middle :
    (xs ys : List Task) (t : Task) → all_awaits (xs ++ t ∷ ys) ≡ awaits t + all_awaits (xs ++ ys)
unfolding all_awaits
all_awaits-middle xs ys t = omega (arith, all_awaits-append xs (t ∷ ys), all_awaits-append xs ys)

all_awaits-settled :
    (p : Progress) (others : List Task)
    → all_awaits (settled p others).tasks ≡ left p + all_awaits others
unfolding all_awaits
all_awaits-settled (waiting t d) others = omega arith
all_awaits-settled (finished response d) others = omega arith

-- The times that a task went on in a step, and the awaits that it brings: two for a request, and two
-- for each connection that a round of the health check finds.
abbrev pub goes : {os : System} {m m' : Machine} → Step os m m' → ℕ
goes (resumes before after t at e) = 1
goes _ = 0

abbrev pub brings : {os : System} {m m' : Machine} → Step os m m' → ℕ
brings (arrives r e) = 2
brings {m = m} (ticks idle e) = 2 * Manager.len m.daemon.connections
brings _ = 0

unfoldable pub all_goes : {os : System} {m m' : Machine} → Reach os m m' → ℕ
all_goes here = 0
all_goes (next r st) = all_goes r + goes st

unfoldable pub all_brings : {os : System} {m m' : Machine} → Reach os m m' → ℕ
all_brings here = 0
all_brings (next r st) = all_brings r + brings st

module _ (os : System) where
  Step-goes :
      (m m' : Machine) (st : Step os m m')
      → goes st + all_awaits m'.tasks ≤ all_awaits m.tasks + brings st
  Step-goes m m' (arrives r e) = omega (
    arith,
    ap (λ x. all_awaits x.tasks) e,
    all_awaits-settled (begin os r m.daemon) m.tasks,
    begin-left os r m.daemon,
  )
  Step-goes m m' (ticks idle e) = omega (
    arith,
    ap (λ x. all_awaits x.tasks) e,
    all_awaits-settled (begin_round os m.daemon) m.tasks,
    begin_round-left os m.daemon,
  )
  Step-goes m m' (resumes before after t at e) = omega (
    arith,
    ap (λ x. all_awaits x.tasks) e,
    ap all_awaits at,
    all_awaits-settled (resume os t m.daemon) (before ++ after),
    all_awaits-middle before after t,
    resume-left os t m.daemon,
  )
  Step-goes m m' (passes t e) = omega (arith, ap (λ x. all_awaits x.tasks) e)

  -- However the awaits interleave, tasks go on at most twice for every request that arrives and twice
  -- for every connection that a round of the health check finds when it begins, beside the awaits
  -- that were before the tasks at the start; what has not been used up of these is before the tasks
  -- that are left.
  pub Reach-goes :
      (m m' : Machine) (r : Reach os m m')
      → all_goes r + all_awaits m'.tasks ≤ all_awaits m.tasks + all_brings r
  unfolding all_goes all_brings
  Reach-goes m _ here = omega arith
  Reach-goes m _ (next {m₁} {m₂} r st) = omega (arith, Reach-goes m m₁ r, Step-goes m₁ m₂ st)

-- Nothing but tasks that go on.
abbrev pub OnlyGoes : {os : System} {m m' : Machine} → Reach os m m' → Type 0
OnlyGoes here = Unit
OnlyGoes (next r st) = OnlyGoes r × (goes st ≡ 1)

module _ (os : System) where
  goes-brings : {m m' : Machine} (st : Step os m m') → goes st ≡ 1 → brings st ≡ 0
  goes-brings (arrives r e) h = absurd (omega arith)
  goes-brings (ticks idle e) h = absurd (omega arith)
  goes-brings (resumes before after t at e) h = refl
  goes-brings (passes t e) h = refl

  OnlyGoes-all_brings : {m m' : Machine} (r : Reach os m m') → OnlyGoes r → all_brings r ≡ 0
  unfolding all_brings
  OnlyGoes-all_brings here o = refl
  OnlyGoes-all_brings (next r st) (o, g) = omega (arith, OnlyGoes-all_brings r o, goes-brings st g)

  -- A step in front of others.
  first_step :
      {m m₁ m' : Machine} (st : Step os m m₁)
      → goes st ≡ 1
      → (r : Reach os m₁ m') → OnlyGoes r
      → (r' : Reach os m m') × OnlyGoes r'
  first_step st g here o = (next here st, (tt, g))
  first_step st g (next r s) (o, h) = let (r', o') = first_step st g r o in (next r' s, (o', h))

  abbrev Finishes : Machine → Type 0
  Finishes m = (m' : Machine) × (r : Reach os m m') × OnlyGoes r × (m'.tasks ≡ [])

  ends_from : (n : ℕ) (m : Machine) (ts : List Task) → m.tasks ≡ ts → all_awaits ts ≤ n → Finishes m
  unfolding all_awaits
  ends_from n m [] e h = (m, here, tt, e)
  ends_from zero m (t ∷ ts) e h = absurd (omega (arith, resume-left os t m.daemon))
  ends_from (suc n) m (t ∷ ts) e h =
      let went_on = settled (resume os t m.daemon) ts in
      let (m', r, o, over) =
        ends_from n went_on went_on.tasks refl (
          omega (arith, all_awaits-settled (resume os t m.daemon) ts, resume-left os t m.daemon)) in
      let (r', o') = first_step (resumes [] ts t e refl) refl r o in (m', r', o', over)

  -- Whatever tasks wait, going on alone brings all of them to their end, in at most as many steps as
  -- there are awaits before them.
  pub machine_ends :
      (m : Machine)
      → (m' : Machine) × (r : Reach os m m') × OnlyGoes r
        × (m'.tasks ≡ [])
        × (all_goes r ≤ all_awaits m.tasks)
  machine_ends m =
      let (m', r, o, e) = ends_from (all_awaits m.tasks) m m.tasks refl (omega arith) in
      (m', r, o, e, omega (arith, Reach-goes os m m' r, OnlyGoes-all_brings r o))
