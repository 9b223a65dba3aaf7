-- ===== src/Daemon/Interleaving/Capacity.antt =====
-- How far requests that interleave can pass the limit on connections.
use sshflow.Prelude.{
  ℕ, suc, ◌+◌, ◌-◌, ◌≤◌, ◌<◌, ◌≡◌, subst, Bool, false, List, [], ◌∷◌, ◌++◌, arith, if◌then◌else◌,
}
use sshflow.Config.{Config}
use sshflow.Core.Protocol.{FilePath}
use sshflow.Metrics.{MetricsStore}
use sshflow.Plugins.{PluginManager}
use sshflow.System.{System, Trace}
use sshflow.Manager
use sshflow.Daemon.State.{DaemonState, start}
use sshflow.Daemon.Ensure.Capacity.{size}
use sshflow.Daemon.Requests.Invariant.{IsSound}
use sshflow.Daemon.Reach.{start-IsSound}
use sshflow.Daemon.Interleaving.{
  Task, checking, starting, closing, health_checking, health_starting, Progress, waiting, finished,
  begin, begin_round, resume, Machine, settled, Step, arrives, ticks, resumes, passes,
}
use sshflow.Daemon.Interleaving.Steps.{Step-kept}
use sshflow.Daemon.Interleaving.Invariant.{Step-IsSound}
use sshflow.Daemon.Interleaving.Settings.{Fits, Keeps-Fits}
use sshflow.Daemon.Interleaving.Growth.{
  Grows, After, is_start, is_registration, begin-Grows, begin_round-Grows, resume-Grows,
}

-- The starts that are on.
unfoldable pub starts : List Task → ℕ
starts [] = 0
starts (t ∷ ts) = (if is_start t then 1 else 0) + starts ts

abbrev pub registers : {os : System} {m m' : Machine} → Step os m m' → Bool
registers (arrives r e) = is_registration r
registers _ = false

-- Steps without a registration, through machines on which at most N starts are on at a time.
pub data Few (os : System) (N : ℕ) (m : Machine) : Machine → Type 0 where
  at_first : Few os N m m
  further :
      {m₁ m₂ : Machine}
      → Few os N m m₁
      → (s : Step os m₁ m₂) → registers s ≡ false
      → starts m₂.tasks ≤ N
      → Few os N m m₂

starts-append : (xs ys : List Task) → starts (xs ++ ys) ≡ starts xs + starts ys
unfolding starts
starts-append [] ys = omega arith
starts-append (t ∷ xs) ys = omega (arith, starts-append xs ys)

starts-middle :
    (xs ys : List Task) (t : Task) → starts (xs ++ t ∷ ys) ≡ starts (t ∷ []) + starts (xs ++ ys)
unfolding starts
starts-middle xs ys t = omega (arith, starts-append xs (t ∷ ys), starts-append xs ys)

-- Every start that is on may still add a connection.
abbrev Spare : ℕ → ℕ → Machine → Type 0
Spare B N m = size m.daemon + starts m.tasks < B + N

settled-Spare :
    (B N n : ℕ) (p : Progress) (others : List Task)
    → Grows B n p
    → n + starts others < B + N
    → starts (settled p others).tasks ≤ N
    → Spare B N (settled p others)
unfolding starts
settled-Spare B N n (waiting (starting target socket persist) d) others g h few =
    omega (arith, g.free (B + N - 1 - starts others) (omega arith) (omega arith))
settled-Spare B N n (waiting (checking target existing) d) others g h few = omega arith
settled-Spare B N n (waiting (closing k c) d) others g h few = omega arith
settled-Spare B N n (waiting (health_checking k c keys) d) others g h few = omega arith
settled-Spare B N n (waiting (health_starting k c keys persist) d) others g h few = omega arith
settled-Spare B N n (finished response d) others g h few = omega arith

record Good (B N : ℕ) (m : Machine) : Type 0 where
  sound : IsSound m.daemon
  fits : Fits B m.daemon
  spare : Spare B N m

module _ (os : System) (B N : ℕ) (one : 1 ≤ B) where
  resumed-Spare :
      (before after : List Task) (t : Task) (d : DaemonState)
      → IsSound d
      → Fits B d
      → size d + starts (before ++ t ∷ after) < B + N
      → starts (settled (resume os t d) (before ++ after)).tasks ≤ N
      → Spare B N (settled (resume os t d) (before ++ after))
  unfolding starts
  resumed-Spare before after t d v fits h few =
      go t (resume-Grows os B one t d v.nodup fits) (starts-middle before after t)
    where
      go :
          (t' : Task)
          → After os B one t' (size d) (resume os t d)
          → starts (before ++ t ∷ after) ≡ starts (t' ∷ []) + starts (before ++ after)
          → Spare B N (settled (resume os t d) (before ++ after))
      go (starting target socket persist) g e =
          settled-Spare B N (suc (size d)) _ (before ++ after) g (omega arith) few
      go (checking target existing) g e =
          settled-Spare B N (size d) _ (before ++ after) g (omega arith) few
      go (closing k c) g e = settled-Spare B N (size d) _ (before ++ after) g (omega arith) few
      go (health_checking k c keys) g e =
          settled-Spare B N (size d) _ (before ++ after) g (omega arith) few
      go (health_starting k c keys persist) g e =
          settled-Spare B N (size d) _ (before ++ after) g (omega arith) few

  Step-Fits : (m m' : Machine) → Step os m m' → Fits B m.daemon → Fits B m'.daemon
  Step-Fits = Step-kept os (Fits B) (Keeps-Fits os B)

  Step-Spare :
      (m m' : Machine) (s : Step os m m')
      → registers s ≡ false
      → starts m'.tasks ≤ N
      → Good B N m
      → Spare B N m'
  Step-Spare m m' (arrives r e) q few g = rw e (
      settled-Spare B N (size m.daemon) (begin os r m.daemon) m.tasks
        (begin-Grows os B one r m.daemon q g.sound.nodup g.fits) g.spare (rw e at few))
  Step-Spare m m' (ticks idle e) q few g = rw e (
      settled-Spare B N (size m.daemon) (begin_round os m.daemon) m.tasks
        (begin_round-Grows os B one m.daemon) g.spare (rw e at few))
  Step-Spare m m' (resumes before after t at e) q few g = rw e (
      resumed-Spare before after t m.daemon g.sound g.fits
        (subst (λ ts. size m.daemon + starts ts < B + N) at g.spare) (rw e at few))
  Step-Spare m m' (passes t e) q few g = rw e g.spare

  Few-Good : {m m' : Machine} → Good B N m → Few os N m m' → Good B N m'
  Few-Good g at_first = g
  Few-Good g (further {m₁} {m₂} r s q few) =
      let g₁ = Few-Good g r in
      record {
        sound = Step-IsSound os m₁ m₂ s g₁.sound;
        fits = Step-Fits m₁ m₂ s g₁.fits;
        spare = Step-Spare m₁ m₂ s q few g₁;
      }

start-Good :
    (B N : ℕ) (home : FilePath) (config : Config) (metrics : MetricsStore) (plugins : PluginManager)
    (t : Trace)
    → 1 ≤ B
    → config.max_connections ≤ B
    → Good B N (record { daemon = start home config metrics plugins t; tasks = [] })
unfolding start starts
start-Good B N home config metrics plugins t one fits = record {
  sound = start-IsSound home config metrics plugins t;
  fits = fits;
  spare = omega arith;
}

-- Without registrations, and with at most N starts on at a time, a daemon that was started with a
-- limit of at most B, which is at least one, never has B + N connections or more. With one start
-- at a time it keeps to the limit; each other start that is on can pass it by one.
pub Few-capacity :
    (os : System) (B N : ℕ) (home : FilePath) (config : Config) (metrics : MetricsStore)
    (plugins : PluginManager) (t : Trace) (m : Machine)
    → 1 ≤ B
    → config.max_connections ≤ B
    → Few os N (record { daemon = start home config metrics plugins t; tasks = [] }) m
    → Manager.len m.daemon.connections < B + N
unfolding Manager.len
Few-capacity os B N home config metrics plugins t m one fits r =
    let g = Few-Good os B N one (start-Good B N home config metrics plugins t one fits) r in
    omega (arith, g.spare)
