-- ===== src/Cli/Ipc/Polling.antt =====
-- The start of the daemon by the command line: the polls, how often they are made, and when they
-- end.
use sshflow.Prelude.{
  ℕ, zero, suc, ◌<◌, ◌≡◌, refl, ◌↔◌, ◌⊎◌, inl, inr, Bool, true, false, arith, Bool-cases, if_both,
  if◌then◌else◌,
}
use sshflow.Core.Protocol.{DaemonRequest}
use sshflow.System.{System}
use sshflow.Cli.Process.{
  Desk, World, Outcome, done, failed, panicked, is_done, Action, pure, continue_with,
}
use sshflow.Cli.Exchange.{send_raw}
use sshflow.Cli.Ipc.{is_daemon_reachable, pause, launch, poll, polls, ensure_daemon_running}

-- A test that ends the work early.
is_done-unless :
    {S : Type 0} (b : Bool) (m : Action S (Unit {0})) (w : World S)
    → is_done ((if b then pure tt else m) w).0 ≡ (if b then true else is_done (m w).0)
is_done-unless true m w = refl
is_done-unless false m w = refl

is_done-continue_with :
    {S A B : Type 0} (r : Outcome A × World S) (m : Action S B)
    → (is_done (continue_with r (λ _. m)).0 ≡ true)
      ↔ ((is_done r.0 ≡ true) × (is_done (m r.1).0 ≡ true))
is_done-continue_with (done a, w) m = (λ e. (refl, e), λ h. h.1)
is_done-continue_with (failed e, w) m = (λ e. cc, λ h. cc)
is_done-continue_with (panicked, w) m = (λ e. cc, λ h. cc)

module _ {S : Type 0} (os : System) (desk : Desk S) where
  -- The world of the poll after `k` polls and pauses.
  abbrev pub waiting : ℕ → World S → World S
  waiting zero w = w
  waiting (suc k) w = waiting k (pause os desk (is_daemon_reachable os desk w).1).1

  abbrev pub answers : World S → Bool
  answers w = is_done (send_raw os desk DaemonRequest.ping w).0

  poll_step :
      (n : ℕ) (w : World S)
      → is_done (poll os desk (suc n) w).0
        ≡ (if answers w then true else is_done (poll os desk n (waiting 1 w)).0)
  unfolding poll is_daemon_reachable pause
  poll_step n w = is_done-unless (answers w) _ (is_daemon_reachable os desk w).1

  abbrev pub AnswersWithin : ℕ → World S → Type 0
  AnswersWithin n w = (k : ℕ) × (k < n) × (answers (waiting k w) ≡ true)

  poll-AnswersWithin :
      (n : ℕ) (w : World S) → is_done (poll os desk n w).0 ≡ true → AnswersWithin n w
  poll-AnswersWithin zero w e = unfold poll in cc
  poll-AnswersWithin (suc n) w e = elim (Bool-cases (answers w)) [
    | inl up ↦ (0, omega arith, up)
    | inr down ↦
        let later : is_done (poll os desk n (waiting 1 w)).0 ≡ true =
          rw (poll_step n w, down) at e in
        let (k, l, h) = poll-AnswersWithin n (waiting 1 w) later in (suc k, omega (arith, l), h)
  ]

  poll-is_done :
      (n k : ℕ) (w : World S)
      → k < n
      → answers (waiting k w) ≡ true
      → is_done (poll os desk n w).0 ≡ true
  poll-is_done zero k w l h = elim l [ ]
  poll-is_done (suc n) zero w l h = rw (poll_step n w, h) refl
  poll-is_done (suc n) (suc k) w l h = rw (poll_step n w) (
      if_both (λ b. b ≡ true) (answers w) refl
        (poll-is_done n k (waiting 1 w) (omega (arith, l)) h))

  -- The world after the daemon was started.
  abbrev pub launched : World S → Outcome (Unit {0}) × World S
  launched w = launch os desk (is_daemon_reachable os desk w).1

  ensure_step :
      (w : World S)
      → is_done (ensure_daemon_running os desk w).0 ≡ (
          if answers w
          then true
          else is_done (continue_with (launched w) (λ _. poll os desk polls)).0)
  unfolding ensure_daemon_running is_daemon_reachable
  ensure_step w = is_done-unless (answers w) _ (is_daemon_reachable os desk w).1

  -- The daemon is taken to run exactly when it answers the first ping, or when it can be started
  -- and answers a ping after fewer than 40 pauses of 100 milliseconds; in every other case
  -- it is taken not to run.
  pub ensure_daemon_running_iff :
      (w : World S)
      → (is_done (ensure_daemon_running os desk w).0 ≡ true)
        ↔ ((answers w ≡ true) ⊎ ((is_done (launched w).0 ≡ true) × AnswersWithin 40 (launched w).1))
  ensure_daemon_running_iff w = elim (Bool-cases (answers w)) [
    | inl up ↦ (λ e. inl up, λ h. rw (ensure_step w, up) refl)
    | inr down ↦
        let start = is_done-continue_with (launched w) (poll os desk polls) in
        (
          λ e.
              let h = start.0 (rw (ensure_step w, down) at e) in
              inr (h.0, poll-AnswersWithin polls (launched w).1 h.1),
          λ h.
              rw (ensure_step w, down)
                (start.1 (elim h [
                  | inl up ↦ cc
                  | inr later ↦
                      (later.0, let (k, l, a) = later.1 in poll-is_done polls k (launched w).1 l a)
                ])),
        )
  ]
