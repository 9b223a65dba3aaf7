-- ===== src/Ssh/Refused.antt =====
-- When a start in crates/ssh/src/lib.rs that failed asks for a terminal.
use sshflow.Prelude.{
  ℕ, ◌≡◌, refl, ap, ◌↔◌, ◌⊎◌, true, false, Text, codes, ok, err, inl, inr, arith, Bool-cases,
}
use sshflow.Core.HostTarget.{HostTarget}
use sshflow.Core.Protocol.{FilePath}
use sshflow.System.{System, Trace, Output}
use sshflow.Ssh.{
  needs_interactive, failed, start_failure, start_command, started, start_master_noninteractive,
}
use sshflow.Ssh.Auth.{trim_lossy, needs_interactive_auth}
use sshflow.Ssh.Auth.Phrases.{IsSaid, IsPhrase, contains_lowered_iff, or_iff}

-- One of the phrases is in the text.
abbrev pub IsRefusal : Text → Type 0
IsRefusal s =
    ((IsSaid (codes "permission denied") s ⊎ IsSaid (codes "keyboard-interactive") s)
      ⊎ IsSaid (codes "password:") s)
    ⊎ IsSaid (codes "host key verification failed") s

phrases :
    IsPhrase (codes "permission denied")
    × IsPhrase (codes "keyboard-interactive")
    × IsPhrase (codes "password:")
    × IsPhrase (codes "host key verification failed")
phrases = ground arith

needs_interactive_auth-IsRefusal :
    (stderr : Text) → (needs_interactive_auth stderr ≡ true) ↔ IsRefusal stderr
unfolding needs_interactive_auth
needs_interactive_auth-IsRefusal stderr =
    let (denied, keyboard, password, key) = phrases in
    or_iff _ _
      (or_iff _ _
        (or_iff _ _ (contains_lowered_iff (codes "permission denied") stderr denied)
          (contains_lowered_iff (codes "keyboard-interactive") stderr keyboard))
        (contains_lowered_iff (codes "password:") stderr password))
      (contains_lowered_iff (codes "host key verification failed") stderr key)

start_failure_asks :
    (stderr : Text)
    → ((start_failure stderr ≡ needs_interactive) → needs_interactive_auth stderr ≡ true)
      × (needs_interactive_auth stderr ≡ true → start_failure stderr ≡ needs_interactive)
unfolding start_failure
start_failure_asks stderr = (forth, λ h. rw (h, start_failure) refl)
  where
    forth : start_failure stderr ≡ needs_interactive → needs_interactive_auth stderr ≡ true
    forth h = elim (Bool-cases (needs_interactive_auth stderr)) [
      | inl e ↦ e
      | inr e ↦ let other : failed _ ≡ needs_interactive = rw (e, start_failure) at h in cc
    ]

module _ (os : System) (socket : FilePath) (target : HostTarget) (persist timeout : ℕ) (t : Trace)
    (o : Output) where
  start_failed :
      os.run t (start_command os.windows socket target persist timeout) ≡ ok o
      → o.success ≡ false
      → (start_master_noninteractive os socket target persist timeout t).0
        ≡ err (start_failure (trim_lossy o.stderr))
  unfolding start_master_noninteractive started
  start_failed e f = rw (e, f) refl

  -- A start whose command fails asks for a terminal exactly when "permission denied",
  -- "keyboard-interactive", "password:" or "host key verification failed" stands in the error text,
  -- in whatever case each letter is, and counting the Kelvin sign as a capital K.
  pub start_master-IsRefusal :
      os.run t (start_command os.windows socket target persist timeout) ≡ ok o
      → o.success ≡ false
      → ((start_master_noninteractive os socket target persist timeout t).0 ≡ err needs_interactive)
        ↔ IsRefusal (trim_lossy o.stderr)
  start_master-IsRefusal e f = rw (start_failed e f) (
    λ h.
        let asks : start_failure (trim_lossy o.stderr) ≡ needs_interactive = cc in
        (needs_interactive_auth-IsRefusal _).0 ((start_failure_asks _).0 asks),
    λ r. ap err ((start_failure_asks _).1 ((needs_interactive_auth-IsRefusal _).1 r)),
  )
