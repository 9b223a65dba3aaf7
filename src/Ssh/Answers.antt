-- ===== src/Ssh/Answers.antt =====
-- What the result of a check or of a start in crates/ssh/src/lib.rs says of the commands that ran.
use sshflow.Prelude.{
  ℕ, ◌≡◌, refl, ◌⊎◌, inl, inr, true, false, Text, codes, Result, ok, err, Bool-cases,
}
use sshflow.Core.HostTarget.{HostTarget}
use sshflow.Core.Protocol.{FilePath}
use sshflow.System.{System, Trace, Command, Output}
use sshflow.Ssh.{
  StartMasterError, control_command, succeeded, is_master_alive, start_command, started,
  start_master_noninteractive, start_failure,
}
use sshflow.Ssh.Auth.{trim_lossy}

module _ (os : System) where
  -- At some time, the command ends with success.
  abbrev pub Succeeds : Command → Type 0
  Succeeds c = (t : Trace) × (o : Output) × (os.run t c ≡ ok o) × (o.success ≡ true)

  -- A check of the master on the socket ended with success, or a start of it.
  abbrev pub IsAnswered : FilePath → HostTarget → Type 0
  IsAnswered socket target =
      Succeeds (control_command os socket (codes "check") target)
      ⊎ ((persist timeout : ℕ) × Succeeds (start_command os.windows socket target persist timeout))

  succeeded-Succeeds :
      (c : Command) (t : Trace) (r : Result Text Output)
      → os.run t c ≡ r
      → succeeded os r ≡ true
      → Succeeds c
  unfolding succeeded
  succeeded-Succeeds c t (ok o) e h = (t, o, e, h)
  succeeded-Succeeds c t (err x) e h = cc

  pub is_master_alive-IsAnswered :
      (socket : FilePath) (target : HostTarget) (t : Trace)
      → (is_master_alive os socket target t).0 ≡ true
      → IsAnswered socket target
  unfolding is_master_alive
  is_master_alive-IsAnswered socket target t h = elim (Bool-cases (os.exists t socket)) [
    | inl e ↦ inl (succeeded-Succeeds _ t _ refl (rw (e, is_master_alive) at h))
    | inr e ↦ let absent : false ≡ true = rw (e, is_master_alive) at h in cc
  ]

  started-Succeeds :
      (socket : FilePath) (c : Command) (t t' : Trace) (elapsed : ℕ) (r : Result Text Output)
      → os.run t c ≡ r
      → (started os socket r t').0 ≡ ok elapsed
      → Succeeds c
  unfolding started
  started-Succeeds socket c t t' elapsed (err x) e h = cc
  started-Succeeds socket c t t' elapsed (ok o) e h = elim (Bool-cases o.success) [
    | inl s ↦ (t, o, e, s)
    | inr f ↦
        let failed : ◌≡◌ {A = Result StartMasterError ℕ} (err (start_failure (trim_lossy o.stderr)))
            (ok elapsed) =
          rw (f, started) at h in
        cc
  ]

  pub start_master-IsAnswered :
      (socket : FilePath) (target : HostTarget) (persist timeout elapsed : ℕ) (t : Trace)
      → (start_master_noninteractive os socket target persist timeout t).0 ≡ ok elapsed
      → IsAnswered socket target
  unfolding start_master_noninteractive
  start_master-IsAnswered socket target persist timeout elapsed t h =
      inr (persist, timeout, started-Succeeds socket _ t _ elapsed _ refl h)
