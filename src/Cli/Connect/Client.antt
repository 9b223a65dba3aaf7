-- ===== src/Cli/Connect/Client.antt =====
-- The client that `ssh` ends with.
use sshflow.Prelude.{
  [], ◌∷◌, ◌++◌, codes, ◌≡◌, refl, ap, sym, inl, inr, Bool, true, false, List, Option, none, some,
  Text, Result, Option-cases, Result-cases, if◌then◌else◌, unwrap_or,
}
use sshflow.Core.Errors.{io}
use sshflow.Core.HostTarget.{HostTarget}
use sshflow.Core.Protocol.{FilePath}
use sshflow.Config.{Config}
use sshflow.Ssh.{client_command}
use sshflow.System.{System, Trace, Command, ran}
use sshflow.Cli.Process.{
  Desk, World, Exit, finished, exited, replaced, core_chain, Outcome, done, failed,
}
use sshflow.Cli.Connect.{exec_unix, exec_windows, exec_client}

-- The client of `ssh` by the end of the command: the one that took the process's place, or the one
-- that was run last.
abbrev pub client_of : Exit → Trace → Option Command
client_of (replaced c) t = some c
client_of (exited code) (ran c ∷ t) = some c
client_of (exited code) _ = none
client_of finished t = none

-- The client is run, and the other end is as before.
abbrev pub Runs : {S : Type 0} → Command → World S → Exit → World S → Type 0
Runs c w exit w' = (client_of exit w'.trace ≡ some c) × (w'.peer ≡ w.peer)

module _ {S : Type 0} (os : System) (to_yaml : Config → Text)
    (from_yaml : Text → Result Text Config) (desk : Desk S) where
  exec_unix-Runs :
      (c : Command) (w : World S) (exit : Exit)
      → (exec_unix os to_yaml from_yaml desk c w).0 ≡ done exit
      → Runs c w exit (exec_unix os to_yaml from_yaml desk c w).1
  unfolding exec_unix
  exec_unix-Runs c w exit e = elim (Option-cases (desk.exec w.trace c)) [
    | inl n ↦
        let e' : ◌≡◌ {A = Outcome Exit} (done (replaced c)) (done exit) = rw (n, exec_unix) at e in
        let same : replaced c ≡ exit = cc in
        rw (exec_unix, n) (ap (λ x. client_of x w.trace) (sym same), refl)
    | inr (x, s) ↦
        let e' : ◌≡◌ {A = Outcome Exit} (failed ((codes "failed to launch ssh: " ++ x) ∷ []))
            (done exit) =
          rw (s, exec_unix) at e in
        cc
  ]

  exec_windows-Runs :
      (c : Command) (w : World S) (exit : Exit)
      → (exec_windows os to_yaml from_yaml desk c w).0 ≡ done exit
      → Runs c w exit (exec_windows os to_yaml from_yaml desk c w).1
  unfolding exec_windows
  exec_windows-Runs c w exit e = elim (Result-cases (desk.wait w.trace c)) [
    | inl (code, n) ↦
        let e' : ◌≡◌ {A = Outcome Exit} (done (exited (unwrap_or code 1))) (done exit) =
          rw (n, exec_windows) at e in
        let same : exited (unwrap_or code 1) ≡ exit = cc in
        rw (exec_windows, n) (ap (λ x. client_of x (ran c ∷ w.trace)) (sym same), refl)
    | inr (x, s) ↦
        let e' : ◌≡◌ {A = Outcome Exit} (failed (core_chain (io x))) (done exit) =
          rw (s, exec_windows) at e in
        cc
  ]

  pub exec_client-Runs :
      (socket : FilePath) (t : HostTarget) (args : List Text) (w : World S) (exit : Exit)
      → (exec_client os to_yaml from_yaml desk socket t args w).0 ≡ done exit
      → Runs
          (client_command os.windows socket t args)
          w
          exit
          (exec_client os to_yaml from_yaml desk socket t args w).1
  unfolding exec_client
  exec_client-Runs socket t args w exit = either os.windows
    where
      either :
          (b : Bool)
          → let r =
              if b
              then exec_windows os to_yaml from_yaml desk
                  (client_command os.windows socket t args)
                  w
              else exec_unix os to_yaml from_yaml desk
                  (client_command os.windows socket t args)
                  w in
            r.0 ≡ done exit → Runs (client_command os.windows socket t args) w exit r.1
      either true = exec_windows-Runs (client_command os.windows socket t args) w exit
      either false = exec_unix-Runs (client_command os.windows socket t args) w exit
