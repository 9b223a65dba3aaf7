-- ===== src/Cli/Outcomes.antt =====
-- How a command ends when the daemon cannot be reached.
use sshflow.Prelude.{
  ◌≡◌, refl, inl, inr, Bool, true, false, List, [], ◌∷◌, ◌++◌, Text, codes, Result, is_ok,
  Result-cases,
}
use sshflow.Config.{Config}
use sshflow.Core.HostTarget.{parse}
use sshflow.System.{System}
use sshflow.Cli.Process.{Desk, World, exited, failed}
use sshflow.Cli.Ipc.{send, ensure_daemon_running}
use sshflow.Cli.Connect
use sshflow.Cli.Print
use sshflow.Cli.{Commands, chain_text, run, report, main}

-- The command sends a request: a destination is parsed first.
abbrev pub asks_daemon : Commands → Bool
asks_daemon (Commands.ssh target args) = is_ok (parse target)
asks_daemon Commands.status = true
asks_daemon Commands.stats = true
asks_daemon Commands.doctor = true
asks_daemon Commands.connections = true
asks_daemon (Commands.logs n) = false
asks_daemon (Commands.config action) = false
asks_daemon Commands.version = false
asks_daemon Commands.update = false

module _ {S : Type 0} (os : System) (to_yaml : Config → Text)
    (from_yaml : Text → Result Text Config) (desk : Desk S) where
  run-unreachable :
      (c : Commands) (e : List Text) (w w' : World S)
      → asks_daemon c ≡ true
      → ensure_daemon_running os desk w ≡ (failed e, w')
      → run os to_yaml from_yaml desk c w ≡ (failed e, w')
  unfolding run Connect.ssh Print.status Print.stats Print.doctor Print.connections send
  run-unreachable (Commands.ssh target args) e w w' a h = elim (Result-cases (parse target)) [
    | inl (t, p) ↦ rw (p, Connect.ssh, h) refl
    | inr (x, p) ↦ cc
  ]
  run-unreachable Commands.status e w w' a h = rw h refl
  run-unreachable Commands.stats e w w' a h = rw h refl
  run-unreachable Commands.doctor e w w' a h = rw h refl
  run-unreachable Commands.connections e w w' a h = rw h refl
  run-unreachable (Commands.logs n) e w w' a h = cc
  run-unreachable (Commands.config action) e w w' a h = cc
  run-unreachable Commands.version e w w' a h = cc
  run-unreachable Commands.update e w w' a h = cc

  -- Every command that asks the daemon exits with 1 where the daemon is not taken to run after the
  -- attempts to reach and to start it: it does nothing more but print the chain of the errors.
  main-unreachable :
      (c : Commands) (e : List Text) (w w' : World S)
      → asks_daemon c ≡ true
      → ensure_daemon_running os desk w ≡ (failed e, w')
      → main os to_yaml from_yaml desk c w ≡ (
        exited 1,
        record w' { err = w'.err ++ (codes "sshflow: error: " ++ chain_text e) ++ b'\n' ∷ [] },
      )
  unfolding main report
  main-unreachable c e w w' a h = rw (run-unreachable c e w w' a h) refl
