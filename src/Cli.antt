-- ===== src/Cli.antt =====
-- crates/cli/src/main.rs: a command is run, and its error is printed. The arguments are parsed by
-- `clap`.
pub mod Process
pub mod Exchange
pub mod Ipc
pub mod Format
pub mod Print
pub mod Files
pub mod Connect
pub mod Live
pub mod Outcomes
use sshflow.Prelude.{ℕ, List, [], ◌∷◌, ◌++◌, Text, codes, Result}
use sshflow.Config.{Config}
use sshflow.System.{System}
use sshflow.Cli.Process.{
  Desk, World, Action, Exit, exited, Outcome, done, failed, panicked, eprintln,
}

pub data ConfigAction : Type 0 where
  show path edit : ConfigAction

pub data Commands : Type 0 where
  ssh : Text → List Text → Commands
  status : Commands
  stats : Commands
  doctor : Commands
  connections : Commands
  logs : ℕ → Commands
  config : ConfigAction → Commands
  version : Commands
  update : Commands

-- `{e:#}`.
unfoldable pub chain_text : List Text → Text
chain_text [] = []
chain_text (m ∷ []) = m
chain_text (m ∷ n ∷ ms) = m ++ codes ": " ++ chain_text (n ∷ ms)

-- The exit code of a panic is Rust's.
abbrev pub panic_code : ℕ
panic_code = 101

module _ {S : Type 0} (os : System) (to_yaml : Config → Text)
    (from_yaml : Text → Result Text Config) (desk : Desk S) where
  unfoldable pub run : Commands → Action S Exit
  run (Commands.ssh target args) = Connect.ssh os to_yaml from_yaml desk target args
  run Commands.status = Print.status os desk
  run Commands.stats = Print.stats os desk
  run Commands.doctor = Print.doctor os desk
  run Commands.connections = Print.connections os desk
  run (Commands.logs n) = Files.logs os n
  run (Commands.config show) = Files.config_show os
  run (Commands.config path) = Files.config_path_command os
  run (Commands.config edit) = Files.config_edit os desk
  run Commands.version = Files.version os
  run Commands.update = Files.update os

  report : Outcome Exit × World S → Exit × World S
  report (done exit, w) = (exit, w)
  report (failed e, w) = (exited 1, (eprintln (codes "sshflow: error: " ++ chain_text e) w).1)
  report (panicked, w) = (exited panic_code, w)

  unfoldable pub main : Commands → World S → Exit × World S
  unfolding report
  main command w = report (run command w)
