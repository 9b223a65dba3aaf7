-- ===== src/Cli/Files.antt =====
-- The commands of crates/cli/src/commands.rs on the log and the configuration file, and those
-- that print the version.
pub mod Tail
use sshflow.Prelude.{
  ℕ, Bool, true, false, List, [], ◌∷◌, ◌++◌, Text, codes, Result, if◌then◌else◌, unwrap_or, lines,
}
use sshflow.Core.Protocol.{FilePath, join}
use sshflow.Config.Home.{logs_dir, config_path}
use sshflow.System.{System, Command, Output, inherit, ran}
use sshflow.Cli.Process.{
  Desk, World, Action, Exit, finished, ◌>>=◌, ◌>>◌, pure, bail, raised, of_config, on_trace, print,
  println,
}
use sshflow.Cli.Format.{last_lines}

print_lines : {S : Type 0} → List Text → Action S (Unit {0})
print_lines [] = pure tt
print_lines (l ∷ ls) = do println l; print_lines ls

editor_command : Text → FilePath → Command
editor_command editor path = record {
  program = editor;
  args = path ∷ [];
  stdin = inherit;
  stdout = inherit;
  stderr = inherit;
}

abbrev default_editor : Bool → Text
default_editor windows = if windows then codes "notepad" else codes "vi"

module _ {S : Type 0} (os : System) where
  read_file : FilePath → Action S Text
  read_file path w = (raised (os.read_to_string w.trace path), w)

  show_log : ℕ → FilePath → Action S Exit
  unfolding read_file print_lines
  show_log n path w =
      (if os.exists w.trace path
          then (do
            content ← read_file path
            print_lines (last_lines n (lines content))
            pure finished)
          else (do
            println (codes "No logs yet (" ++ path ++ codes " does not exist).")
            pure finished))
        w

  unfoldable pub logs : ℕ → Action S Exit
  unfolding show_log
  logs n = do dir ← on_trace of_config (logs_dir os); show_log n (join dir (codes "daemon.log"))

  unfoldable pub config_show : Action S Exit
  unfolding read_file
  config_show = do
    path ← on_trace of_config (config_path os)
    content ← read_file path
    print content
    pure finished

  unfoldable pub config_path_command : Action S Exit
  config_path_command = do path ← on_trace of_config (config_path os); println path; pure finished

  edit : Command → Action S Output
  edit command w = (raised (os.run w.trace command), record w { trace = ran command ∷ w.trace })

  unfoldable pub config_edit : Desk S → Action S Exit
  unfolding editor_command edit
  config_edit desk = do
    path ← on_trace of_config (config_path os)
    status ← edit (editor_command (unwrap_or desk.editor (default_editor os.windows)) path)
    if status.success then pure finished else bail (codes "editor exited with a non-zero status")

  unfoldable pub version : Action S Exit
  version = do println (codes "sshflow " ++ os.version); pure finished

  unfoldable pub update : Action S Exit
  update = do
    println (codes "sshflow " ++ os.version)
    println (codes "Automatic self-update isn't implemented yet.")
    println (codes "Please reinstall via your package manager or `cargo install sshflow-cli`,")
    println (codes "or check https://github.com/sshflow/sshflow/releases for the latest build.")
    pure finished
