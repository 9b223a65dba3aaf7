-- ===== src/Plugins.antt =====
-- crates/plugins/src/lib.rs: plugin definitions and the dispatch of events to their commands.
pub mod Dispatch
use sshflow.Prelude.{
  ℕ, Bool, true, false, ◌&&◌, ◌||◌, not, List, [], ◌∷◌, Option, none, some, Text, codes, Result, ok,
  err, text_eq, any, is_empty, length, rsplit_once, if◌then◌else◌,
}
use sshflow.Core.Events.{Event, name}
use sshflow.Core.Protocol.{FilePath}
use sshflow.System.{System, Trace, Command, Effect, piped, null, spawned, spawn_failed}

pub record PluginDef : Type 0 where
  pub name : Text
  pub events : List Text
  pub command : Text
  pub args : List Text

abbrev pub PluginManager : Type 0
PluginManager = List PluginDef

abbrev file_part : Option (Text × Text) → Text → Text
file_part none path = path
file_part (some (dir, file)) path = file

-- `Path::extension` of a path that does not end in a slash.
extension : FilePath → Option Text
extension path = elim (rsplit_once b'.' (file_part (rsplit_once b'/' path) path)) [
  | none ↦ none
  | some (stem, ext) ↦ if is_empty stem then none else some ext
]

is_yaml : Option Text → Bool
is_yaml none = false
is_yaml (some ext) = text_eq ext (codes "yaml")

module _ (read_to_string : FilePath → Option Text) (from_str : Text → Option PluginDef) where
  read_plugin : FilePath → Option PluginDef
  read_plugin path = elim (read_to_string path) [ none ↦ none | some raw ↦ from_str raw ]

  -- An entry of the directory that cannot be read is `none`.
  load_entries : List (Option FilePath) → PluginManager
  unfolding read_plugin extension is_yaml
  load_entries [] = []
  load_entries (none ∷ entries) = load_entries entries
  load_entries (some path ∷ entries) =
      let rest = load_entries entries in
      if is_yaml (extension path)
      then elim (read_plugin path) [ none ↦ rest | some def ↦ def ∷ rest ]
      else rest

  -- `none` where the directory cannot be read.
  unfoldable pub load : Option (List (Option FilePath)) → PluginManager
  unfolding load_entries
  load none = []
  load (some entries) = load_entries entries

abbrev pub empty_plugins : PluginManager
empty_plugins = []

unfoldable pub plugin_count : PluginManager → ℕ
plugin_count ps = length ps

unfoldable pub is_subscribed : Event → PluginDef → Bool
is_subscribed event p =
    not (not (is_empty p.events) && not (any (λ e. text_eq e (name event)) p.events))

unfoldable pub hook_command : PluginDef → Command
hook_command p = record {
  program = p.command;
  args = p.args;
  stdin = piped;
  stdout = null;
  stderr = piped;
}

module _ (os : System) where
  -- A hook that does not start is passed over.
  run_hook : PluginDef → Text → Trace → Trace
  run_hook p payload t = elim (os.spawn t (hook_command p)) [
    | ok _ ↦ spawned (hook_command p) payload ∷ t
    | err e ↦ spawn_failed (hook_command p) ∷ t
  ]

  run_hooks : Event → Text → PluginManager → Trace → Trace
  unfolding run_hook
  run_hooks event payload [] t = t
  run_hooks event payload (p ∷ ps) t =
      run_hooks event payload ps (if is_subscribed event p then run_hook p payload t else t)

  unfoldable pub dispatch : PluginManager → Event → Trace → Trace
  unfolding run_hooks
  dispatch ps event t = elim (os.event_json event) [
    | ok payload ↦ run_hooks event payload ps t
    | err e ↦ t
  ]
