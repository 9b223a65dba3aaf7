-- ===== src/Tests/Ssh.antt =====
-- The commands of crates/ssh/src/lib.rs and the hooks of crates/plugins/src/lib.rs.
use sshflow.Prelude.{ok, err, ◌≡◌, refl, ◌↔◌, true, false, [], ◌∷◌, codes, All, text_eq}
use sshflow.Core.HostTarget.Parse.{parse-IsParsed}
use sshflow.Core.Events.{name, host_added}
use sshflow.Ssh.{
  start_master_noninteractive, needs_interactive, start_command, interactive_command,
  client_command,
}
use sshflow.Ssh.Auth.{needs_interactive_auth, trim_lossy}
use sshflow.Ssh.Refused.{IsRefusal, start_master-IsRefusal}
use sshflow.System.{System, Output}
use sshflow.Ssh.Commands.{IsGuarded, commands-IsGuarded}
use sshflow.Plugins.{PluginDef, PluginManager, hook_command, dispatch}
use sshflow.Plugins.Dispatch.{attempts, hooks_of, attempts-dispatch}
use sshflow.Tests.System.{good_system, deploy}
use sshflow.Tests.Core.{parses_user_host_port}

denied_needs_terminal : needs_interactive_auth (codes "Permission denied (publickey).") ≡ true
unfolding needs_interactive_auth
denied_needs_terminal = refl

commands-IsGuarded_example :
    All IsGuarded (start_command false (codes "/s") deploy 600 10).args
    × All IsGuarded (interactive_command false (codes "/s") deploy 600).args
    × All IsGuarded (client_command false (codes "/s") deploy []).args
commands-IsGuarded_example =
    commands-IsGuarded false (codes "/s") deploy 600 10
      (parse-IsParsed (codes "deploy@10.0.0.4:2222") deploy parses_user_host_port) refl

-- A system where every command is refused.
abbrev refusal : Output
refusal = record {
  success = false;
  stdout = [];
  stderr = codes " Permission denied (publickey).\n";
}

abbrev refusing_system : System
refusing_system = record good_system { run = λ t c. ok refusal }

start_master-IsRefusal_example :
    ((start_master_noninteractive refusing_system (codes "/s") deploy 600 10 []).0
      ≡ err needs_interactive)
    ↔ IsRefusal (trim_lossy refusal.stderr)
start_master-IsRefusal_example =
    start_master-IsRefusal refusing_system (codes "/s") deploy 600 10 [] refusal refl refl

abbrev notifier : PluginDef
notifier = record {
  name = codes "notify";
  events = codes "HostAdded" ∷ [];
  command = codes "notify-send";
  args = [];
}

abbrev other : PluginDef
other = record notifier { events = codes "Reconnect" ∷ []; command = codes "beep" }

abbrev both : PluginManager
both = notifier ∷ other ∷ []

attempts-dispatch_example :
    attempts (dispatch good_system both (host_added (codes "h")) [])
    ≡ hooks_of (host_added (codes "h")) both []
unfolding attempts
attempts-dispatch_example =
    attempts-dispatch good_system both (host_added (codes "h")) [] (codes "{}") refl

hooks_of_added : hooks_of (host_added (codes "h")) both [] ≡ hook_command notifier ∷ []
unfolding hooks_of text_eq name
hooks_of_added = refl
