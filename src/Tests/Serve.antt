-- ===== src/Tests/Serve.antt =====
-- The start and the end of the daemon.
use sshflow.Prelude.{
  ◌≡◌, refl, true, List, [], ◌∷◌, Option, none, Text, codes, Result, ok, err, decimal,
}
use sshflow.Config.{Config, default_config}
use sshflow.Config.Home.{sshflow_home, config_path, plugins_dir, load}
use sshflow.Core.Protocol.{FilePath, DaemonRequest}
use sshflow.Metrics.{PersistedState}
use sshflow.Plugins.{PluginDef}
use sshflow.Ssh.{socket_dir}
use sshflow.System.{System, Trace, wrote_file, removed, connected}
use sshflow.Daemon.State.{DaemonState}
use sshflow.Daemon.Serve.{
  Failure, Happening, accepted, changed, signalled, broken, already_listening, socket_path,
  serve_loop,
}
use sshflow.Daemon.Serve.Stops.{IsStopped, serve_loop-stops}
use sshflow.Daemon.Boot.{pid_path, boot, main}
use sshflow.Daemon.Boot.Second.{Happened, main-second}
use sshflow.Daemon.Windows.{token_text, endpoint_text}
use sshflow.Tests.System.{good_system}
use sshflow.Tests.Daemon.{begun, says}

abbrev stops : Text → Result Text DaemonRequest
stops line = ok DaemonRequest.shutdown

abbrev a_line : Happening
a_line = accepted (ok (codes "{}"))

serve_loop-stops_example : IsStopped good_system stops says (
    serve_loop good_system stops says
      (changed ∷ a_line ∷ accepted (err (codes "reset")) ∷ changed ∷ signalled ∷ [])
      begun)
serve_loop-stops_example =
    serve_loop-stops good_system stops says (changed ∷ []) (accepted (err (codes "reset")) ∷ [])
      (signalled ∷ []) a_line begun refl refl refl

-- A system on which a daemon listens.
abbrev served_system : System
served_system = record good_system { connect = λ t p. ok tt; read_to_string = λ t p. ok [] }

abbrev to_yaml : Config → Text
to_yaml c = []

abbrev from_yaml : Text → Result Text Config
from_yaml raw = ok default_config

abbrev no_dir : Trace → FilePath → Option (List (Option FilePath))
no_dir t p = none

abbrev no_plugin : Text → Option PluginDef
no_plugin raw = none

abbrev no_file : Trace → FilePath → Option PersistedState
no_file t p = none

abbrev second : Result Failure DaemonState × Trace
second = boot served_system to_yaml from_yaml no_dir no_plugin no_file true []

abbrev second_state : DaemonState
second_state = or_begun second.0
  where
    or_begun : Result Failure DaemonState → DaemonState
    or_begun (ok d) = d
    or_begun (err e) = begun

second_boots : second ≡ (ok second_state, second.1)
unfolding boot load config_path sshflow_home socket_dir plugins_dir
second_boots = refl

main-second_example :
    (last : DaemonState) × (main served_system to_yaml from_yaml no_dir no_plugin no_file stops says
        true [] []
      ≡ (ok (broken (already_listening (socket_path second_state)) last), second.1))
    × (last.trace
        ≡ removed (pid_path second_state.home) ∷ connected (socket_path second_state) ∷ second.1)
    × Happened (wrote_file (pid_path second_state.home) (decimal 4711)) second.1
main-second_example =
    main-second served_system to_yaml from_yaml no_dir no_plugin no_file stops says true [] []
      second.1 second_state second_boots refl refl

-- A system where nobody listens.
abbrev free_system : System
free_system = record good_system { read_to_string = λ t p. ok [] }

abbrev first : Result Failure DaemonState × Trace
first = boot free_system to_yaml from_yaml no_dir no_plugin no_file true []

abbrev first_state : DaemonState
first_state = or_begun first.0
  where
    or_begun : Result Failure DaemonState → DaemonState
    or_begun (ok d) = d
    or_begun (err e) = begun

abbrev windows_system : System
windows_system = record good_system {
  read_to_string = λ t p. ok (endpoint_text 4000 (token_text (171 ∷ 7 ∷ [])));
}

-- A daemon that starts and is told to stop.
