-- ===== src/Daemon/Boot/Stopped.antt =====
-- A daemon on Unix from its start to the order to stop.
use sshflow.Prelude.{◌≡◌, true, ◌∷◌}
use sshflow.Config.{Config}
use sshflow.Core.Protocol.{FilePath}
use sshflow.System.{System, Trace, removed}
use sshflow.Daemon.State.{DaemonState}
use sshflow.Daemon.Serve.{Served, stopped, socket_path}
use sshflow.Daemon.Boot.{pid_path}

-- The daemon has ended without an error; it was ordered to stop, and the last that it did was to
-- remove its socket and then its PID file.
abbrev pub HasLeft : FilePath → Served → Type 0
HasLeft home e =
    (last : DaemonState) × (t : Trace) × (e ≡ stopped last)
    × (last.home ≡ home)
    × (last.shutdown ≡ true)
    × (last.trace ≡ removed (pid_path home) ∷ removed (socket_path last) ∷ t)
