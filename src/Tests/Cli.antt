-- ===== src/Tests/Cli.antt =====
-- The command line of crates/cli/src: what it prints, and how it starts the daemon.
use sshflow.Prelude.{
  decimal, ℕ, ◌-◌, ◌≤◌, ◌≡◌, ◌↔◌, ◌⊎◌, refl, true, List, [], ◌∷◌, none, some, Text, codes, Result,
  ok, err, leb, if◌then◌else◌,
}
use sshflow.Core.Protocol.{pong, join}
use sshflow.Config.{Config, default_config, trim}
use sshflow.Config.Home.{sshflow_home}
use sshflow.System.{System}
use sshflow.Cli.Process.{Desk, World, is_done, failed}
use sshflow.Cli.Format.{fmt_ago, rounded}
use sshflow.Metrics.Duration.{format_duration_ms}
use sshflow.Cli.Exchange.{read_response, send_raw}
use sshflow.Cli.Ipc.{is_daemon_reachable, ensure_daemon_running}
use sshflow.Cli.Ipc.Polling.{answers, launched, AnswersWithin}
use sshflow.Cli.Ipc.Waiting.{ensure_daemon_running_ends}
use sshflow.Cli.Exchange.Pauses.{slept_ms}
use sshflow.Cli.Ipc.{launch, pause, poll}
use sshflow.Tests.System.{good_system}

ages : fmt_ago 1000 940 ≡ codes "1m ago"
unfolding fmt_ago decimal
ages = refl

durations : format_duration_ms 761000 ≡ codes "12m 41s"
unfolding format_duration_ms decimal
durations = refl

halves_to_even : rounded (record { sum = 5; samples = 2 }) ≡ 2
unfolding rounded
halves_to_even = refl

abbrev pub to_yaml : Config → Text
to_yaml c = []

abbrev pub from_yaml : Text → Result Text Config
from_yaml raw = ok default_config

-- A daemon that answers once some milliseconds have passed after its start.
abbrev late_desk : Desk ℕ
late_desk = record {
  connect = λ path ms. (if leb ms 0 then ok tt else err (codes "No such file"), ms);
  exchange = λ line ms. (ok (codes "pong\n"), ms);
  tcp_connect = λ port ms. (err (codes "Connection refused"), ms);
  tcp_exchange = λ first second ms. (ok [], ms);
  spawn = λ c ms. (ok tt, ms);
  sleep = λ slept ms. ms - slept;
  exec = λ t c. none;
  wait = λ t c. ok (some 0);
  exe_dir = none;
  editor = none;
  to_string = λ r. ok (codes "ping");
  from_str = λ line. ok pong;
  parse_error = λ l. codes "invalid digit";
}

abbrev late : World ℕ
late = record { peer = 250; trace = []; out = []; err = [] }

ensure_daemon_running_ends_example :
    ((is_done (ensure_daemon_running good_system late_desk late).0 ≡ true) ↔ (
      (answers good_system late_desk late ≡ true)
      ⊎ ((is_done (launched good_system late_desk late).0 ≡ true)
          × AnswersWithin good_system late_desk 40 (launched good_system late_desk late).1)))
    × (slept_ms (ensure_daemon_running good_system late_desk late).1.trace ≤ 4000)
unfolding slept_ms
ensure_daemon_running_ends_example = ensure_daemon_running_ends good_system late_desk late

comes_up_in_time : is_done (ensure_daemon_running good_system late_desk late).0 ≡ true
unfolding ensure_daemon_running is_daemon_reachable send_raw launch pause poll sshflow_home trim
    read_response
comes_up_in_time = refl

-- Nobody answers, and nothing can be started.
abbrev dead_desk : Desk ℕ
dead_desk = record late_desk { spawn = λ c ms. (err (codes "No such file"), ms) }

abbrev given_up : World ℕ
given_up = (ensure_daemon_running good_system dead_desk late).1

abbrev not_started : List Text
not_started = codes "failed to spawn sshflow-daemon" ∷ codes "No such file" ∷ []

is_given_up : ensure_daemon_running good_system dead_desk late ≡ (failed not_started, given_up)
unfolding ensure_daemon_running is_daemon_reachable send_raw launch sshflow_home join
is_given_up = refl

-- A command line whose files can be read.
abbrev pub reading_system : System
reading_system = record good_system { read_to_string = λ t p. ok (codes "one\ntwo\nthree\n") }

abbrev written : List Text
written = codes "one" ∷ codes "two" ∷ codes "three" ∷ []
