-- ===== src/Cli/Live/Diagnosis.antt =====
-- `sshflow doctor` on a live daemon.
use sshflow.Prelude.{
  All, all, ◌⊎◌, inl, inr, true, List, [], ◌∷◌, Bool-cases, arith, ◌≡◌, refl, false, ◌++◌, map,
  some, Text, Result, if◌then◌else◌, unlines,
}
use sshflow.Core.Protocol.{
  FilePath, DaemonRequest, DaemonResponse, DoctorReport, DoctorCheck, pong, all_ok,
}
use sshflow.Config.{Config}
use sshflow.System.{System}
use sshflow.Daemon.State.{DaemonState}
use sshflow.Daemon.Requests.{handle}
use sshflow.Cli.{Commands, run, report, main}
use sshflow.Cli.Process.{Exit, Desk, World, finished, exited}
use sshflow.Cli.Print
use sshflow.Cli.Print.Checks.{check_text, on_doctor-report}
use sshflow.Cli.Live.{Codec, Carried, Delivers}
use sshflow.Cli.Live.Sessions.{send-handle}

-- No check failed.
abbrev pub AllPassed : DoctorReport → Type 0
AllPassed found = All (λ c. c.ok ≡ true) found.checks

-- No check failed and the exit is 0, or one did and it is 1.
abbrev pub ExitsBy : DoctorReport → Exit → Type 0
ExitsBy found exit =
    (AllPassed found × (exit ≡ finished)) ⊎ ((¬ AllPassed found) × (exit ≡ exited 1))

all-All :
    (checks : List DoctorCheck) → all (λ c. c.ok) checks ≡ true → All (λ c. c.ok ≡ true) checks
all-All [] h = tt
all-All (c ∷ checks) h = (ground arith, all-All checks (ground arith))

All-all :
    (checks : List DoctorCheck) → All (λ c. c.ok ≡ true) checks → all (λ c. c.ok) checks ≡ true
All-all [] h = refl
All-all (c ∷ checks) h = ground (arith, All-all checks h.1, h.0)

all_ok-ExitsBy :
    (found : DoctorReport) → ExitsBy found (if all_ok found then finished else exited 1)
unfolding all_ok
all_ok-ExitsBy found = elim (Bool-cases (all_ok found)) [
  | inl e ↦ inl (all-All found.checks e, rw e refl)
  | inr e ↦ inr (λ a. let passes = All-all found.checks a in cc, rw e refl)
]

-- On a live daemon, the command prints a line for each check of the daemon's report, in their order,
-- and exits with 0 when no check failed, and with 1 when one did, if the messages in use come back
-- from their texts, each a line, and requests come to the daemon's handlers.
pub main-doctor :
    (os daemon : System) (codec : Codec) (desk : Desk DaemonState) (to_yaml : Config → Text)
    (from_yaml : Text → Result Text Config) (home : FilePath) (w : World DaemonState)
    (found : DoctorReport)
    → Carried codec.print_request codec.scan_request DaemonRequest.ping
    → Carried codec.print_response codec.scan_response pong
    → Carried codec.print_request codec.scan_request DaemonRequest.doctor
    → Carried codec.print_response codec.scan_response (DaemonResponse.doctor found)
    → Delivers os daemon codec desk home
    → w.peer.home ≡ home
    → w.peer.shutdown ≡ false
    → (handle daemon DaemonRequest.doctor w.peer).0 ≡ some (DaemonResponse.doctor found)
    → let (exit, after) = main os to_yaml from_yaml desk Commands.doctor w in
      ExitsBy found exit
      × (after.out ≡ w.out ++ unlines (map check_text found.checks))
      × (after.err ≡ w.err)
unfolding main report run Print.doctor
main-doctor os daemon codec desk to_yaml from_yaml home w found ping_carried pong_carried there back
      line same up answered =
    let (later, sent, _, out, err) =
      send-handle os daemon codec desk ping_carried pong_carried home line DaemonRequest.doctor
        (DaemonResponse.doctor found) w there back same up answered in
    rw (sent, on_doctor-report os found later) (all_ok-ExitsBy found, rw out refl, err)
