-- ===== src/Cli/Print/Checks.antt =====
-- What `sshflow doctor` prints of a report, and how it exits.
use sshflow.Prelude.{
  ◌≡◌, refl, ◌∙◌, ap, List, [], ◌∷◌, ◌++◌, map, Text, codes, if◌then◌else◌, unlines, append_assoc,
  append-nil,
}
use sshflow.Core.Protocol.{DoctorCheck, DoctorReport, DaemonResponse, all_ok}
use sshflow.System.{System}
use sshflow.Cli.Process.{World, finished, exited, done}
use sshflow.Cli.Format.{pad}
use sshflow.Cli.Print.{check_line, print_doctor, each, on_doctor}

-- The mark of a check, its name in 28 columns, and its detail.
abbrev pub check_text : DoctorCheck → Text
check_text c =
    (if c.ok then codes "✅" else codes "❌") ++ codes " " ++ pad 28 c.name ++ codes " " ++ c.detail

each-check_line :
    {S : Type 0} (checks : List DoctorCheck) (w : World S)
    → each check_line checks w
      ≡ (done tt, record w { out = w.out ++ unlines (map check_text checks) })
unfolding each check_line
each-check_line [] w = rw (append-nil w.out) refl
each-check_line (c ∷ checks) w =
    let l = check_text c in
    each-check_line checks (record w { out = w.out ++ (l ++ b'\n' ∷ []) })
    ∙ ap (λ s. (done tt, record w { out = s }))
        (append_assoc w.out (l ++ b'\n' ∷ []) (unlines (map check_text checks))
          ∙ ap (λ s. w.out ++ s) (append_assoc l (b'\n' ∷ []) (unlines (map check_text checks))))

pub on_doctor-report :
    {S : Type 0} (os : System) (report : DoctorReport) (w : World S)
    → on_doctor os (DaemonResponse.doctor report) w ≡ (
      done (if all_ok report then finished else exited 1),
      record w { out = w.out ++ unlines (map check_text report.checks) },
    )
unfolding on_doctor print_doctor
on_doctor-report os report w = rw (each-check_line report.checks w) refl
