-- ===== src/Cli/Files/Tail.antt =====
-- What `sshflow logs` prints.
use sshflow.Prelude.{
  ℕ, ◌-◌, ◌≡◌, refl, ◌∙◌, ap, true, List, [], ◌∷◌, ◌++◌, Text, codes, ok, All, length, drop,
  append_assoc, append-nil, IsLine, unlines, lines-unlines,
}
use sshflow.Core.Protocol.{FilePath, join}
use sshflow.Config.Home.{logs_dir}
use sshflow.System.{System}
use sshflow.Cli.Process.{World, finished, done}
use sshflow.Cli.Format.{last_lines}
use sshflow.Cli.Files.{print_lines, show_log, read_file, logs}

print_lines-unlines :
    {S : Type 0} (ls : List Text) (w : World S)
    → print_lines ls w ≡ (done tt, record w { out = w.out ++ unlines ls })
unfolding print_lines
print_lines-unlines [] w = rw (append-nil w.out) refl
print_lines-unlines (l ∷ ls) w =
    print_lines-unlines ls (record w { out = w.out ++ (l ++ b'\n' ∷ []) })
    ∙ ap (λ s. (done tt, record w { out = s }))
        (append_assoc w.out (l ++ b'\n' ∷ []) (unlines ls)
          ∙ ap (λ s. w.out ++ s) (append_assoc l (b'\n' ∷ []) (unlines ls)))

-- `sshflow logs` prints the last `n` lines of a log that was written line by line, and all of
-- them where there are fewer, if the file is there and can be read.
logs-unlines :
    {S : Type 0} (os : System) (n : ℕ) (ls : List Text) (dir : FilePath) (w : World S)
    → (logs_dir os w.trace).0 ≡ ok dir
    → os.exists (logs_dir os w.trace).1 (join dir (codes "daemon.log")) ≡ true
    → os.read_to_string (logs_dir os w.trace).1 (join dir (codes "daemon.log")) ≡ ok (unlines ls)
    → All IsLine ls
    → ((logs os n w).0 ≡ done finished)
      × ((logs os n w).1.out ≡ w.out ++ unlines (drop (length ls - n) ls))
unfolding logs show_log read_file last_lines
logs-unlines os n ls dir w found there read written =
    rw (found, there, read, lines-unlines ls written, print_lines-unlines) (refl, refl)
