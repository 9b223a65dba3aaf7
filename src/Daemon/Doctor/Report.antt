-- ===== src/Daemon/Doctor/Report.antt =====
-- When `sshflow doctor` finds nothing wrong.
use mathlib.Core.Option
use mathlib.Core.Option.{some-injective}
use sshflow.Prelude.{
  ℕ, ◌/◌, ◌%◌, ◌*◌, ◌<◌, ◌≡◌, ◌≢◌, refl, ap, ◌↔◌, Bool, true, Option, none, some, Result, is_some,
  is_ok, arith, ◌&&◌, not, false, if◌then◌else◌, ltb, ◌==◌, Text, ok, err,
}
use sshflow.Core.Protocol.{all_ok, FilePath}
use sshflow.Config.{ConfigError, health_check_duration}
use sshflow.Config.Home.{config_path}
use sshflow.System.{System}
use sshflow.Daemon.State.{DaemonState}
use sshflow.Daemon.Doctor.{
  detect_ssh, owner_only, run, report, report_of, unix_checks, ssh_check, interval_check,
  config_check, home_check, root_check, max_check, active_check, plugins_check, memory_check,
}

ssh_check-ok : (ssh : Option (FilePath × Text)) → (ssh_check ssh).ok ≡ is_some ssh
unfolding ssh_check
ssh_check-ok none = refl
ssh_check-ok (some found) = refl

interval_check-ok : (r : Result ConfigError ℕ) → (interval_check r).ok ≡ is_ok r
unfolding interval_check
interval_check-ok (ok secs) = refl
interval_check-ok (err e) = refl

-- What the two checks on Unix amount to.
abbrev unix_verdict : Bool → Bool → ℕ → Bool
unix_verdict windows home user = if windows then true else home && not (user == 0)

-- What the checks amount to.
abbrev verdict : Bool → Bool → ℕ → Bool → ℕ → Bool
verdict ssh unix limit readable memory =
    ssh && (unix && (ltb 0 limit && (readable && ltb 32 memory)))

report-verdict :
    (os : System) (ssh : Option (FilePath × Text)) (path : Result ConfigError FilePath)
    (interval : Result ConfigError ℕ) (d : DaemonState)
    → all_ok (report os ssh path interval d)
      ≡ verdict
          (is_some ssh)
          (unix_verdict os.windows (owner_only (os.mode d.trace d.home)) os.geteuid)
          d.config.max_connections
          (is_ok interval)
          (os.available_memory d.trace / 1024 / 1024)
unfolding report unix_checks all_ok config_check home_check root_check max_check active_check
    plugins_check memory_check
report-verdict os ssh path interval d =
    rw (ssh_check-ok ssh, interval_check-ok interval) (ground arith)

unix_verdict_iff :
    (windows home : Bool) (user : ℕ)
    → (unix_verdict windows home user ≡ true) ↔ (windows ≡ false → (home ≡ true) × (user ≢ 0))
unix_verdict_iff true home user = (λ h e. cc, λ h. refl)
unix_verdict_iff false home user = (λ h e. ground arith, λ h. both home user (h refl))
  where
    both : (home : Bool) (user : ℕ) → (home ≡ true) × (user ≢ 0) → home && not (user == 0) ≡ true
    both home user h = ground arith

verdict_iff :
    (ssh unix : Bool) (limit : ℕ) (readable : Bool) (memory : ℕ)
    → (verdict ssh unix limit readable memory ≡ true)
      ↔ ((ssh ≡ true) × (unix ≡ true) × (0 < limit) × (readable ≡ true) × (32 < memory))
verdict_iff ssh unix limit readable memory = (λ h. ground arith, λ h. ground arith)

-- The permissions are 0700: of the mode, the last nine bits.
abbrev pub IsOwnerOnly : Option ℕ → Type 0
IsOwnerOnly mode = (n : ℕ) × (mode ≡ some n) × (n % 512 ≡ 7 * 64)

no_mode : {n : ℕ} → ◌≢◌ {A = Option ℕ} none (some n)
no_mode h = cc

owner_only_iff : (mode : Option ℕ) → (owner_only mode ≡ true) ↔ IsOwnerOnly mode
unfolding owner_only
owner_only_iff none = (λ h. cc, λ h. absurd (no_mode h.1))
owner_only_iff (some m) = (λ h. (m, refl, ground arith), back)
  where
    back : IsOwnerOnly (some m) → m % 512 == 448 ≡ true
    back (n, e, h) = let same : m ≡ n = some-injective _ _ e in ground arith

-- The report of `doctor` has no failed check exactly when an `ssh` binary answers, on Unix the home
-- directory has the permissions 0700 and the daemon does not run as root, `maxConnections` is not
-- 0, the interval of the health check is valid, and more than 32 MB of memory are free.
pub run-all_ok :
    (os : System) (d : DaemonState) (interval : Result ConfigError ℕ)
    → health_check_duration d.config ≡ some interval
    → let (answer, asked) = run os d in
      (Option.map all_ok answer ≡ some true) ↔ (
        (is_some (detect_ssh os d.trace).0 ≡ true)
        × (os.windows ≡ false → IsOwnerOnly (os.mode asked.trace d.home) × (os.geteuid ≢ 0))
        × (0 < d.config.max_connections)
        × (is_ok interval ≡ true)
        × (32 < os.available_memory asked.trace / 1024 / 1024))
unfolding run report_of
run-all_ok os d interval e =
    rw
      (
        e,
        report_of,
        report-verdict os (detect_ssh os d.trace).0 (config_path os (detect_ssh os d.trace).1).0
            interval (record d { trace = (config_path os (detect_ssh os d.trace).1).1 }),
      )
      (
        λ h.
            let v = (verdict_iff _ _ _ _ _).0 (some-injective _ _ h) in
            (v.0, λ w. to_mode ((unix_verdict_iff _ _ _).0 v.1 w), v.2, v.3, v.4),
        λ h. ap some (
            (verdict_iff _ _ _ _ _).1
              (h.0, (unix_verdict_iff _ _ _).1 (λ w. of_mode (h.1 w)), h.2, h.3, h.4)),
      )
  where
    asked : DaemonState
    asked = (run os d).1

    to_mode :
        (owner_only (os.mode asked.trace d.home) ≡ true) × (os.geteuid ≢ 0)
        → IsOwnerOnly (os.mode asked.trace d.home) × (os.geteuid ≢ 0)
    to_mode (m, u) = ((owner_only_iff (os.mode asked.trace d.home)).0 m, u)

    of_mode :
        IsOwnerOnly (os.mode asked.trace d.home) × (os.geteuid ≢ 0)
        → (owner_only (os.mode asked.trace d.home) ≡ true) × (os.geteuid ≢ 0)
    of_mode (m, u) = ((owner_only_iff (os.mode asked.trace d.home)).1 m, u)
