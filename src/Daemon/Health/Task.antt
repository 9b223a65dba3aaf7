-- ===== src/Daemon/Health/Task.antt =====
-- `run` of crates/daemon/src/health.rs: the task around the rounds.
use sshflow.Prelude.{ℕ, List, [], ◌∷◌, Option, none, some, Result, ok, err, ◌==◌, if◌then◌else◌}
use sshflow.Config.{ConfigError, health_check_duration}
use sshflow.System.{System}
use sshflow.Daemon.State.{DaemonState}
use sshflow.Daemon.Health.{goes_on, panics, check_all}

-- A turn of the loop, or what other tasks leave before the next one.
pub data Turn : Type 0 where
  tick : Turn
  changed : Turn
  meanwhile : DaemonState → Turn

pub data Task : Type 0 where
  waiting : DaemonState → Task
  over : DaemonState → Task
  panicked : DaemonState → Task

abbrev or_half_minute : Result ConfigError ℕ → ℕ
or_half_minute (ok secs) = secs
or_half_minute (err e) = 30

module _ (os : System) where
  unfoldable pub turns : List Turn → DaemonState → Task
  turns [] d = waiting d
  turns (tick ∷ ts) d = elim (check_all os d) [ goes_on d' ↦ turns ts d' | panics d' ↦ panicked d' ]
  turns (changed ∷ ts) d = let rest = turns ts d in if d.shutdown then over d else rest
  turns (meanwhile d' ∷ ts) d = turns ts d'

  -- `tokio::time::interval` panics on a period of zero, as it documents.
  watch : List Turn → Option (Result ConfigError ℕ) → DaemonState → Task
  watch ts none d = panicked d
  watch ts (some interval) d =
      let rest = turns ts d in if or_half_minute interval == 0 then panicked d else rest

  unfoldable pub run : List Turn → DaemonState → Task
  unfolding watch
  run ts d = watch ts (health_check_duration d.config) d
