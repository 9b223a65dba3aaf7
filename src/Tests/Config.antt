-- ===== src/Tests/Config.antt =====
-- The durations of crates/config/src/lib.rs.
use sshflow.Config.{Config, default_config}
use sshflow.Config.Home.{sshflow_home, config_path, save, load}
use sshflow.Config.Home.Reloaded.{Files, load-load}
use sshflow.Core.Protocol.{FilePath, join}
use sshflow.System.{System, Trace, wrote_file}
use sshflow.Tests.System.{good_system}
use sshflow.Prelude.{
  ℕ, Text, Result, Option, is_some, text_eq, text_eq_refl, if◌then◌else◌, ◌≤◌, ◌≡◌, refl, ◌↔◌, [],
  ◌∷◌, ◌++◌, none, some, codes, ok, err, decimal, text_eq, parse_uint, arith,
}
use sshflow.Config.{is_whitespace, trim, parse_duration, invalid_duration}
use sshflow.Config.Durations.{parse_duration_panics, parse_duration-decimal}

parses_minutes : parse_duration (codes " 10m ") ≡ some (ok 600)
unfolding parse_duration parse_uint is_whitespace
parses_minutes = refl

rejects_days : parse_duration (codes "3d") ≡ some (err (invalid_duration (codes "3d")))
unfolding parse_duration parse_uint is_whitespace
rejects_days = refl

-- The last character is `é`.
parse_duration_panics_example :
    (parse_duration (codes " 10" ++ 0xe9 ∷ []) ≡ none)
    ↔ ((s : Text) × (c : ℕ) × (codes "10" ++ 0xe9 ∷ [] ≡ s ++ c ∷ []) × (0x80 ≤ c))
unfolding trim is_whitespace
parse_duration_panics_example = parse_duration_panics (codes " 10" ++ 0xe9 ∷ [])

parse_duration-decimal_example :
    (parse_duration (codes " " ++ ((decimal 10 ++ b's' ∷ []) ++ codes " ")) ≡ some (ok 10))
    × (parse_duration (codes " " ++ ((decimal 10 ++ b'm' ∷ []) ++ codes " ")) ≡ some (ok 600))
    × (parse_duration (codes " " ++ ((decimal 10 ++ b'h' ∷ []) ++ codes " ")) ≡ some (ok 36000))
unfolding is_whitespace text_eq
parse_duration-decimal_example =
    parse_duration-decimal (codes " ") (codes " ") 10 (refl, tt) (refl, tt) (omega arith)

-- The text that a file was given last.
abbrev written : Trace → FilePath → Option Text
written [] p = none
written (wrote_file q raw ∷ t) p = if text_eq q p then some raw else written t p
written (_ ∷ t) p = written t p

abbrev or_missing : Option Text → Result Text Text
or_missing none = err (codes "no such file")
or_missing (some raw) = ok raw

-- A system whose files are those that were written.
abbrev disk : System
disk = record good_system {
  exists = λ t p. is_some (written t p);
  read_to_string = λ t p. or_missing (written t p);
}

disk-Files : Files disk
disk-Files = record {
  by_write = λ t path raw e. (rw (text_eq_refl path) refl, rw (text_eq_refl path) refl);
  by_lookup = λ path raw. record { by_dir = λ p t h. h; by_mode = λ p m t h. h };
}

disk-home : (t : Trace) → (sshflow_home disk t).0 ≡ ok (codes "/home/u/.sshflow")
unfolding sshflow_home join
disk-home t = ground arith

abbrev to_yaml : Config → Text
to_yaml c = if c.reconnect then codes "reconnect: true" else codes "reconnect: false"

abbrev from_yaml : Text → Result Text Config
from_yaml raw = ok (record default_config { reconnect = text_eq raw (codes "reconnect: true") })

load-load_example :
    (load disk to_yaml from_yaml (load disk to_yaml from_yaml []).1).0 ≡ ok default_config
unfolding text_eq
load-load_example =
    load-load disk disk-Files to_yaml from_yaml (codes "/home/u/.sshflow") disk-home default_config
      [] refl loads_defaults
  where
    loads_defaults : (load disk to_yaml from_yaml []).0 ≡ ok default_config
    loads_defaults = unfold load config_path sshflow_home save join in refl
