-- ===== src/Config.antt =====
-- `Config` and `parse_duration` of crates/config/src/lib.rs; the directories and the file on disk are
-- in Config/Home. A duration is its number of seconds.
pub mod Durations
pub mod Home
pub mod Trim
use sshflow.Prelude.{
  ℕ, zero, suc, ◌+◌, ◌-◌, ◌*◌, ◌%◌, ◌^◌, Bool, true, false, ◌&&◌, ◌||◌, [], ◌∷◌, ◌++◌, Option, none,
  some, Text, codes, ltb, leb, ◌==◌, if◌then◌else◌, is_empty, parse_uint, max_u64, Result, ok, err,
  text_eq,
}

pub data ConfigError : Type 0 where
  no_home_dir : ConfigError
  io : Text → Text → ConfigError
  malformed : Text → Text → ConfigError
  invalid_duration : Text → ConfigError

-- The message of a `ConfigError`.
unfoldable pub config_error_text : ConfigError → Text
config_error_text no_home_dir = codes "could not determine home directory"
config_error_text (io path source) = codes "io error at " ++ path ++ codes ": " ++ source
config_error_text (malformed path source) = codes "failed to parse " ++ path ++ codes ": " ++ source
config_error_text (invalid_duration raw) =
    codes "invalid duration '" ++ raw ++ codes "' (expected e.g. '30s', '10m', '1h')"

pub record Config : Type 0 where
  pub auto_multiplex : Bool
  pub persist_time : Text
  pub health_check : Text
  pub reconnect : Bool
  pub max_connections : ℕ
  pub metrics : Bool
  pub plugins : Bool
  pub telemetry : Bool

abbrev pub default_config : Config
default_config = record {
  auto_multiplex = true;
  persist_time = codes "10m";
  health_check = codes "30s";
  reconnect = true;
  max_connections = 20;
  metrics = true;
  plugins = true;
  telemetry = false;
}

-- The characters of Unicode's `White_Space`.
unfoldable pub is_whitespace : ℕ → Bool
is_whitespace c =
    (leb 0x9 c && leb c 0xd)
    || c == 0x20
    || c == 0x85
    || c == 0xa0
    || c == 0x1680
    || (leb 0x2000 c && leb c 0x200a)
    || c == 0x2028
    || c == 0x2029
    || c == 0x202f
    || c == 0x205f
    || c == 0x3000

trim_start : Text → Text
trim_start [] = []
trim_start (c ∷ s) = if is_whitespace c then trim_start s else c ∷ s

trim_end : Text → Text
trim_end [] = []
trim_end (c ∷ s) = let t = trim_end s in if is_empty t && is_whitespace c then [] else c ∷ t

unfoldable pub trim : Text → Text
unfolding trim_start trim_end is_whitespace
trim s = trim_end (trim_start s)

-- The bytes of a character in UTF-8.
abbrev len_utf8 : ℕ → ℕ
len_utf8 c = if ltb c 0x80 then 1 else if ltb c 0x800 then 2 else if ltb c 0x10000 then 3 else 4

byte_len : Text → ℕ
byte_len [] = 0
byte_len (c ∷ s) = len_utf8 c + byte_len s

abbrev cons_first : ℕ → Option (Text × Text) → Option (Text × Text)
cons_first c none = none
cons_first c (some (a, b)) = some (c ∷ a, b)

-- `split_at` at a byte index: it panics, `none`, where the index is inside a character.
split_at : Text → ℕ → Option (Text × Text)
split_at s zero = some ([], s)
split_at [] (suc n) = none
split_at (c ∷ s) (suc n) =
    let rest = cons_first c (split_at s (suc n - len_utf8 c)) in
    if leb (len_utf8 c) (suc n) then rest else none

-- Seconds in a unit.
abbrev unit_seconds : Text → Option ℕ
unit_seconds unit =
    if text_eq unit (codes "s")
    then some 1
    else if text_eq unit (codes "m")
    then some 60
    else if text_eq unit (codes "h")
    then some 3600
    else none

-- The two halves of the text; the product is one of `u64`.
duration_parts : Text → Text × Text → Result ConfigError ℕ
duration_parts raw (num_part, unit) = elim (parse_uint max_u64 num_part) [
  | none ↦ err (invalid_duration raw)
  | some n ↦ elim (unit_seconds unit) [
    | none ↦ err (invalid_duration raw)
    | some k ↦ ok (n * k % 2 ^ 64)
  ]
]

duration_trimmed : Text → Option (Result ConfigError ℕ)
duration_trimmed raw =
    if is_empty raw
    then some (err (invalid_duration raw))
    else elim (split_at raw (byte_len raw - 1)) [
      | none ↦ none
      | some halves ↦ some (duration_parts raw halves)
    ]

-- `none` is a panic.
unfoldable pub parse_duration : Text → Option (Result ConfigError ℕ)
unfolding trim split_at byte_len duration_parts duration_trimmed text_eq
parse_duration raw = duration_trimmed (trim raw)

unfoldable pub health_check_duration : Config → Option (Result ConfigError ℕ)
health_check_duration c = parse_duration c.health_check

unfoldable pub persist_time_duration : Config → Option (Result ConfigError ℕ)
persist_time_duration c = parse_duration c.persist_time
