-- ===== src/Core/HostTarget.antt =====
-- `HostTarget` of crates/core/src/lib.rs: `parse`, `key`, `socket_fingerprint`, `display`, and the
-- destination argument that crates/ssh/src/lib.rs builds from it.
pub mod Parse
pub mod Keys
pub mod RoundTrip
pub mod Bracketed
pub mod Fingerprint
use sshflow.Prelude.{
  ℕ, ◌≡◌, Bool, true, false, ◌&&◌, not, List, [], ◌∷◌, ◌++◌, Option, none, some, Text, codes,
  is_digit, starts_with_char, strip_prefix, split_once, rsplit_once, is_empty, all, Result, ok, err,
  ◌>>=◌, decimal, parse_uint, max_u16, if◌then◌else◌, unwrap_or,
}
use sshflow.Core.Errors.{SshFlowError, invalid_target, Fallible}

pub record HostTarget : Type 0 where
  pub user : Option Text
  pub host : Text
  pub port : Option ℕ

abbrev pub at_sign : ℕ
at_sign = b'@'

abbrev pub dash : ℕ
dash = b'-'

abbrev pub colon : ℕ
colon = b':'

-- `p.parse::<u16>().map_err(…)`.
pub parse_port : Text → Text → Fallible (Option ℕ)
parse_port raw p = elim (parse_uint max_u16 p) [
  | some n ↦ ok (some n)
  | none ↦ err (invalid_target raw (codes "invalid port"))
]

-- The part before the first `@`, and the rest.
parse_user : Text → Fallible (Option Text × Text)
parse_user raw = elim (split_once at_sign raw) [
  | none ↦ ok (none, raw)
  | some (u, r) ↦
      if is_empty u
      then err (invalid_target raw (codes "empty user before '@'"))
      else ok (some u, r)
]

-- What stands behind the closing bracket.
parse_tail : Text → Text → Fallible (Option ℕ)
parse_tail raw tail = elim (strip_prefix colon tail) [ none ↦ ok none | some p ↦ parse_port raw p ]

-- `[host]` or `[host]:port`, behind the opening bracket.
parse_bracketed : Text → Text → Fallible (Text × Option ℕ)
parse_bracketed raw stripped = elim (split_once b']' stripped) [
  | none ↦ err (invalid_target raw (codes "unterminated '['"))
  | some (h, tail) ↦ parse_tail raw tail >>= λ port. ok (h, port)
]

-- `host` or `host:port`: the last colon counts, if a host stands before it and digits behind it.
parse_plain : Text → Text → Fallible (Text × Option ℕ)
parse_plain raw rest = elim (rsplit_once colon rest) [
  | none ↦ ok (rest, none)
  | some (h, p) ↦
      if not (is_empty h) && all is_digit p
      then (parse_port raw p >>= λ port. ok (h, port))
      else ok (rest, none)
]

pub parse_host_port : Text → Text → Fallible (Text × Option ℕ)
unfolding parse_port parse_tail parse_bracketed parse_plain
parse_host_port raw rest = elim (strip_prefix b'[' rest) [
  | none ↦ parse_plain raw rest
  | some stripped ↦ parse_bracketed raw stripped
]

-- The parts are put together when the host does not start with a dash.
finish : Text → Option Text → Text × Option ℕ → Fallible HostTarget
finish raw user (host, port) =
    if starts_with_char dash host
    then err (invalid_target raw (codes "host must not start with '-'"))
    else ok (record { user = user; host = host; port = port })

parse_rest : Text → Option Text × Text → Fallible HostTarget
unfolding parse_host_port finish
parse_rest raw (user, rest) =
    if is_empty rest
    then err (invalid_target raw (codes "empty host"))
    else (parse_host_port raw rest >>= finish raw user)

unfoldable pub parse : Text → Fallible HostTarget
unfolding parse_user parse_rest
parse raw =
    if is_empty raw
    then err (invalid_target raw (codes "empty destination"))
    else if starts_with_char dash raw
    then err (invalid_target raw (codes "destination must not start with '-'"))
    else (parse_user raw >>= parse_rest raw)

abbrev port_text : Option ℕ → Text
port_text none = []
port_text (some p) = decimal p

unfoldable pub key : HostTarget → Text
key t = unwrap_or t.user [] ++ at_sign ∷ (t.host ++ colon ∷ port_text t.port)

-- The cases of `display`.
display_parts : Option Text → Text → Option ℕ → Text
display_parts (some u) host (some p) = u ++ at_sign ∷ (host ++ colon ∷ decimal p)
display_parts (some u) host none = u ++ at_sign ∷ host
display_parts none host (some p) = host ++ colon ∷ decimal p
display_parts none host none = host

unfoldable pub display : HostTarget → Text
unfolding display_parts
display t = display_parts t.user t.host t.port

destination_parts : Option Text → Text → Text
destination_parts (some u) host = u ++ at_sign ∷ host
destination_parts none host = host

-- The destination in a command line of `ssh`.
unfoldable pub destination_string : HostTarget → Text
unfolding destination_parts
destination_string t = destination_parts t.user t.host
