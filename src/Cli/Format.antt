-- ===== src/Cli/Format.antt =====
-- What crates/cli/src/commands.rs writes with format strings.
use sshflow.Prelude.{
  ℕ, zero, suc, ◌+◌, ◌-◌, ◌*◌, ◌/◌, ◌%◌, List, [], ◌∷◌, ◌++◌, Text, codes, decimal, ltb,
  if◌then◌else◌, length, drop,
}
use sshflow.Core.Protocol.{Average}

-- The age of a time, as `fmt_ago` prints it: saturating in `u64`.
unfoldable pub fmt_ago : ℕ → ℕ → Text
fmt_ago now unix_secs =
    let delta = now - unix_secs in
    if ltb delta 60
    then decimal delta ++ codes "s ago"
    else if ltb delta 3600
    then decimal (delta / 60) ++ codes "m ago"
    else if ltb delta 86400
    then decimal (delta / 3600) ++ codes "h ago"
    else decimal (delta / 86400) ++ codes "d ago"

spaces : ℕ → Text
spaces zero = []
spaces (suc n) = b' ' ∷ spaces n

-- `{:<n}`: spaces behind a text up to a width in characters.
unfoldable pub pad : ℕ → Text → Text
unfolding spaces
pad n s = s ++ spaces (n - length s)

-- `{:.0}`: halves go to the even neighbour.
unfoldable pub rounded : Average → ℕ
rounded a =
    let q = a.sum / a.samples in
    let r = a.sum % a.samples in
    if ltb (2 * r) a.samples then q else if ltb a.samples (2 * r) then suc q else q + q % 2

-- The lines from `len.saturating_sub(n)` on.
unfoldable pub last_lines : ℕ → List Text → List Text
last_lines n all = drop (length all - n) all
