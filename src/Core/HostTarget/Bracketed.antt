-- ===== src/Core/HostTarget/Bracketed.antt =====
-- Destinations with the host in brackets.
use sshflow.Prelude.{
  ℕ, ◌≡◌, ◌≢◌, refl, false, [], ◌∷◌, ◌++◌, Option, none, some, Text, Lacks, starts_with_char,
  split_once-append, decimal, ok,
}
use sshflow.Core.HostTarget.{parse, parse_tail, parse_bracketed, parse_host_port, dash, colon}
use sshflow.Core.HostTarget.Parse.{IsUser, IsPort}
use sshflow.Core.HostTarget.RoundTrip.{IsSplit, with_user, parse-with_user, parse_port-decimal}

-- `[host]` and `[host]:port`.
abbrev bracketed : Text → Option ℕ → Text
bracketed host none = b'[' ∷ (host ++ b']' ∷ [])
bracketed host (some p) = b'[' ∷ (host ++ b']' ∷ colon ∷ decimal p)

parse_host_port-bracketed :
    (raw host : Text) (port : Option ℕ)
    → Lacks b']' host
    → IsPort port
    → parse_host_port raw (bracketed host port) ≡ ok (host, port)
unfolding parse_host_port parse_bracketed parse_tail
parse_host_port-bracketed raw host none h p = rw (split_once-append b']' host [] h, parse_bracketed)
parse_host_port-bracketed raw host (some n) h p =
    rw (
      split_once-append b']' host (colon ∷ decimal n) h,
      parse_bracketed,
      parse_port-decimal raw n p,
    )

bracketed-start :
    (host : Text) (port : Option ℕ)
    → (starts_with_char dash (bracketed host port) ≡ false) × (bracketed host port ≢ [])
bracketed-start host none = (refl, (cc))
bracketed-start host (some p) = (refl, (cc))

-- A host in brackets is taken as it stands, colons included, with or without a user and a port,
-- as long as it has no closing bracket and no dash in front.
parse-bracketed :
    (user : Option Text) (host : Text) (port : Option ℕ)
    → IsUser user
    → IsSplit user (bracketed host port)
    → Lacks b']' host
    → starts_with_char dash host ≡ false
    → IsPort port
    → parse (with_user user (bracketed host port))
      ≡ ok (record { user = user; host = host; port = port })
parse-bracketed user host port u s h d p =
    let (starts, filled) = bracketed-start host port in
    parse-with_user user (bracketed host port) host port u s filled starts
      (parse_host_port-bracketed _ host port h p) d
