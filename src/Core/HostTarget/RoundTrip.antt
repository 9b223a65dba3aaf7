-- ===== src/Core/HostTarget/RoundTrip.antt =====
-- `parse` against `display`, and the two forms with a port.
use sshflow.Prelude.{
  ℕ, ◌≤◌, ◌≡◌, ◌≢◌, refl, sym, ◌∙◌, ap, true, false, [], ◌∷◌, ◌++◌, Option, none, some, Text, Lacks,
  All, IsDigit, is_digit, all, is_empty, starts_with_char, strip_prefix, split_once-append,
  split_once-none, rsplit_once-append, rsplit_once-none, decimal, decimal-All, parse_uint-decimal,
  max_u16, arith, ok,
}
use sshflow.Core.HostTarget.{
  HostTarget, parse, parse_port, parse_user, parse_plain, parse_host_port, finish, parse_rest,
  at_sign, dash, colon, display, display_parts,
}
use sshflow.Core.Errors.{Fallible}
use sshflow.Core.HostTarget.Keys.{digits-Lacks}
use sshflow.Core.HostTarget.Parse.{IsUser, IsPort}

all-digits : (s : Text) → All IsDigit s → all is_digit s ≡ true
all-digits [] a = refl
all-digits (c ∷ s) a = ground (arith, all-digits s a.1)

-- The steps of `parse` put together.
parse_steps :
    (raw rest host : Text) (user : Option Text) (port : Option ℕ)
    → raw ≢ []
    → starts_with_char dash raw ≡ false
    → parse_user raw ≡ ok (user, rest)
    → rest ≢ []
    → parse_host_port raw rest ≡ ok (host, port)
    → starts_with_char dash host ≡ false
    → parse raw ≡ ok (record { user = user; host = host; port = port })
unfolding parse
parse_steps raw rest host user port a d u b p h = unfold parse_rest finish in ground arith

-- `user@` in front of a text, if there is a user.
abbrev pub with_user : Option Text → Text → Text
with_user none rest = rest
with_user (some u) rest = u ++ at_sign ∷ rest

-- A rest without a user in front of it has no `@`.
abbrev pub IsSplit : Option Text → Text → Type 0
IsSplit none rest = Lacks at_sign rest
IsSplit (some u) rest = Unit

parse_user-with_user :
    (user : Option Text) (rest : Text)
    → IsUser user
    → IsSplit user rest
    → parse_user (with_user user rest) ≡ ok (user, rest)
unfolding parse_user
parse_user-with_user none rest u h = rw (split_once-none at_sign rest h, parse_user)
parse_user-with_user (some []) rest u h = absurd (u.0 refl)
parse_user-with_user (some (c ∷ u)) rest v h =
    rw (split_once-append at_sign (c ∷ u) rest v.1, parse_user)

with_user-start :
    (user : Option Text) (rest : Text)
    → IsUser user
    → starts_with_char dash rest ≡ false
    → starts_with_char dash (with_user user rest) ≡ false
with_user-start none rest u h = h
with_user-start (some []) rest u h = absurd (u.0 refl)
with_user-start (some (c ∷ u)) rest v h = v.2

with_user-ne-nil :
    (user : Option Text) (rest : Text) → IsUser user → rest ≢ [] → with_user user rest ≢ []
with_user-ne-nil none rest u h = h
with_user-ne-nil (some []) rest u h = absurd (u.0 refl)
with_user-ne-nil (some (c ∷ u)) rest v h = cc

pub parse-with_user :
    (user : Option Text) (rest host : Text) (port : Option ℕ)
    → IsUser user
    → IsSplit user rest
    → rest ≢ []
    → starts_with_char dash rest ≡ false
    → parse_host_port (with_user user rest) rest ≡ ok (host, port)
    → starts_with_char dash host ≡ false
    → parse (with_user user rest) ≡ ok (record { user = user; host = host; port = port })
parse-with_user user rest host port u s b r p h =
    parse_steps (with_user user rest) rest host user port (with_user-ne-nil user rest u b)
      (with_user-start user rest u r) (parse_user-with_user user rest u s) b p h

pub parse_port-decimal :
    (raw : Text) (p : ℕ) → p ≤ max_u16 → parse_port raw (decimal p) ≡ ok (some p)
unfolding parse_port
parse_port-decimal raw p fits = rw (parse_uint-decimal max_u16 p fits, parse_port)

-- The text of a host and its port.
abbrev pub with_port : Text → Option ℕ → Text
with_port host none = host
with_port host (some p) = host ++ colon ∷ decimal p

-- A host that is written without brackets: not empty, and no bracket or dash in front. Without
-- a port behind it, it has no colon.
pub record IsPlain (host : Text) (port : Option ℕ) : Type 0 where
  pub filled : is_empty host ≡ false
  pub no_dash : starts_with_char dash host ≡ false
  pub no_bracket : starts_with_char b'[' host ≡ false
  pub fits : IsPort port
  pub no_colon : port ≡ none → Lacks colon host

parse_plain-with_port :
    (raw host : Text) (port : Option ℕ)
    → IsPlain host port
    → parse_plain raw (with_port host port) ≡ ok (host, port)
unfolding parse_plain
parse_plain-with_port raw host none v =
    rw (rsplit_once-none colon host (v.no_colon refl), parse_plain)
parse_plain-with_port raw host (some p) v = rw (
  rsplit_once-append colon host (decimal p) (digits-Lacks (decimal p) (decimal-All p)),
  parse_plain,
  v.filled,
  all-digits (decimal p) (decimal-All p),
  parse_port-decimal raw p v.fits,
)

strip_bracket :
    (host : Text) (port : Option ℕ)
    → IsPlain host port
    → strip_prefix b'[' (with_port host port) ≡ none
strip_bracket [] port v = absurd (ground arith)
strip_bracket (c ∷ host) none v = ground arith
strip_bracket (c ∷ host) (some p) v = ground arith

parse_host_port-with_port :
    (raw host : Text) (port : Option ℕ)
    → IsPlain host port
    → parse_host_port raw (with_port host port) ≡ ok (host, port)
unfolding parse_host_port
parse_host_port-with_port raw host port v =
    rw (strip_bracket host port v, parse_host_port) (parse_plain-with_port raw host port v)

with_port-ne-nil :
    (host : Text) (port : Option ℕ) → is_empty host ≡ false → with_port host port ≢ []
with_port-ne-nil [] port h = absurd (ground arith)
with_port-ne-nil (c ∷ host) none h = cc
with_port-ne-nil (c ∷ host) (some p) h = cc

with_port-start :
    (host : Text) (port : Option ℕ)
    → IsPlain host port
    → starts_with_char dash (with_port host port) ≡ false
with_port-start [] port v = absurd (ground arith)
with_port-start (c ∷ host) none v = v.no_dash
with_port-start (c ∷ host) (some p) v = v.no_dash

-- Destinations that survive being displayed.
pub record IsPrintable (t : HostTarget) : Type 0 where
  pub user : IsUser t.user
  pub plain : IsPlain t.host t.port
  pub split : IsSplit t.user (with_port t.host t.port)

display-with_user : (t : HostTarget) → display t ≡ with_user t.user (with_port t.host t.port)
unfolding display
display-with_user t = go t.user t.port
  where
    go :
        (user : Option Text) (port : Option ℕ)
        → display_parts user t.host port ≡ with_user user (with_port t.host port)
    go none none = refl
    go none (some p) = refl
    go (some u) none = refl
    go (some u) (some p) = refl

-- What `display` prints for a destination is parsed back to it, if the user is not empty, has no
-- `@` and no dash in front, the host is not empty and starts with neither a dash nor a bracket,
-- the port is a `u16`, a host without a port has no colon, and a host without a user no `@`.
pub parse-display : (t : HostTarget) → IsPrintable t → parse (display t) ≡ ok t
parse-display t v = rw (display-with_user t) (
    parse-with_user t.user (with_port t.host t.port) t.host t.port v.user v.split
      (with_port-ne-nil t.host t.port v.plain.filled) (with_port-start t.host t.port v.plain)
      (parse_host_port-with_port _ t.host t.port v.plain) v.plain.no_dash)

-- The display has no brackets, so a destination without a port whose host is a shorter host, a
-- colon and a decimal `u16` (as the IPv6 address `::1` is) is displayed like the shorter host with
-- that port, and reading the display gives this other destination: if the user is not empty, has no
-- `@` and no dash in front, the shorter host is not empty and starts with neither a dash nor
-- a bracket, and without a user the host has no `@`.
pub display_no_brackets :
    (user : Option Text) (host : Text) (p : ℕ) (t : HostTarget)
    → IsUser user
    → IsSplit user (with_port host (some p))
    → IsPlain host (some p)
    → t ≡ record { user = user; host = host ++ colon ∷ decimal p; port = none }
    → (parse (display t) ≡ ok (record { user = user; host = host; port = some p }))
      × (parse (display t) ≢ ok t)
display_no_brackets user host p t u s v e =
    (reread, λ same. absurd (clash t refl (sym same ∙ reread)))
  where
    clash :
        (r : HostTarget)
        → r ≡ t
        → ◌≡◌ {A = Fallible HostTarget}
            (ok r)
            (ok (record { user = user; host = host; port = some p }))
        → ⊥
    clash r q h =
        let ports : r.port ≡ some p = ground arith in
        let bare : r.port ≡ none = ap (λ x. x.port) (q ∙ e) in cc

    reread : parse (display t) ≡ ok (record { user = user; host = host; port = some p })
    reread =
        rw (display-with_user t, e)
          (parse-with_user user (with_port host (some p)) host (some p) u s
            (with_port-ne-nil host (some p) v.filled) (with_port-start host (some p) v)
            (parse_host_port-with_port _ host (some p) v) v.no_dash)
