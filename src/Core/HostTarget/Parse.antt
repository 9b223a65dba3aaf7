-- ===== src/Core/HostTarget/Parse.antt =====
-- What a parsed destination is like.
use sshflow.Prelude.{
  ℕ, ◌≤◌, ◌≡◌, ◌≢◌, refl, ◌∙◌, subst, ◌==◌, inl, inr, false, [], ◌∷◌, ◌++◌, Option, none, some,
  Text, Lacks, starts_with_char, split_once, split_once_sound, ok, strip_prefix, rsplit_once, ◌>>=◌,
  >>=-eq-ok, err, parse_uint-le, max_u16, arith, Option-cases, Bool-cases,
}
use sshflow.Core.Errors.{Fallible}
use sshflow.Core.HostTarget.{
  HostTarget, parse, parse_port, parse_user, parse_tail, parse_bracketed, parse_plain,
  parse_host_port, finish, parse_rest, at_sign, colon, dash, destination_string, destination_parts,
}

-- A user is not empty, has no `@`, and does not start with a dash.
abbrev pub IsUser : Option Text → Type 0
IsUser none = Unit
IsUser (some u) = (u ≢ []) × Lacks at_sign u × (starts_with_char dash u ≡ false)

abbrev pub IsPort : Option ℕ → Type 0
IsPort none = Unit
IsPort (some p) = p ≤ max_u16

pub record IsParsed (t : HostTarget) : Type 0 where
  pub user : IsUser t.user
  pub host : starts_with_char dash t.host ≡ false
  pub port : IsPort t.port

starts-append : (u r : Text) → u ≢ [] → starts_with_char dash (u ++ r) ≡ starts_with_char dash u
starts-append [] r h = absurd (h refl)
starts-append (c ∷ u) r h = refl

parse_user-IsUser :
    (raw : Text) (user : Option Text) (rest : Text)
    → starts_with_char dash raw ≡ false
    → parse_user raw ≡ ok (user, rest)
    → IsUser user
unfolding parse_user
parse_user-IsUser raw none rest d h = tt
parse_user-IsUser raw (some []) rest d h = ground arith
parse_user-IsUser raw (some (c ∷ u)) rest d h =
    let found : split_once at_sign raw ≡ some (c ∷ u, rest) = ground arith in
    let (spelled, lacks) = split_once_sound at_sign raw (c ∷ u) rest found in
    ((cc), lacks, ground arith)

parse_port-IsPort : (raw p : Text) (port : Option ℕ) → parse_port raw p ≡ ok port → IsPort port
unfolding parse_port
parse_port-IsPort raw p none h = tt
parse_port-IsPort raw p (some n) h = ground (arith, parse_uint-le max_u16 p n)

bind-port :
    (m : Fallible (Option ℕ)) (h host : Text) (port : Option ℕ)
    → ◌>>=◌ {B = Text × Option ℕ} m (λ q. ok (h, q)) ≡ ok (host, port)
    → m ≡ ok port
bind-port (ok q) h host port e = ground arith
bind-port (err x) h host port e = cc

parse_tail-IsPort :
    (raw tail : Text) (port : Option ℕ) → parse_tail raw tail ≡ ok port → IsPort port
unfolding parse_tail
parse_tail-IsPort raw tail none h = tt
parse_tail-IsPort raw tail (some n) h = elim (Option-cases (strip_prefix colon tail)) [
  | inl e ↦ absurd (ground arith)
  | inr (p, e) ↦ parse_port-IsPort raw p (some n) (ground arith)
]

parse_bracketed-IsPort :
    (raw rest host : Text) (port : Option ℕ)
    → parse_bracketed raw rest ≡ ok (host, port)
    → IsPort port
unfolding parse_bracketed
parse_bracketed-IsPort raw rest host port h = elim (Option-cases (split_once b']' rest)) [
  | inl e ↦ absurd (ground arith)
  | inr ((a, tail), e) ↦
      parse_tail-IsPort raw tail port
        (bind-port (parse_tail raw tail) a host port (rw (e, parse_bracketed) at h))
]

parse_plain-IsPort :
    (raw rest host : Text) (port : Option ℕ) → parse_plain raw rest ≡ ok (host, port) → IsPort port
unfolding parse_plain
parse_plain-IsPort raw rest host none h = tt
parse_plain-IsPort raw rest host (some n) h = elim (Option-cases (rsplit_once colon rest)) [
  | inl e ↦ absurd (ground arith)
  | inr ((a, p), e) ↦ parse_port-IsPort raw p (some n) (ground arith)
]

parse_host_port-IsPort :
    (raw rest host : Text) (port : Option ℕ)
    → parse_host_port raw rest ≡ ok (host, port)
    → IsPort port
unfolding parse_host_port
parse_host_port-IsPort raw rest host port h = elim (Option-cases (strip_prefix b'[' rest)) [
  | inl e ↦ parse_plain-IsPort raw rest host port (rw (e, parse_host_port) at h)
  | inr (s, e) ↦ parse_bracketed-IsPort raw s host port (rw (e, parse_host_port) at h)
]

finish-IsParsed :
    (raw : Text) (user : Option Text) (host : Text) (port : Option ℕ) (t : HostTarget)
    → IsUser user
    → IsPort port
    → finish raw user (host, port) ≡ ok t
    → IsParsed t
unfolding finish
finish-IsParsed raw user host port t u p h = elim (Bool-cases (starts_with_char dash host)) [
  | inl e ↦ absurd (ground arith)
  | inr e ↦
      let made : HostTarget = record { user = user; host = host; port = port } in
      let same : made ≡ t = ground arith in
      subst IsParsed same (record { user = u; host = e; port = p })
]

parse_rest-IsParsed :
    (raw : Text) (user : Option Text) (rest : Text) (t : HostTarget)
    → IsUser user
    → parse_rest raw (user, rest) ≡ ok t
    → IsParsed t
unfolding parse_rest
parse_rest-IsParsed raw user [] t u h = cc
parse_rest-IsParsed raw user (c ∷ rest) t u h =
    let ((host, port), e, f) = >>=-eq-ok (parse_host_port raw (c ∷ rest)) (finish raw user) h in
    let p : IsPort port = parse_host_port-IsPort raw (c ∷ rest) host port e in
    finish-IsParsed raw user host port t u p f

-- Every accepted destination is well-formed.
pub parse-IsParsed : (raw : Text) (t : HostTarget) → parse raw ≡ ok t → IsParsed t
unfolding parse
parse-IsParsed [] t h = cc
parse-IsParsed (c ∷ raw) t h = elim (Bool-cases (c == dash)) [
  | inl e ↦ absurd (ground arith)
  | inr d ↦
      let ((user, rest), e, f) =
        >>=-eq-ok (parse_user (c ∷ raw)) (parse_rest (c ∷ raw)) (rw d at h) in
      parse_rest-IsParsed (c ∷ raw) user rest t (parse_user-IsUser (c ∷ raw) user rest d e) f
]

destination_parts_lem :
    (user : Option Text) (host : Text)
    → IsUser user
    → starts_with_char dash host ≡ false
    → starts_with_char dash (destination_parts user host) ≡ false
unfolding destination_parts
destination_parts_lem none host u h = h
destination_parts_lem (some u) host v h = starts-append u (at_sign ∷ host) v.0 ∙ v.2

pub destination_string-no_dash :
    (t : HostTarget) → IsParsed t → starts_with_char dash (destination_string t) ≡ false
unfolding destination_string
destination_string-no_dash t v = destination_parts_lem t.user t.host v.user v.host

-- A destination that was accepted is never read by `ssh` as an option: neither the argument
-- `user@host` nor the host alone starts with a dash.
pub parse_no_option :
    (raw : Text) (t : HostTarget)
    → parse raw ≡ ok t
    → (starts_with_char dash (destination_string t) ≡ false)
      × (starts_with_char dash t.host ≡ false)
parse_no_option raw t h = let v = parse-IsParsed raw t h in (destination_string-no_dash t v, v.host)
