-- ===== src/Core/HostTarget/Keys.antt =====
-- `key` identifies a connection: distinct destinations have distinct keys.
use sshflow.Prelude.{
  ℕ, ◌≡◌, refl, sym, ◌∙◌, ap, [], ◌∷◌, ◌++◌, Option, none, some, Text, Lacks, All, split_once,
  split_once-append, rsplit_once, rsplit_once-append, decimal, decimal-All, decimal-ne-nil,
  decimal-injective, unwrap_or, arith, IsDigit, ok,
}
use sshflow.Core.HostTarget.{HostTarget, key, port_text, at_sign, colon, parse}
use sshflow.Core.HostTarget.Parse.{IsUser, IsParsed, parse-IsParsed}

Lacks-user : (user : Option Text) → IsUser user → Lacks at_sign (unwrap_or user [])
Lacks-user none h = tt
Lacks-user (some u) h = h.1

pub digits-Lacks : (s : Text) → All IsDigit s → Lacks colon s
digits-Lacks [] a = tt
digits-Lacks (c ∷ s) a = (omega arith, digits-Lacks s a.1)

Lacks-port : (port : Option ℕ) → Lacks colon (port_text port)
Lacks-port none = tt
Lacks-port (some p) = digits-Lacks (decimal p) (decimal-All p)

user-injective : (u v : Option Text) → IsUser u → IsUser v → unwrap_or u [] ≡ unwrap_or v [] → u ≡ v
user-injective none none hu hv e = refl
user-injective none (some v) hu hv e = absurd (hv.0 (sym e))
user-injective (some u) none hu hv e = absurd (hu.0 e)
user-injective (some u) (some v) hu hv e = ap some e

port_text-injective : (p q : Option ℕ) → port_text p ≡ port_text q → p ≡ q
port_text-injective none none e = refl
port_text-injective none (some q) e = absurd (decimal-ne-nil q (sym e))
port_text-injective (some p) none e = absurd (decimal-ne-nil p e)
port_text-injective (some p) (some q) e = ap some (decimal-injective p q e)

-- The user of a key is what stands before its first `@`, the port what stands behind its last `:`.
split-key :
    (t : HostTarget)
    → IsParsed t
    → split_once at_sign (key t) ≡ some (unwrap_or t.user [], t.host ++ colon ∷ port_text t.port)
unfolding key
split-key t v = split_once-append at_sign (unwrap_or t.user []) _ (Lacks-user t.user v.user)

-- Well-formed destinations with one key are one destination.
pub key-injective : (s t : HostTarget) → IsParsed s → IsParsed t → key s ≡ key t → s ≡ t
key-injective s t v w e =
    let halves = sym (split-key s v) ∙ ap (split_once at_sign) e ∙ split-key t w in
    let users : unwrap_or s.user [] ≡ unwrap_or t.user [] = ground arith in
    let rests : s.host ++ colon ∷ port_text s.port ≡ t.host ++ colon ∷ port_text t.port =
      ground arith in
    let ends =
      sym (rsplit_once-append colon s.host (port_text s.port) (Lacks-port s.port))
      ∙ ap (rsplit_once colon) rests
      ∙ rsplit_once-append colon t.host (port_text t.port) (Lacks-port t.port) in
    let ports : port_text s.port ≡ port_text t.port = ground arith in
    let same_user = user-injective s.user t.user v.user w.user users in
    let same_port = port_text-injective s.port t.port ports in
    let same_host : s.host ≡ t.host = ground arith in
    λ i. record { user = same_user i; host = same_host i; port = same_port i }

-- Two accepted destinations with one key have the same user, host and port: distinct destinations
-- never share a connection.
pub parse-key :
    (a b : Text) (s t : HostTarget) → parse a ≡ ok s → parse b ≡ ok t → key s ≡ key t → s ≡ t
parse-key a b s t p q e = key-injective s t (parse-IsParsed a s p) (parse-IsParsed b t q) e
