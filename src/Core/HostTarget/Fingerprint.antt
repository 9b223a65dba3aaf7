-- ===== src/Core/HostTarget/Fingerprint.antt =====
-- `socket_fingerprint`: the standard hasher's 64-bit hash of the key, in 16 hexadecimal digits.
use native.Mathlib.Nat.{pow-suc}
use sshflow.Prelude.{
  ℕ, zero, suc, ◌+◌, ◌-◌, ◌*◌, ◌/◌, ◌%◌, ◌^◌, ◌≤◌, ◌<◌, ◌≡◌, sym, ◌∙◌, ap, ◌↔◌, ◌⊎◌, [], ◌∷◌, Text,
  All, length, ltb, if◌then◌else◌, arith,
}
use sshflow.Core.HostTarget.{HostTarget, key}

-- A digit of `{:x}`.
unfoldable pub hex_digit : ℕ → ℕ
hex_digit d = if ltb d 10 then b'0' + d else b'a' + (d - 10)

-- The last `k` hexadecimal digits of a number, in front of `out`.
unfoldable pub hex : ℕ → ℕ → Text → Text
hex zero n out = out
hex (suc k) n out = hex k (n / 16) (hex_digit (n % 16) ∷ out)

-- `hash` is the algorithm of `DefaultHasher`, which the standard library leaves open.
unfoldable pub socket_fingerprint : (Text → ℕ) → HostTarget → Text
unfolding hex hex_digit
socket_fingerprint hash t = hex 16 (hash (key t)) []

-- A lower-case hexadecimal digit.
abbrev pub IsHex : ℕ → Type 0
IsHex c = ((b'0' ≤ c) × (c ≤ b'9')) ⊎ ((b'a' ≤ c) × (c ≤ b'f'))

hex_digit-IsHex : (d : ℕ) → d < 16 → IsHex (hex_digit d)
unfolding hex_digit
hex_digit-IsHex d h = ground arith

pub hex_shape :
    (k n : ℕ) (out : Text)
    → All IsHex out
    → All IsHex (hex k n out) × (length (hex k n out) ≡ k + length out)
unfolding hex
hex_shape zero n out a = (a, omega arith)
hex_shape (suc k) n out a =
    let (chars, size) =
      hex_shape k (n / 16) (hex_digit (n % 16) ∷ out) (hex_digit-IsHex (n % 16) (omega arith), a) in
    (chars, omega arith)

digit_value : ℕ → ℕ
digit_value c = if ltb c b'a' then c - b'0' else c - b'a' + 10

digit_value-hex_digit : (d : ℕ) → d < 16 → digit_value (hex_digit d) ≡ d
unfolding digit_value hex_digit
digit_value-hex_digit d h = ground arith

value : Text → ℕ → ℕ
value [] n = n
value (c ∷ s) n = value s (n * 16 + digit_value c)

value-hex : (k n : ℕ) (out : Text) → n < 16 ^ k → value (hex k n out) 0 ≡ value out n
unfolding hex value
value-hex zero n out h = ap (value out) (omega arith)
value-hex (suc k) n out h =
    value-hex k (n / 16) (hex_digit (n % 16) ∷ out) (omega (arith, pow-suc 16 k))
    ∙ ap (value out) (omega (arith, digit_value-hex_digit (n % 16) (omega arith)))

-- The name of a control socket has 16 characters, each a lower-case hexadecimal digit, whatever
-- the user, host and port are.
socket_fingerprint_shape :
    (hash : Text → ℕ) (t : HostTarget)
    → All IsHex (socket_fingerprint hash t) × (length (socket_fingerprint hash t) ≡ 16)
unfolding socket_fingerprint
socket_fingerprint_shape hash t = hex_shape 16 (hash (key t)) [] tt

-- With a 64-bit hash, two destinations have one fingerprint exactly when their keys hash alike:
-- the padded print loses nothing.
socket_fingerprint_iff :
    (hash : Text → ℕ) (s t : HostTarget)
    → ((k : Text) → hash k < 2 ^ 64)
    → (socket_fingerprint hash s ≡ socket_fingerprint hash t) ↔ (hash (key s) ≡ hash (key t))
unfolding socket_fingerprint value
socket_fingerprint_iff hash s t h = (
  λ e.
      sym (value-hex 16 (hash (key s)) [] (h (key s)))
      ∙ ap (λ x. value x 0) e
      ∙ value-hex 16 (hash (key t)) [] (h (key t)),
  λ e. ap (λ n. hex 16 n []) e,
)
