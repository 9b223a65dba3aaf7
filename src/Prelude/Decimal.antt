-- ===== src/Prelude/Decimal.antt =====
-- Unsigned numbers printed by `to_string` and read by `str::parse`.
use Prim.Native.Nat.{ℕ, zero, suc, ◌+◌, ◌-◌, ◌*◌, ◌/◌, ◌%◌, ◌^◌, ◌≤◌, ◌<◌}
use mathlib.Core.Path.{◌≡◌, refl}
use mathlib.Core.Logic.{◌≢◌}
use mathlib.Core.Option.{Option, none, some}
use mathlib.Core.List.{[], ◌∷◌}
use native.Mathlib.Omega.{arith}
use sshflow.Prelude.Tests.{◌==◌, if◌then◌else◌, leb, ltb}
use sshflow.Prelude.Lists.{All}
use sshflow.Prelude.Strings.{Text, is_digit, IsDigit}

-- A digit is written in front of `out`; the fuel bounds the number.
digits : ℕ → ℕ → Text → Text
digits zero n out = out
digits (suc f) n out =
    let rest = digits f (n / 10) ((b'0' + n % 10) ∷ out) in
    if ltb n 10 then (b'0' + n) ∷ out else rest

unfoldable pub decimal : ℕ → Text
unfolding digits
decimal n = digits (suc n) n []

-- The digits behind a number `n`; `none` on a character that is no digit, and on overflow.
scan : ℕ → Text → ℕ → Option ℕ
scan limit [] n = some n
scan limit (c ∷ s) n =
    let m = n * 10 + (c - b'0') in
    let rest = scan limit s m in if is_digit c then (if leb m limit then rest else none) else none

-- One leading `+` is skipped unless it stands alone.
unfoldable pub parse_uint : ℕ → Text → Option ℕ
unfolding scan
parse_uint limit [] = none
parse_uint limit (c ∷ []) = scan limit (c ∷ []) 0
parse_uint limit (c ∷ d ∷ s) = if c == b'+' then scan limit (d ∷ s) 0 else scan limit (c ∷ d ∷ s) 0

abbrev pub max_u16 : ℕ
max_u16 = 2 ^ 16 - 1

abbrev pub max_u64 : ℕ
max_u64 = 2 ^ 64 - 1

-- The sum of two `u64`, which wraps in a release build.
abbrev pub add_u64 : ℕ → ℕ → ℕ
add_u64 a b = (a + b) % 2 ^ 64

digits-All : (f n : ℕ) (out : Text) → n < f → All IsDigit out → All IsDigit (digits f n out)
unfolding digits
digits-All zero n out h a = elim h [ ]
digits-All (suc f) n out h a = ground (arith, digits-All f (n / 10) ((b'0' + n % 10) ∷ out))

digits-ne-nil : (f n : ℕ) (out : Text) → n < f → digits f n out ≢ []
unfolding digits
digits-ne-nil zero n out h = elim h [ ]
digits-ne-nil (suc f) n out h = ground (arith, digits-ne-nil f (n / 10) ((b'0' + n % 10) ∷ out))

scan-digits :
    (limit f n : ℕ) (out : Text)
    → n < f
    → n ≤ limit
    → scan limit (digits f n out) 0 ≡ scan limit out n
unfolding digits scan
scan-digits limit zero n out h fits = elim h [ ]
scan-digits limit (suc f) n out h fits =
    ground (arith, scan-digits limit f (n / 10) ((b'0' + n % 10) ∷ out))

pub decimal-All : (n : ℕ) → All IsDigit (decimal n)
unfolding decimal
decimal-All n = digits-All (suc n) n [] (omega arith) tt

pub decimal-ne-nil : (n : ℕ) → decimal n ≢ []
unfolding decimal
decimal-ne-nil n = digits-ne-nil (suc n) n [] (omega arith)

scan-decimal : (limit n : ℕ) → n ≤ limit → scan limit (decimal n) 0 ≡ some n
unfolding decimal
scan-decimal limit n fits = unfold scan in scan-digits limit (suc n) n [] (omega arith) fits

parse_uint-scan :
    (limit : ℕ) (s : Text) → All IsDigit s → s ≢ [] → parse_uint limit s ≡ scan limit s 0
unfolding parse_uint
parse_uint-scan limit [] a h = absurd (h refl)
parse_uint-scan limit (c ∷ []) a h = refl
parse_uint-scan limit (c ∷ d ∷ s) a h = ground arith

-- A printed number is read back when it fits.
pub parse_uint-decimal : (limit n : ℕ) → n ≤ limit → parse_uint limit (decimal n) ≡ some n
parse_uint-decimal limit n fits =
    rw (parse_uint-scan limit (decimal n) (decimal-All n) (decimal-ne-nil n))
      (scan-decimal limit n fits)

scan-le : (limit : ℕ) (s : Text) (n r : ℕ) → n ≤ limit → scan limit s n ≡ some r → r ≤ limit
unfolding scan
scan-le limit [] n r fits h = ground arith
scan-le limit (c ∷ s) n r fits h = ground (arith, scan-le limit s (n * 10 + (c - b'0')) r)

-- What is read fits the type.
pub parse_uint-le : (limit : ℕ) (s : Text) (r : ℕ) → parse_uint limit s ≡ some r → r ≤ limit
unfolding parse_uint
parse_uint-le limit [] r h = cc
parse_uint-le limit (c ∷ []) r h = scan-le limit (c ∷ []) 0 r (omega arith) h
parse_uint-le limit (c ∷ d ∷ s) r h =
    ground (arith, scan-le limit (c ∷ d ∷ s) 0 r, scan-le limit (d ∷ s) 0 r)

pub decimal-injective : (m n : ℕ) → decimal m ≡ decimal n → m ≡ n
decimal-injective m n e =
    cc (scan-decimal (m + n) m (omega arith), scan-decimal (m + n) n (omega arith), e)
