-- ===== src/Config/Durations.antt =====
-- What `parse_duration` reads, and where it panics.
use sshflow.Prelude.{
  ℕ, suc, ◌+◌, ◌-◌, ◌*◌, ◌%◌, ◌^◌, ◌≤◌, ◌<◌, ◌≡◌, ◌≢◌, refl, sym, ◌∙◌, ap, ◌↔◌, ◌⊎◌, inl, inr, true,
  false, [], ◌∷◌, ◌++◌, none, some, Text, All, IsDigit, decimal, decimal-All, decimal-ne-nil,
  parse_uint-decimal, append_assoc, append-nil, lt→ltb, text_eq, max_u64, ok, arith, is_empty,
  Bool-cases, ltb, leb, if◌then◌else◌,
}
use sshflow.Config.{
  is_whitespace, trim_start, trim_end, trim, cons_first, len_utf8, byte_len, split_at,
  duration_parts, duration_trimmed, parse_duration, unit_seconds,
}

byte_len-append : (s t : Text) → byte_len (s ++ t) ≡ byte_len s + byte_len t
unfolding byte_len
byte_len-append [] t = omega arith
byte_len-append (c ∷ s) t = omega (arith, byte_len-append s t)

len_utf8_pos : (c : ℕ) → 0 < len_utf8 c
len_utf8_pos c = ground arith

split_at-suc :
    (c : ℕ) (s : Text) (k m : ℕ)
    → suc k ≡ len_utf8 c + m
    → split_at (c ∷ s) (suc k) ≡ cons_first c (split_at s m)
unfolding split_at
split_at-suc c s k m e =
    let fits : leb (len_utf8 c) (suc k) ≡ true = ground arith in
    let left : suc k - len_utf8 c ≡ m = omega arith in rw (fits, left)

split_at-cons :
    (c : ℕ) (s : Text) (m : ℕ) → split_at (c ∷ s) (len_utf8 c + m) ≡ cons_first c (split_at s m)
split_at-cons c s m =
    let e : len_utf8 c + m ≡ suc (len_utf8 c + m - 1) = omega (arith, len_utf8_pos c) in
    rw e (split_at-suc c s (len_utf8 c + m - 1) m (sym e))

-- A text splits at the end of its first part.
split_at-append : (s t : Text) → split_at (s ++ t) (byte_len s) ≡ some (s, t)
unfolding split_at byte_len
split_at-append [] t = refl
split_at-append (c ∷ s) t =
    split_at-cons c (s ++ t) (byte_len s) ∙ ap (cons_first c) (split_at-append s t)

-- A text does not split inside a character.
split_at_inside :
    (s : Text) (c k : ℕ) → suc k < len_utf8 c → split_at (s ++ c ∷ []) (byte_len s + suc k) ≡ none
unfolding split_at byte_len
split_at_inside [] c k h = ground arith
split_at_inside (d ∷ s) c k h =
    ap (split_at (d ∷ (s ++ c ∷ []))) (omega arith)
    ∙ split_at-cons d (s ++ c ∷ []) (byte_len s + suc k)
    ∙ ap (cons_first d) (split_at_inside s c k h)

-- The last character, when it is a single byte, is split off; otherwise the split panics.
split_at_last :
    (s : Text) (c : ℕ)
    → split_at (s ++ c ∷ []) (byte_len (s ++ c ∷ []) - 1)
      ≡ (if ltb c 0x80 then some (s, c ∷ []) else none)
unfolding byte_len
split_at_last s c = elim (Bool-cases (ltb c 0x80)) [
  | inl e ↦ rw e (
      ap (split_at (s ++ c ∷ [])) (ground (arith, byte_len-append s (c ∷ [])))
      ∙ split_at-append s (c ∷ []))
  | inr e ↦ rw e (
      ap (split_at (s ++ c ∷ [])) (ground (arith, byte_len-append s (c ∷ [])))
      ∙ split_at_inside s c (len_utf8 c - 2) (ground arith))
]

snoc-filled : (s : Text) (c : ℕ) → is_empty (s ++ c ∷ []) ≡ false
snoc-filled [] c = refl
snoc-filled (d ∷ s) c = refl

duration_trimmed-snoc :
    (s : Text) (c : ℕ)
    → duration_trimmed (s ++ c ∷ [])
      ≡ (if ltb c 0x80 then some (duration_parts (s ++ c ∷ []) (s, c ∷ [])) else none)
unfolding duration_trimmed
duration_trimmed-snoc s c = rw (snoc-filled s c, duration_trimmed, split_at_last s c) (ground arith)

parse_duration-trim : (raw : Text) → parse_duration raw ≡ duration_trimmed (trim raw)
unfolding parse_duration
parse_duration-trim raw = refl

-- A text is empty, or it has a last character.
snoc-cases : (s : Text) → (s ≡ []) ⊎ ((a : Text) × (c : ℕ) × (s ≡ a ++ c ∷ []))
snoc-cases [] = inl refl
snoc-cases (d ∷ s) = elim (snoc-cases s) [
  | inl e ↦ inr ([], d, ap (◌∷◌ d) e)
  | inr (a, c, e) ↦ inr (d ∷ a, c, ap (◌∷◌ d) e)
]

duration_trimmed_panics :
    (raw : Text)
    → (duration_trimmed raw ≡ none) ↔ ((s : Text) × (c : ℕ) × (raw ≡ s ++ c ∷ []) × (0x80 ≤ c))
unfolding duration_trimmed
duration_trimmed_panics raw = (forth, back)
  where
    forth : duration_trimmed raw ≡ none → (s : Text) × (c : ℕ) × (raw ≡ s ++ c ∷ []) × (0x80 ≤ c)
    forth h = elim (snoc-cases raw) [
      | inl e ↦ let filled : duration_trimmed [] ≡ none = ap duration_trimmed (sym e) ∙ h in cc
      | inr (s, c, e) ↦
          let split = sym (duration_trimmed-snoc s c) ∙ ap duration_trimmed (sym e) ∙ h in
          (s, c, e, ground arith)
    ]

    back : (s : Text) × (c : ℕ) × (raw ≡ s ++ c ∷ []) × (0x80 ≤ c) → duration_trimmed raw ≡ none
    back (s, c, e, h) = ap duration_trimmed e ∙ duration_trimmed-snoc s c ∙ ground arith

-- `parse_duration` panics exactly on a text whose last character, spaces around it aside, is not
-- an ASCII one.
pub parse_duration_panics :
    (raw : Text)
    → (parse_duration raw ≡ none) ↔ ((s : Text) × (c : ℕ) × (trim raw ≡ s ++ c ∷ []) × (0x80 ≤ c))
parse_duration_panics raw = rw (parse_duration-trim raw) (duration_trimmed_panics (trim raw))

abbrev pub IsSpaces : Text → Type 0
IsSpaces = All (λ c. is_whitespace c ≡ true)

trim_start-append : (a s : Text) → IsSpaces a → trim_start (a ++ s) ≡ trim_start s
unfolding trim_start
trim_start-append [] s h = refl
trim_start-append (c ∷ a) s h = rw h.0 (trim_start-append a s h.1)

trim_end-IsSpaces : (b : Text) → IsSpaces b → trim_end b ≡ []
unfolding trim_end
trim_end-IsSpaces [] h = refl
trim_end-IsSpaces (c ∷ b) h = rw (trim_end-IsSpaces b h.1, h.0)

trim_end-append : (s b : Text) → IsSpaces b → trim_end (s ++ b) ≡ trim_end s
unfolding trim_end
trim_end-append [] b h = trim_end-IsSpaces b h
trim_end-append (c ∷ s) b h = rw (trim_end-append s b h)

trim_end-snoc : (s : Text) (c : ℕ) → is_whitespace c ≡ false → trim_end (s ++ c ∷ []) ≡ s ++ c ∷ []
unfolding trim_end
trim_end-snoc [] c h = rw h
trim_end-snoc (d ∷ s) c h = rw (trim_end-snoc s c h, snoc-filled s c)

digit-not-space : (c : ℕ) → IsDigit c → is_whitespace c ≡ false
unfolding is_whitespace
digit-not-space c h = ground arith

trim_start-digits : (s t : Text) → s ≢ [] → All IsDigit s → trim_start (s ++ t) ≡ s ++ t
unfolding trim_start
trim_start-digits [] t h a = absurd (h refl)
trim_start-digits (c ∷ s) t h a = rw (digit-not-space c a.0)

trim-padded :
    (a s b : Text) (u : ℕ)
    → IsSpaces a
    → IsSpaces b
    → s ≢ []
    → All IsDigit s
    → is_whitespace u ≡ false
    → trim (a ++ ((s ++ u ∷ []) ++ b)) ≡ s ++ u ∷ []
unfolding trim
trim-padded a s b u ha hb filled ds hu =
    rw
      (
        trim_start-append a ((s ++ u ∷ []) ++ b) ha,
        append_assoc s (u ∷ []) b,
        trim_start-digits s (u ∷ b) filled ds,
        ← append_assoc s (u ∷ []) b,
        trim_end-append (s ++ u ∷ []) b hb,
      )
      (trim_end-snoc s u hu)

-- The characters that name a unit.
unit_shape : (u k : ℕ) → unit_seconds (u ∷ []) ≡ some k → (is_whitespace u ≡ false) × (u < 0x80)
unfolding is_whitespace text_eq
unit_shape u k h = ground arith

duration_parts-decimal :
    (raw : Text) (n u k : ℕ)
    → n ≤ max_u64
    → unit_seconds (u ∷ []) ≡ some k
    → duration_parts raw (decimal n, u ∷ []) ≡ ok (n * k % 2 ^ 64)
unfolding duration_parts
duration_parts-decimal raw n u k fits h = rw (parse_uint-decimal max_u64 n fits, duration_parts, h)

parse_duration-unit :
    (a b : Text) (n u k : ℕ)
    → IsSpaces a
    → IsSpaces b
    → n ≤ max_u64
    → unit_seconds (u ∷ []) ≡ some k
    → parse_duration (a ++ ((decimal n ++ u ∷ []) ++ b)) ≡ some (ok (n * k % 2 ^ 64))
parse_duration-unit a b n u k ha hb fits h =
    let (solid, ascii) = unit_shape u k h in
    parse_duration-trim (a ++ ((decimal n ++ u ∷ []) ++ b))
    ∙ ap duration_trimmed
        (trim-padded a (decimal n) b u ha hb (decimal-ne-nil n) (decimal-All n) solid)
    ∙ duration_trimmed-snoc (decimal n) u
    ∙ rw (lt→ltb u 0x80 ascii) (ap some (duration_parts-decimal (decimal n ++ u ∷ []) n u k fits h))

-- A `u64` in front of `s`, with spaces around, is read as that many seconds, in front of `m` as 60
-- times and in front of `h` as 3600 times as many, reduced modulo 2^64: the products are not checked
-- for overflow.
pub parse_duration-decimal :
    (a b : Text) (n : ℕ)
    → IsSpaces a
    → IsSpaces b
    → n ≤ max_u64
    → (parse_duration (a ++ ((decimal n ++ b's' ∷ []) ++ b)) ≡ some (ok n))
      × (parse_duration (a ++ ((decimal n ++ b'm' ∷ []) ++ b)) ≡ some (ok (n * 60 % 2 ^ 64)))
      × (parse_duration (a ++ ((decimal n ++ b'h' ∷ []) ++ b)) ≡ some (ok (n * 3600 % 2 ^ 64)))
unfolding text_eq
parse_duration-decimal a b n ha hb fits = (
  parse_duration-unit a b n b's' 1 ha hb fits refl ∙ ap (λ k. some (ok k)) (omega arith),
  parse_duration-unit a b n b'm' 60 ha hb fits refl,
  parse_duration-unit a b n b'h' 3600 ha hb fits refl,
)

-- So a number of hours that does not fit in `u64` as seconds is read as another duration.
parse_duration_wraps :
    (n : ℕ)
    → n ≤ max_u64
    → 2 ^ 64 ≤ n * 3600
    → (r : ℕ) × (parse_duration (decimal n ++ b'h' ∷ []) ≡ some (ok r)) × (r < n * 3600)
unfolding text_eq
parse_duration_wraps n fits big = (
  n * 3600 % 2 ^ 64,
  rw (← append-nil (decimal n ++ b'h' ∷ []))
      (parse_duration-unit [] [] n b'h' 3600 tt tt fits refl),
  omega arith,
)
