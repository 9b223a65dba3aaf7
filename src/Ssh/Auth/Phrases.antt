-- ===== src/Ssh/Auth/Phrases.antt =====
-- Which error texts ask for a terminal.
use mathlib.Core.Bool.{false≢true}
use sshflow.Prelude.{
  ℕ, ◌-◌, ◌+◌, ◌==◌, subst, ◌≤◌, ◌<◌, ◌≢◌, ◌≡◌, refl, sym, ◌∙◌, All, append_assoc, ap, ap₂, ◌↔◌,
  ◌⊎◌, inl, inr, Bool, true, false, ◌&&◌, ◌||◌, [], ◌∷◌, ◌++◌, map, Text, arith, leb, if◌then◌else◌,
  Bool-cases,
}
use sshflow.Ssh.Auth.{
  to_lowercase_char, to_lowercase, starts_with, contains, needs_interactive_auth,
}

-- `to_ascii_uppercase` of a character.
abbrev pub upper : ℕ → ℕ
upper c = if leb b'a' c && leb c b'z' then c - 32 else c

to_lowercase_char-upper : (c : ℕ) → to_lowercase_char (upper c) ≡ to_lowercase_char c
unfolding to_lowercase_char
to_lowercase_char-upper c = ground arith

to_lowercase-upper : (s : Text) → to_lowercase (map upper s) ≡ to_lowercase s
unfolding to_lowercase
to_lowercase-upper [] = refl
to_lowercase-upper (c ∷ s) = ap₂ ◌++◌ (to_lowercase_char-upper c) (to_lowercase-upper s)

starts_with-append : (p b : Text) → starts_with p (p ++ b) ≡ true
unfolding starts_with
starts_with-append [] b = refl
starts_with-append (c ∷ p) b = ground (arith, starts_with-append p b)

starts_with-contains : (p s : Text) → starts_with p s ≡ true → contains p s ≡ true
unfolding contains
starts_with-contains p [] h = h
starts_with-contains p (c ∷ s) h = rw h

contains-append : (p a b : Text) → contains p (a ++ (p ++ b)) ≡ true
unfolding contains
contains-append p [] b = starts_with-contains p (p ++ b) (starts_with-append p b)
contains-append p (c ∷ a) b = ground (arith, contains-append p a b)

pub or_iff :
    {P Q : Type 0} (b c : Bool) → (b ≡ true) ↔ P → (c ≡ true) ↔ Q → ((b || c) ≡ true) ↔ (P ⊎ Q)
or_iff true c p q = (λ h. inl (p.0 refl), λ h. refl)
or_iff false c p q =
    (λ h. inr (q.0 h), elim [ inl x ↦ absurd (false≢true (p.1 x)) | inr y ↦ q.1 y ])

-- The letter as it is, its capital, or the Kelvin sign for a `k`: what is read as `c`.
abbrev pub IsLetter : ℕ → ℕ → Type 0
IsLetter c d = (d ≡ c) ⊎ (((b'A' ≤ d) × (d ≤ b'Z') × (c ≡ d + 32)) ⊎ ((c ≡ b'k') × (d ≡ 0x212a)))

-- The second text is the first, in whatever case each of its letters is.
abbrev pub IsCase : Text → Text → Type 0
IsCase [] [] = Unit
IsCase (c ∷ p) (d ∷ w) = IsLetter c d × IsCase p w
IsCase _ _ = ⊥

-- The phrase stands somewhere in the text.
abbrev pub IsSaid : Text → Text → Type 0
IsSaid p s = (a w b : Text) × (s ≡ a ++ (w ++ b)) × IsCase p w

-- A character of a phrase: one of ASCII, and no capital.
abbrev pub IsSmall : ℕ → Type 0
IsSmall c = (c < 0x80) × ((c < b'A') ⊎ (b'Z' < c))

-- A phrase: it is not empty, and does not end in an `i`, which could be half of a letter.
abbrev pub IsPhrase : Text → Type 0
IsPhrase [] = ⊥
IsPhrase (c ∷ []) = IsSmall c × (c ≢ b'i')
IsPhrase (c ∷ d ∷ p) = IsSmall c × IsPhrase (d ∷ p)

IsPhrase-All : (p : Text) → IsPhrase p → All IsSmall p
IsPhrase-All [] h = absurd h
IsPhrase-All (c ∷ []) h = (h.0, tt)
IsPhrase-All (c ∷ d ∷ p) h = (h.0, IsPhrase-All (d ∷ p) h.1)

-- A character is lowered to one, but for the capital I with a dot.
to_lowercase_char-one :
    (d : ℕ)
    → (d ≡ 0x130)
      ⊎ ((c : ℕ) × (to_lowercase_char d ≡ c ∷ []) × ((e : ℕ) → IsSmall e → c ≡ e → IsLetter e d))
unfolding to_lowercase_char
to_lowercase_char-one d = elim (Bool-cases (leb b'A' d && leb d b'Z')) [
  | inl e ↦ inr (d + 32, rw e refl, λ c small same. inr (inl (ground arith)))
  | inr e ↦ elim (Bool-cases (d == 0x130)) [
    | inl dotted ↦ inl (ground arith)
    | inr f ↦ elim (Bool-cases (d == 0x212a)) [
      | inl kelvin ↦ inr (b'k', rw (e, f, kelvin) refl, λ c small same. inr (inr (ground arith)))
      | inr g ↦ inr (d, rw (e, f, g) refl, λ c small same. inl same)
    ]
  ]
]

IsLetter-lowered : (c d : ℕ) → IsSmall c → IsLetter c d → to_lowercase_char d ≡ c ∷ []
unfolding to_lowercase_char
IsLetter-lowered c d s (inl e) = ground arith
IsLetter-lowered c d s (inr (inl (l, h, e))) = ground arith
IsLetter-lowered c d s (inr (inr (e, f))) = ground arith

IsCase-lowered : (p w : Text) → All IsSmall p → IsCase p w → to_lowercase w ≡ p
unfolding to_lowercase
IsCase-lowered [] [] a h = refl
IsCase-lowered [] (d ∷ w) a h = absurd h
IsCase-lowered (c ∷ p) [] a h = absurd h
IsCase-lowered (c ∷ p) (d ∷ w) a h =
    ap₂ ◌++◌ (IsLetter-lowered c d a.0 h.0) (IsCase-lowered p w a.1 h.1)

to_lowercase-append : (a b : Text) → to_lowercase (a ++ b) ≡ to_lowercase a ++ to_lowercase b
unfolding to_lowercase
to_lowercase-append [] b = refl
to_lowercase-append (c ∷ a) b =
    ap (λ x. to_lowercase_char c ++ x) (to_lowercase-append a b)
    ∙ sym (append_assoc (to_lowercase_char c) (to_lowercase a) (to_lowercase b))

-- No phrase starts in half of a letter.
dotted-starts :
    (c : ℕ) (p s : Text)
    → IsPhrase (c ∷ p)
    → (starts_with (c ∷ p) (b'i' ∷ 0x307 ∷ s) ≡ false) × (starts_with (c ∷ p) (0x307 ∷ s) ≡ false)
unfolding starts_with
dotted-starts c [] s v = (ground arith, ground arith)
dotted-starts c (d ∷ p) s v =
    let small = (IsPhrase-All (d ∷ p) v.1).0 in (ground arith, ground arith)

starts_with-IsLetter :
    (c d : ℕ) (p s : Text)
    → IsPhrase (c ∷ p)
    → starts_with (c ∷ p) (to_lowercase (d ∷ s)) ≡ true
    → IsLetter c d × (starts_with p (to_lowercase s) ≡ true)
unfolding to_lowercase starts_with to_lowercase_char
starts_with-IsLetter c d p s v h = elim (to_lowercase_char-one d) [
  | inl e ↦
      let whole : starts_with (c ∷ p) (b'i' ∷ 0x307 ∷ to_lowercase s) ≡ true =
        subst (λ x. starts_with (c ∷ p) (to_lowercase_char x ++ to_lowercase s) ≡ true) e h in
      absurd (false≢true (sym (dotted-starts c p (to_lowercase s) v).0 ∙ whole))
  | inr (x, e, letter) ↦
      let matched : (c == x && starts_with p (to_lowercase s)) ≡ true =
        subst (λ l. starts_with (c ∷ p) (l ++ to_lowercase s) ≡ true) e h in
      (letter c (IsPhrase-All (c ∷ p) v).0 (ground arith), ground arith)
]

-- What the lowered text starts with, the text starts with in some case.
starts_with-IsCase :
    (p s : Text)
    → IsPhrase p
    → starts_with p (to_lowercase s) ≡ true
    → (w b : Text) × (s ≡ w ++ b) × IsCase p w
unfolding to_lowercase starts_with
starts_with-IsCase [] s v h = absurd v
starts_with-IsCase (c ∷ p) [] v h = cc
starts_with-IsCase (c ∷ []) (d ∷ s) v h =
    (d ∷ [], s, refl, ((starts_with-IsLetter c d [] s v h).0, tt))
starts_with-IsCase (c ∷ e ∷ p) (d ∷ s) v h =
    let (letter, more) = starts_with-IsLetter c d (e ∷ p) s v h in
    let (w, b, q, r) = starts_with-IsCase (e ∷ p) s v.1 more in
    (d ∷ w, b, ap (◌∷◌ d) q, (letter, r))

IsSaid-further : (p s : Text) (d : ℕ) → IsSaid p s → IsSaid p (d ∷ s)
IsSaid-further p s d (a, w, b, e, h) = (d ∷ a, w, b, ap (◌∷◌ d) e, h)

contains-IsSaid : (p s : Text) → IsPhrase p → contains p (to_lowercase s) ≡ true → IsSaid p s
unfolding to_lowercase contains to_lowercase_char
contains-IsSaid [] s v h = absurd v
contains-IsSaid (c ∷ p) [] v h =
    let (w, b, e, r) = starts_with-IsCase (c ∷ p) [] v h in ([], w, b, e, r)
contains-IsSaid (c ∷ p) (d ∷ s) v h =
    elim (Bool-cases (starts_with (c ∷ p) (to_lowercase (d ∷ s)))) [
      | inl t ↦ let (w, b, e, r) = starts_with-IsCase (c ∷ p) (d ∷ s) v t in ([], w, b, e, r)
      | inr f ↦ IsSaid-further (c ∷ p) s d (contains-IsSaid (c ∷ p) s v (further f))
    ]
  where
    further :
        starts_with (c ∷ p) (to_lowercase (d ∷ s)) ≡ false
        → contains (c ∷ p) (to_lowercase s) ≡ true
    further f = elim (to_lowercase_char-one d) [
      | inl e ↦
          let whole : contains (c ∷ p) (b'i' ∷ 0x307 ∷ to_lowercase s) ≡ true =
            subst (λ x. contains (c ∷ p) (to_lowercase_char x ++ to_lowercase s) ≡ true) e h in
          let halves = dotted-starts c p (to_lowercase s) v in rw (halves.0, halves.1) at whole
      | inr (x, e, letter) ↦
          let whole : contains (c ∷ p) (x ∷ to_lowercase s) ≡ true =
            subst (λ l. contains (c ∷ p) (l ++ to_lowercase s) ≡ true) e h in
          let not_here : starts_with (c ∷ p) (x ∷ to_lowercase s) ≡ false =
            subst (λ l. starts_with (c ∷ p) (l ++ to_lowercase s) ≡ false) e f in
          rw not_here at whole
    ]

pub contains_lowered_iff :
    (p s : Text) → IsPhrase p → (contains p (to_lowercase s) ≡ true) ↔ IsSaid p s
contains_lowered_iff p s v = (
  contains-IsSaid p s v,
  λ (a, w, b, e, h).
      rw
        (
          e,
          to_lowercase-append a (w ++ b),
          to_lowercase-append w b,
          IsCase-lowered p w (IsPhrase-All p v) h,
        )
        (contains-append p (to_lowercase a) (to_lowercase b)),
)

-- Writing the text in capitals changes nothing.
needs_interactive_auth-upper :
    (stderr : Text) → needs_interactive_auth (map upper stderr) ≡ needs_interactive_auth stderr
unfolding needs_interactive_auth
needs_interactive_auth-upper stderr = rw (to_lowercase-upper stderr)
