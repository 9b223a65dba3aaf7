-- ===== src/Prelude/Strings.antt =====
-- A Rust string as the list of its characters' code points, and the methods of `str` in use.
use Prim.Native.Nat.{ℕ, ◌≤◌}
use Prim.Native.Char.{code}
use Prim.Native.String.{String}
use mathlib.Core.Path.{◌≡◌, refl}
use mathlib.Core.Logic.{◌≢◌, ◌↔◌}
use mathlib.Core.Bool.{Bool, true, false, ◌&&◌}
use mathlib.Core.Option.{Option, none, some}
use mathlib.Core.List.{List, [], ◌∷◌, ◌++◌}
use native.Mathlib.Omega.{arith}
use sshflow.Prelude.Tests.{◌==◌, if◌then◌else◌, leb}
use sshflow.Prelude.Lists.{All}

abbrev pub Text : Type 0
Text = List ℕ

-- A literal.
abbrev pub codes : String → Text
codes String.[] = []
codes (String.◌∷◌ c s) = code c ∷ codes s

unfoldable pub text_eq : Text → Text → Bool
text_eq [] [] = true
text_eq [] (c ∷ t) = false
text_eq (c ∷ s) [] = false
text_eq (c ∷ s) (d ∷ t) = c == d && text_eq s t

pub text_eq→eq : (s t : Text) → text_eq s t ≡ true → s ≡ t
unfolding text_eq
text_eq→eq [] [] h = refl
text_eq→eq [] (c ∷ t) h = cc
text_eq→eq (c ∷ s) [] h = cc
text_eq→eq (c ∷ s) (d ∷ t) h = ground (arith, text_eq→eq s t)

pub text_eq_refl : (s : Text) → text_eq s s ≡ true
unfolding text_eq
text_eq_refl [] = refl
text_eq_refl (c ∷ s) = ground (arith, text_eq_refl s)

pub text_eq_iff : (s t : Text) → (text_eq s t ≡ true) ↔ (s ≡ t)
text_eq_iff s t = (text_eq→eq s t, λ e. rw e (text_eq_refl t))

pub text_eq_sym : (s t : Text) → text_eq s t ≡ false → text_eq t s ≡ false
text_eq_sym s t h = ground (arith, text_eq_iff s t, text_eq_iff t s, text_eq_refl s)

abbrev pub is_digit : ℕ → Bool
is_digit c = leb b'0' c && leb c b'9'

abbrev pub IsDigit : ℕ → Type 0
IsDigit c = (b'0' ≤ c) × (c ≤ b'9')

abbrev pub Lacks : ℕ → Text → Type 0
Lacks c = All (λ d. d ≢ c)

-- `starts_with` of a character.
abbrev pub starts_with_char : ℕ → Text → Bool
starts_with_char c [] = false
starts_with_char c (d ∷ s) = d == c

-- `strip_prefix` of a character.
abbrev pub strip_prefix : ℕ → Text → Option Text
strip_prefix c [] = none
strip_prefix c (d ∷ s) = if d == c then some s else none

abbrev cons_first : ℕ → Option (Text × Text) → Option (Text × Text)
cons_first c none = none
cons_first c (some (a, b)) = some (c ∷ a, b)

-- Split at the first occurrence of a character.
unfoldable pub split_once : ℕ → Text → Option (Text × Text)
split_once c [] = none
split_once c (d ∷ s) = if d == c then some ([], s) else cons_first d (split_once c s)

-- Split at the last occurrence.
unfoldable pub rsplit_once : ℕ → Text → Option (Text × Text)
rsplit_once c [] = none
rsplit_once c (d ∷ s) = elim (rsplit_once c s) [
  | none ↦ if d == c then some ([], s) else none
  | some (a, b) ↦ some (d ∷ a, b)
]

module _ (c : ℕ) where
  pub split_once_sound :
      (s a b : Text) → split_once c s ≡ some (a, b) → (s ≡ a ++ c ∷ b) × Lacks c a
  unfolding split_once
  split_once_sound [] a b h = cc
  split_once_sound (d ∷ s) [] b h = ground (arith, split_once_sound s [] b)
  split_once_sound (d ∷ s) (e ∷ a) b h = ground (arith, split_once_sound s a b)

  pub split_once-append : (a b : Text) → Lacks c a → split_once c (a ++ c ∷ b) ≡ some (a, b)
  unfolding split_once
  split_once-append [] b h = ground arith
  split_once-append (d ∷ a) b h = ground (arith, split_once-append a b h.1)

  pub split_once-none : (s : Text) → Lacks c s → split_once c s ≡ none
  unfolding split_once
  split_once-none [] h = refl
  split_once-none (d ∷ s) h = ground (arith, split_once-none s h.1)

  pub split_once-Lacks : (s : Text) → split_once c s ≡ none → Lacks c s
  unfolding split_once
  split_once-Lacks [] h = tt
  split_once-Lacks (d ∷ s) h = ground (arith, split_once-Lacks s)

  pub rsplit_once-none : (s : Text) → Lacks c s → rsplit_once c s ≡ none
  unfolding rsplit_once
  rsplit_once-none [] h = refl
  rsplit_once-none (d ∷ s) h = ground (arith, rsplit_once-none s h.1)

  pub rsplit_once-append : (a b : Text) → Lacks c b → rsplit_once c (a ++ c ∷ b) ≡ some (a, b)
  unfolding rsplit_once
  rsplit_once-append [] b h = ground (arith, rsplit_once-none b h)
  rsplit_once-append (d ∷ a) b h = ground (arith, rsplit_once-append a b h)

  pub rsplit_once_sound : (s a b : Text) → rsplit_once c s ≡ some (a, b) → s ≡ a ++ c ∷ b
  unfolding rsplit_once
  rsplit_once_sound [] a b h = cc
  rsplit_once_sound (d ∷ s) [] b h = ground (arith, rsplit_once_sound s [] b)
  rsplit_once_sound (d ∷ s) (e ∷ a) b h = ground (arith, rsplit_once_sound s a b)
