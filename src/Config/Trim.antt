-- ===== src/Config/Trim.antt =====
-- `str::trim` on a text with a space or an end of line behind it.
use sshflow.Prelude.{All, false, arith, ℕ, ◌≡◌, refl, true, [], ◌∷◌, ◌++◌, Text, if_beside}
use sshflow.Config.{is_whitespace, trim_start, trim_end, trim}

trim_end-space : (c : ℕ) (s : Text) → is_whitespace c ≡ true → trim_end (s ++ c ∷ []) ≡ trim_end s
unfolding trim_end
trim_end-space c [] h = rw h refl
trim_end-space c (d ∷ s) h = rw (trim_end-space c s h) refl

pub trim-space : (c : ℕ) (s : Text) → is_whitespace c ≡ true → trim (s ++ c ∷ []) ≡ trim s
unfolding trim trim_start trim_end
trim-space c [] h = rw h refl
trim-space c (d ∷ s) h =
    if_beside trim_end trim_end (is_whitespace d) (trim-space c s h) (trim_end-space c (d ∷ s) h)

pub trim-line : (line : Text) → trim line ≡ line → trim (line ++ b'\n' ∷ []) ≡ line
unfolding is_whitespace
trim-line line h = rw (trim-space b'\n' line refl) h

trim_end-solid : (s : Text) → All (λ c. is_whitespace c ≡ false) s → trim_end s ≡ s
unfolding trim_end
trim_end-solid [] h = refl
trim_end-solid (c ∷ s) h = rw (trim_end-solid s h.1, h.0) (ground arith)

-- A text without white space stays.
pub trim-solid : (s : Text) → All (λ c. is_whitespace c ≡ false) s → trim s ≡ s
unfolding trim trim_start
trim-solid [] h = refl
trim-solid (c ∷ s) h = rw h.0 (trim_end-solid (c ∷ s) h)
