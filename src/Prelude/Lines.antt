-- ===== src/Prelude/Lines.antt =====
-- `str::lines`, and the lines of a text that was written line by line.
use Prim.Native.Nat.{ℕ}
use mathlib.Core.Path.{◌≡◌, refl}
use mathlib.Core.Logic.{◌≢◌}
use mathlib.Core.Bool.{◌&&◌}
use mathlib.Core.List.{List, [], ◌∷◌, ◌++◌}
use native.Mathlib.Omega.{arith}
use sshflow.Prelude.Tests.{◌==◌, if◌then◌else◌}
use sshflow.Prelude.Lists.{All}
use sshflow.Prelude.Strings.{Text, starts_with_char}

-- A character in front of the first line.
abbrev pub push_char : ℕ → List Text → List Text
push_char c [] = (c ∷ []) ∷ []
push_char c (l ∷ ls) = (c ∷ l) ∷ ls

-- Lines end in `\n` or `\r\n`; the last may have no end.
unfoldable pub lines : Text → List Text
lines [] = []
lines (c ∷ s) =
    let rest = lines s in
    if c == b'\n'
    then [] ∷ rest
    else if c == b'\r' && starts_with_char b'\n' s
    then rest
    else push_char c rest

-- A text that can be a line: no `\n` in it and no `\r` at its end.
abbrev pub IsLine : Text → Type 0
IsLine [] = Unit
IsLine (c ∷ []) = (c ≢ b'\n') × (c ≢ b'\r')
IsLine (c ∷ d ∷ l) = (c ≢ b'\n') × IsLine (d ∷ l)

-- Each line with its end.
abbrev pub unlines : List Text → Text
unlines [] = []
unlines (l ∷ ls) = l ++ b'\n' ∷ unlines ls

lines-line : (l rest : Text) → IsLine l → lines (l ++ b'\n' ∷ rest) ≡ l ∷ lines rest
unfolding lines
lines-line [] rest h = refl
lines-line (c ∷ []) rest h = ground arith
lines-line (c ∷ d ∷ l) rest h = ground (arith, lines-line (d ∷ l) rest h.1)

pub lines-unlines : (ls : List Text) → All IsLine ls → lines (unlines ls) ≡ ls
unfolding lines
lines-unlines [] h = refl
lines-unlines (l ∷ ls) h = rw (lines-line l (unlines ls) h.0, lines-unlines ls h.1) refl
