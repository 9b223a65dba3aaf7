-- ===== src/Ssh/Auth.antt =====
-- `needs_interactive_auth` of crates/ssh/src/lib.rs.
pub mod Phrases
use sshflow.Prelude.{
  ℕ, ◌+◌, Bool, true, false, ◌&&◌, ◌||◌, [], ◌∷◌, ◌++◌, Text, codes, leb, ◌==◌, if◌then◌else◌,
}
use sshflow.Config.{trim}

-- `from_utf8_lossy(…).trim()`, on a text that is decoded already.
unfoldable pub trim_lossy : Text → Text
trim_lossy s = trim s

-- `to_lowercase` of a character, exact where the result has a letter of ASCII: `A` to `Z`, the
-- dotted capital I and the Kelvin sign. Of any other character it is left alone.
unfoldable pub to_lowercase_char : ℕ → Text
to_lowercase_char c =
    if leb b'A' c && leb c b'Z'
    then (c + 32) ∷ []
    else if c == 0x130
    then b'i' ∷ 0x307 ∷ []
    else if c == 0x212a
    then b'k' ∷ []
    else c ∷ []

unfoldable pub to_lowercase : Text → Text
unfolding to_lowercase_char
to_lowercase [] = []
to_lowercase (c ∷ s) = to_lowercase_char c ++ to_lowercase s

starts_with : Text → Text → Bool
starts_with [] s = true
starts_with (c ∷ p) [] = false
starts_with (c ∷ p) (d ∷ s) = c == d && starts_with p s

unfoldable pub contains : Text → Text → Bool
unfolding starts_with
contains p [] = starts_with p []
contains p (c ∷ s) = starts_with p (c ∷ s) || contains p s

unfoldable pub needs_interactive_auth : Text → Bool
unfolding to_lowercase contains
needs_interactive_auth stderr =
    let s = to_lowercase stderr in
    contains (codes "permission denied") s
    || contains (codes "keyboard-interactive") s
    || contains (codes "password:") s
    || contains (codes "host key verification failed") s
