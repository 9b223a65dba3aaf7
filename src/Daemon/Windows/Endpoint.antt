-- ===== src/Daemon/Windows/Endpoint.antt =====
-- The file daemon.port: what is written is read back.
use sshflow.Prelude.{
  Lacks, ◌≢◌, ℕ, ◌≤◌, ◌≡◌, refl, false, List, [], ◌∷◌, some, Text, ok, All, All-append, decimal,
  decimal-All, parse_uint-decimal, max_u16, IsDigit, IsLine, lines-unlines, lines, arith,
}
use sshflow.Config.{is_whitespace}
use sshflow.Core.HostTarget.Fingerprint.{IsHex, hex_shape}
use sshflow.Daemon.Windows.{token_text, endpoint_text, read_windows_endpoint, endpoint_lines}

-- A text without white space is a line.
IsLine-solid : (s : Text) → All (λ c. is_whitespace c ≡ false) s → IsLine s
unfolding is_whitespace
IsLine-solid [] h = tt
IsLine-solid (c ∷ []) h = ground arith
IsLine-solid (c ∷ d ∷ s) h = ground (arith, IsLine-solid (d ∷ s))

All-map : {P Q : ℕ → Type 0} (s : Text) → ((c : ℕ) → P c → Q c) → All P s → All Q s
All-map [] f h = tt
All-map (c ∷ s) f h = (f c h.0, All-map s f h.1)

hex-solid : (c : ℕ) → IsHex c → is_whitespace c ≡ false
unfolding is_whitespace
hex-solid c h = ground arith

digit-solid : (c : ℕ) → IsDigit c → is_whitespace c ≡ false
unfolding is_whitespace
digit-solid c h = ground arith

token_text-IsHex : (bytes : List ℕ) → All IsHex (token_text bytes)
unfolding token_text
token_text-IsHex [] = tt
token_text-IsHex (b ∷ bytes) =
    All-append IsHex _ (token_text bytes) (hex_shape 2 b [] tt).0 (token_text-IsHex bytes)

pub token_text-solid : (bytes : List ℕ) → All (λ c. is_whitespace c ≡ false) (token_text bytes)
token_text-solid bytes = All-map (token_text bytes) hex-solid (token_text-IsHex bytes)

solid-ne-newline : (c : ℕ) → is_whitespace c ≡ false → c ≢ b'\n'
unfolding is_whitespace
solid-ne-newline c h = ground arith

pub token-one_line : (bytes : List ℕ) → Lacks b'\n' (token_text bytes)
token-one_line bytes = All-map (token_text bytes) solid-ne-newline (token_text-solid bytes)

pub lines-endpoint_text :
    (port : ℕ) (bytes : List ℕ)
    → lines (endpoint_text port (token_text bytes)) ≡ decimal port ∷ token_text bytes ∷ []
unfolding endpoint_text
lines-endpoint_text port bytes = lines-unlines (decimal port ∷ token_text bytes ∷ []) (
  IsLine-solid (decimal port) (All-map (decimal port) digit-solid (decimal-All port)),
  (IsLine-solid (token_text bytes) (token_text-solid bytes), tt),
)

-- What the daemon writes to daemon.port is read back as the same port and token, if the port is
-- a `u16`.
pub read_windows_endpoint-endpoint_text :
    (port : ℕ) (bytes : List ℕ)
    → port ≤ max_u16
    → read_windows_endpoint (ok (endpoint_text port (token_text bytes)))
      ≡ some (port, token_text bytes)
unfolding read_windows_endpoint endpoint_lines
read_windows_endpoint-endpoint_text port bytes fits =
    rw (lines-endpoint_text port bytes, endpoint_lines, parse_uint-decimal max_u16 port fits) refl
