-- ===== src/Cli/Live.antt =====
-- The command line and the daemon of one home directory: what the one writes the other handles.
pub mod Unix
pub mod Sessions
pub mod Tracked
pub mod Diagnosis
pub mod Windows
use sshflow.Prelude.{
  Lacks, split_once, split_once-append, append_assoc, ℕ, ◌≡◌, ◌≢◌, ap, ◌&&◌, refl, Bool, true,
  false, not, [], ◌∷◌, ◌++◌, Option, none, some, Text, codes, Result, ok, err, text_eq,
  text_eq_refl, is_empty, if◌then◌else◌, arith,
}
use sshflow.Core.Protocol.{FilePath, DaemonRequest, DaemonResponse, join}
use sshflow.Config.{ConfigError, trim, is_whitespace}
use sshflow.Config.Trim.{trim-line}
use sshflow.Config.Home.{sshflow_home}
use sshflow.System.{System, Trace, Command}
use sshflow.Daemon.State.{DaemonState}
use sshflow.Daemon.Ensure.{Handled}
use sshflow.Daemon.Requests.{handle, handle_stream}
use sshflow.Daemon.Requests.Wire.{handle_stream-handle}
use sshflow.Cli.Process.{Desk, World, Action, Outcome, done}
use sshflow.Cli.Exchange.{send_raw}

-- The four uses of `serde_json` at the socket.
pub record Codec : Type 0 where
  pub print_request : DaemonRequest → Result Text Text
  pub scan_request : Text → Result Text DaemonRequest
  pub print_response : DaemonResponse → Result Text Text
  pub scan_response : Text → Result Text DaemonResponse

-- A value comes back from its text, which is one line, not blank and without spaces around it.
abbrev pub Carried {ℓ} : {A : Type ℓ} → (A → Result Text Text) → (Text → Result Text A) → A → Type ℓ
Carried to from a =
    (line : Text) × (to a ≡ ok line)
    × (from line ≡ ok a)
    × (trim line ≡ line)
    × (line ≢ [])
    × Lacks b'\n' line

-- What `read_line` takes from a stream: the first line with its end. A line without an end is waited
-- for without limit, and neither side goes on.
abbrev with_end : Option (Text × Text) → Option (Text × Text)
with_end none = none
with_end (some (line, rest)) = some (line ++ b'\n' ∷ [], rest)

unfoldable pub read_line : Text → Option (Text × Text)
read_line stream = with_end (split_once b'\n' stream)

pub read_line-append :
    (line rest : Text)
    → Lacks b'\n' line
    → read_line ((line ++ b'\n' ∷ []) ++ rest) ≡ some (line ++ b'\n' ∷ [], rest)
unfolding read_line
read_line-append line rest h =
    rw (append_assoc line (b'\n' ∷ []) rest, split_once-append b'\n' line rest h)

pub read_line-line :
    (line : Text)
    → Lacks b'\n' line
    → read_line (line ++ b'\n' ∷ []) ≡ some (line ++ b'\n' ∷ [], [])
unfolding read_line
read_line-line line h = rw (split_once-append b'\n' line [] h)

-- What the daemon does with a line. When there is none, the client has written all that it writes,
-- and both wait.
abbrev pub on_line :
    Option (Text × Text)
    → (Text → Text → Result Text Text × DaemonState)
    → DaemonState
    → Result Text Text × DaemonState
on_line none f d = (err (codes "both sides wait"), d)
on_line (some (line, rest)) f d = f line rest

abbrev pub answer : Option Text × DaemonState → Result Text Text × DaemonState
answer (none, d) = (ok [], d)
answer (some out, d) = (ok out, d)

pub is_empty-line : (line : Text) → is_empty (line ++ b'\n' ∷ []) ≡ false
is_empty-line [] = refl
is_empty-line (c ∷ line) = refl

pub is_empty-full : (line : Text) → line ≢ [] → is_empty line ≡ false
is_empty-full [] h = absurd (h refl)
is_empty-full (c ∷ line) h = refl

-- What the command line needs of its other end: a request that the daemon answers comes to its
-- handler, and the handler's response comes back; nothing is printed.
pub record Delivers (os daemon : System) (codec : Codec) (desk : Desk DaemonState) (home : FilePath)
    : Type 0 where
  pub delivers :
      (r : DaemonRequest) (response : DaemonResponse) (w : World DaemonState)
      → Carried codec.print_request codec.scan_request r
      → Carried codec.print_response codec.scan_response response
      → w.peer.home ≡ home
      → w.peer.shutdown ≡ false
      → (handle daemon r w.peer).0 ≡ some response
      → let result = send_raw os desk r w in
        (result.0 ≡ done response)
        × (result.1.peer ≡ (handle daemon r w.peer).1)
        × (result.1.out ≡ w.out)
        × (result.1.err ≡ w.err)
