-- ===== src/Cli/Process.antt =====
-- The process of the command line: what it asks of the daemon's side, what it has printed, and
-- `anyhow::Result` as the outcome of its functions.
use sshflow.Prelude.{
  ℕ, ◌≡◌, refl, Bool, true, false, List, [], ◌∷◌, ◌++◌, Option, Text, codes, Result, ok, err,
}
use sshflow.Core.Errors.{
  SshFlowError, invalid_target, daemon_unreachable, io, serde, master_failed, other,
}
use sshflow.Core.Protocol.{FilePath, DaemonRequest, DaemonResponse}
use sshflow.Config.{ConfigError, no_home_dir, malformed, invalid_duration, config_error_text}
use sshflow.System.{Trace, Command, Effect}

-- The other end of the socket has a state of its own, which passes through every call.
pub record Desk (S : Type 0) : Type 0 where
  pub connect : FilePath → S → Result Text (Unit {0}) × S
  -- A line is written and flushed, and a line is read: empty at the end of the stream.
  pub exchange : Text → S → Result Text Text × S
  -- The same over TCP, on Windows: a port, and an exchange of two lines for one.
  pub tcp_connect : ℕ → S → Result Text (Unit {0}) × S
  pub tcp_exchange : Text → Text → S → Result Text Text × S
  -- A daemon is started; time passes.
  pub spawn : Command → S → Result Text (Unit {0}) × S
  pub sleep : ℕ → S → S
  -- `exec` returns only where it fails.
  pub exec : Trace → Command → Option Text
  -- A command is waited for: its exit code, if it has one, with the 32 bits of an `i32`.
  pub wait : Trace → Command → Result Text (Option ℕ)
  -- The directory of `current_exe`, and `EDITOR`, if they can be had.
  pub exe_dir : Option FilePath
  pub editor : Option Text
  -- `serde_json::to_string` of a request and `from_str` of a response.
  pub to_string : DaemonRequest → Result Text Text
  pub from_str : Text → Result Text DaemonResponse
  -- The message of a `ParseIntError`.
  pub parse_error : Text → Text

pub record World (S : Type 0) : Type 0 where
  pub peer : S
  pub trace : Trace
  pub out : Text
  pub err : Text

-- An error of `anyhow` is the chain of its messages, the outermost first.
pub data Outcome (A : Type 0) : Type 0 where
  done : A → Outcome A
  failed : List Text → Outcome A
  panicked : Outcome A

abbrev pub Action : Type 0 → Type 0 → Type 0
Action S A = World S → Outcome A × World S

-- How the process ends when its command returns or the process is replaced.
pub data Exit : Type 0 where
  finished : Exit
  exited : ℕ → Exit
  replaced : Command → Exit

abbrev pub is_done : {A : Type 0} → Outcome A → Bool
is_done (done a) = true
is_done (failed e) = false
is_done panicked = false

abbrev pub continue_with :
    {S A B : Type 0} → Outcome A × World S → (A → Action S B) → Outcome B × World S
continue_with (done a, w) f = f a w
continue_with (failed e, w) f = (failed e, w)
continue_with (panicked, w) f = (panicked, w)

-- What holds after the last step of a chain that is done.
pub continue_with-rule :
    {S A B : Type 0} (P : World S → Type 0) (r : Outcome A × World S) (f : A → Action S B) (b : B)
    → ((a : A) → (f a r.1).0 ≡ done b → P (f a r.1).1)
    → (continue_with r f).0 ≡ done b
    → P (continue_with r f).1
continue_with-rule P (done a, w) f b h e = h a e
continue_with-rule P (failed x, w) f b h e = cc
continue_with-rule P (panicked, w) f b h e = cc

-- The parts of a chain that is done.
pub continue_with-done :
    {S A B : Type 0} (r : Outcome A × World S) (f : A → Action S B) (b : B)
    → (continue_with r f).0 ≡ done b
    → (a : A) × (r.0 ≡ done a) × ((f a r.1).0 ≡ done b) × (continue_with r f ≡ f a r.1)
continue_with-done (done a, w) f b e = (a, refl, e, refl)
continue_with-done (failed x, w) f b e = cc
continue_with-done (panicked, w) f b e = cc

infixl 5 ◌>>=◌ ◌>>◌
abbrev pub ◌>>=◌ : {S A B : Type 0} → Action S A → (A → Action S B) → Action S B
(m >>= f) w = continue_with (m w) f

abbrev pub ◌>>◌ : {S A B : Type 0} → Action S A → Action S B → Action S B
m >> k = m >>= λ _. k

abbrev pub pure : {S A : Type 0} → A → Action S A
pure a w = (done a, w)

abbrev pub bail : {S A : Type 0} → Text → Action S A
bail message w = (failed (message ∷ []), w)

-- `with_context`.
abbrev pub in_context : {A : Type 0} → Text → Outcome A → Outcome A
in_context message (done a) = done a
in_context message (failed e) = failed (message ∷ e)
in_context message panicked = panicked

abbrev pub with_context : {S A : Type 0} → Text → Action S A → Action S A
with_context message m w = let (r, w') = m w in (in_context message r, w')

-- A plain error of `std::io` or `serde_json` under `?`.
abbrev pub raised : {A : Type 0} → Result Text A → Outcome A
raised (ok a) = done a
raised (err e) = failed (e ∷ [])

-- The source stands in the message, and in the chain once more.
unfoldable pub config_chain : ConfigError → List Text
config_chain no_home_dir = config_error_text no_home_dir ∷ []
config_chain (ConfigError.io path source) =
    config_error_text (ConfigError.io path source) ∷ source ∷ []
config_chain (malformed path source) = config_error_text (malformed path source) ∷ source ∷ []
config_chain (invalid_duration raw) = config_error_text (invalid_duration raw) ∷ []

unfoldable pub core_chain : SshFlowError → List Text
core_chain (invalid_target raw reason) =
    (codes "invalid ssh destination '" ++ raw ++ codes "': " ++ reason) ∷ []
core_chain (daemon_unreachable e) = (codes "daemon is not reachable: " ++ e) ∷ []
core_chain (io e) = (codes "io error: " ++ e) ∷ e ∷ []
core_chain (serde e) = (codes "serialization error: " ++ e) ∷ e ∷ []
core_chain (master_failed e) = (codes "ssh master connection failed: " ++ e) ∷ []
core_chain (other e) = e ∷ []

abbrev pub of_config : {A : Type 0} → Result ConfigError A → Outcome A
of_config (ok a) = done a
of_config (err e) = failed (config_chain e)

abbrev pub of_core : {A : Type 0} → Result SshFlowError A → Outcome A
of_core (ok a) = done a
of_core (err e) = failed (core_chain e)

-- A call of the crates below, which works on the trace.
abbrev pub on_trace :
    {S E A : Type 0} → (Result E A → Outcome A) → (Trace → Result E A × Trace) → Action S A
on_trace convert f w = let (r, t) = f w.trace in (convert r, record w { trace = t })

-- A call of the other end, with the effect that it leaves.
abbrev pub on_peer : {S A : Type 0} → Effect → (S → Result Text A × S) → Action S A
on_peer effect f w =
    let (r, s) = f w.peer in (raised r, record w { peer = s; trace = effect ∷ w.trace })

abbrev pub print : {S : Type 0} → Text → Action S (Unit {0})
print s w = (done tt, record w { out = w.out ++ s })

abbrev pub println : {S : Type 0} → Text → Action S (Unit {0})
println s = print (s ++ b'\n' ∷ [])

abbrev pub eprintln : {S : Type 0} → Text → Action S (Unit {0})
eprintln s w = (done tt, record w { err = w.err ++ s ++ b'\n' ∷ [] })
