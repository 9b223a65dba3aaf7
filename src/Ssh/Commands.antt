-- ===== src/Ssh/Commands.antt =====
-- The arguments that `ssh` is given.
use sshflow.Prelude.{
  ℕ, ◌≡◌, refl, ◌⊎◌, inl, inr, Bool, true, false, List, [], ◌∷◌, ◌++◌, Option, none, some, Text,
  codes, text_eq, any, All, All-append, IsDigit, decimal, decimal-All, starts_with_char, arith,
}
use sshflow.Core.HostTarget.{HostTarget, dash, destination_string}
use sshflow.Core.HostTarget.Parse.{IsParsed, destination_string-no_dash}
use sshflow.Core.Protocol.{FilePath}
use sshflow.Ssh.{
  start_command, interactive_command, client_command, master_args, batch_args, port_args,
}

-- The flags that the program itself writes.
abbrev pub flags : List Text
flags = codes "-M" ∷ codes "-S" ∷ codes "-o" ∷ codes "-N" ∷ codes "-f" ∷ codes "-p" ∷ []

-- An argument that `ssh` cannot read as an option, or one of these flags.
abbrev pub IsGuarded : Text → Type 0
IsGuarded a = (starts_with_char dash a ≡ false) ⊎ (any (λ f. text_eq f a) flags ≡ true)

decimal-start : (s : Text) → All IsDigit s → starts_with_char dash s ≡ false
decimal-start [] a = refl
decimal-start (c ∷ s) a = ground arith

port_args-IsGuarded : (port : Option ℕ) → All IsGuarded (port_args port)
unfolding port_args text_eq
port_args-IsGuarded none = tt
port_args-IsGuarded (some p) = (inr refl, (inl (decimal-start (decimal p) (decimal-All p)), tt))

batch_args-IsGuarded : (timeout : ℕ) → All IsGuarded (batch_args timeout)
unfolding batch_args text_eq
batch_args-IsGuarded timeout = (inr refl, (inl refl, (inr refl, (inl refl, tt))))

master_args-IsGuarded :
    (socket : FilePath) (t : HostTarget) (persist : ℕ) (batch : List Text)
    → starts_with_char dash socket ≡ false
    → starts_with_char dash (destination_string t) ≡ false
    → All IsGuarded batch
    → All IsGuarded (master_args socket t persist batch)
unfolding master_args text_eq
master_args-IsGuarded socket t persist batch s d b =
    (inr refl, (inr refl, (inl s, (inr refl, (inl refl, (inr refl, (inl refl, behind)))))))
  where
    last : All IsGuarded (port_args t.port ++ destination_string t ∷ [])
    last = All-append IsGuarded (port_args t.port) _ (port_args-IsGuarded t.port) (inl d, tt)

    behind :
        All IsGuarded
          (batch ++ codes "-N" ∷ codes "-f" ∷ (port_args t.port ++ destination_string t ∷ []))
    behind = All-append IsGuarded batch _ b (inr refl, (inr refl, last))

-- On Unix and on Windows, for a destination that was parsed and a socket path without a dash in front, no argument of the
-- three commands that connect (in the background, in the foreground, and as a client of the
-- socket, before the user's own arguments) can be read as an option, but for the fixed flags.
pub commands-IsGuarded :
    (windows : Bool) (socket : FilePath) (t : HostTarget) (persist timeout : ℕ)
    → IsParsed t
    → starts_with_char dash socket ≡ false
    → All IsGuarded (start_command windows socket t persist timeout).args
      × All IsGuarded (interactive_command windows socket t persist).args
      × All IsGuarded (client_command windows socket t []).args
unfolding start_command interactive_command client_command text_eq
commands-IsGuarded windows socket t persist timeout v s =
    let d = destination_string-no_dash t v in
    (
      master_args-IsGuarded socket t persist (batch_args timeout) s d
          (batch_args-IsGuarded timeout),
      master_args-IsGuarded socket t persist [] s d tt,
      (
        inr refl,
        (inl s, All-append IsGuarded (port_args t.port) _ (port_args-IsGuarded t.port) (inl d, tt)),
      ),
    )
