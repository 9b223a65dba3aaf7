-- ===== src/Daemon/Health/Rounds.antt =====
-- What a round of the health check does to the table of connections.
use sshflow.Prelude.{
  ◌≡◌, sym, ◌∙◌, subst, ◌⊎◌, inl, inr, true, List, [], ◌∷◌, none, some, Text, get, text_eq,
  text_eq→eq, Bool-cases,
}
use sshflow.System.{System}
use sshflow.Manager.{ManagedConnection, ConnectionManager, all_keys}
use sshflow.Daemon.State.{DaemonState}
use sshflow.Daemon.Health.{Round, goes_on, panics, and_then, check_key, check_keys, check_all}
use sshflow.Ssh.Answers.{IsAnswered}
use sshflow.Daemon.Health.Checked.{IsChecked, Went, check_key-IsChecked}

-- What is known of a connection after its check.
abbrev Healthy : System → Text → ConnectionManager → Type 0
Healthy os j m =
    (c : ManagedConnection)
    → get j m ≡ some c
    → (c.healthy ≡ true) × IsAnswered os c.control_socket c.target

-- Among the keys that are still to be checked.
abbrev Listed : Text → List Text → Type 0
Listed j [] = ⊥
Listed j (k ∷ keys) = (text_eq k j ≡ true) ⊎ Listed j keys

Went-and_then :
    (Q R : ConnectionManager → Type 0) (r : Round) (f : DaemonState → Round)
    → Went Q r
    → ((d : DaemonState) → Q d.connections → Went R (f d))
    → Went R (and_then r f)
Went-and_then Q R (goes_on d) f q h = h d q
Went-and_then Q R (panics d) f q h = tt

none_step :
    (os : System) (j k : Text) (m m' : ConnectionManager)
    → IsChecked os k m m'
    → get j m ≡ none
    → get j m' ≡ none
none_step os j k m m' v h = elim (Bool-cases (text_eq k j)) [
  | inl e ↦
      subst (λ i. get i m' ≡ none) (text_eq→eq k j e)
        (v.none_new (subst (λ i. get i m ≡ none) (sym (text_eq→eq k j e)) h))
  | inr e ↦ v.others j e ∙ h
]

module _ (os : System) where
  check_keys-none :
      (j : Text) (keys : List Text) (d : DaemonState)
      → get j d.connections ≡ none
      → Went (λ m. get j m ≡ none) (check_keys os keys d)
  unfolding check_keys
  check_keys-none j [] d h = h
  check_keys-none j (k ∷ keys) d h =
      Went-and_then (IsChecked os k d.connections) (λ m. get j m ≡ none) (check_key os k d)
        (check_keys os keys) (check_key-IsChecked os k d)
        (λ d' v. check_keys-none j keys d' (none_step os j k d.connections d'.connections v h))

-- Such a round adds no connection: what is in the table afterwards was there before.
check_all-none :
    (os : System) (d d' : DaemonState) (k : Text)
    → check_all os d ≡ goes_on d'
    → get k d.connections ≡ none
    → get k d'.connections ≡ none
unfolding check_all
check_all-none os d d' k e h =
    subst (Went (λ m. get k m ≡ none)) e (check_keys-none os k (all_keys d.connections) d h)
