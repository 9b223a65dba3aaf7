-- ===== src/Daemon/Contract.antt =====
-- What the daemon promises of its table of connections, without the detail of the table: the socket
-- that is known under each key.
pub mod Connecting
pub mod Meets
pub mod Runs
pub mod Sources
use sshflow.Prelude.{
  ◌≡◌, ◌⊎◌, Bool, true, false, List, [], ◌∷◌, Option, none, some, Text, text_eq, is_some,
  if◌then◌else◌,
}
use sshflow.Core.HostTarget.{HostTarget, key}
use sshflow.Core.Protocol.{FilePath, DaemonRequest, DaemonResponse, connection_ready, ack, error}
use sshflow.Manager
use sshflow.Daemon.State.{DaemonState}

abbrev pub View : Type 0
View = Text → Option FilePath

unfoldable pub view : DaemonState → View
view d k = Manager.socket_for k d.connections

abbrev pub Same : View → View → Type 0
Same v v' = (j : Text) → v' j ≡ v j

-- A view without one of its keys, or with all of them.
abbrev pub cut : Option Text → View → View
cut none v j = v j
cut (some victim) v j = if text_eq victim j then none else v j

-- At keys other than the given one, at most one connection is gone.
abbrev pub Spared : Text → View → View → Type 0
Spared k v v' = (o : Option Text) × ((j : Text) → text_eq k j ≡ false → v' j ≡ cut o v j)

-- What is known is closed, and anything else is refused.
abbrev pub IsClosed : Bool → Option DaemonResponse → Type 0
IsClosed true r = r ≡ some ack
IsClosed false r = (message : Text) × (r ≡ some (error message))

-- What a round of the health check may change: connections go.
abbrev pub Shrinks : View → View → Type 0
Shrinks v v' = (j : Text) → (v' j ≡ v j) ⊎ (v' j ≡ none)

-- What is seen of a step: a request with the response that it got, a round of the health check, or
-- nothing.
pub data Seen : Type 0 where
  requested : DaemonRequest → Option DaemonResponse → Seen
  health_checked : Seen
  idled : Seen

-- Each destination has a socket of its own.
module _ (own : HostTarget → FilePath) where
  -- A connection that is reused was known, and nothing changes. One that is made is known afterwards
  -- by its own socket, and with any other response there is none.
  abbrev pub EnsurePromise : HostTarget → Option DaemonResponse → View → View → Type 0
  EnsurePromise t (some (connection_ready socket true latency)) v v' =
      (v (key t) ≡ some socket) × Same v v'
  EnsurePromise t (some (connection_ready socket false latency)) v v' =
      (socket ≡ own t) × (v' (key t) ≡ some socket) × Spared (key t) v v'
  EnsurePromise t _ v v' = (v' (key t) ≡ none) × Spared (key t) v v'

  -- What a request may change, by its response.
  abbrev pub Promise : DaemonRequest → Option DaemonResponse → View → View → Type 0
  Promise (DaemonRequest.ensure_connection t) r v v' = EnsurePromise t r v v'
  Promise (DaemonRequest.register_external_master t socket pid) r v v' =
      (r ≡ some ack) × ((j : Text) → v' j ≡ (if text_eq (key t) j then some socket else v j))
  Promise (DaemonRequest.close_connection k) r v v' =
      IsClosed (is_some (v k)) r × ((j : Text) → v' j ≡ (if text_eq k j then none else v j))
  Promise _ r v v' = Same v v'

  -- What an event may change.
  abbrev pub Allowed : Seen → View → View → Type 0
  Allowed (requested r response) v v' = Promise r response v v'
  Allowed health_checked v v' = Shrinks v v'
  Allowed idled v v' = Same v v'

  -- The abstract daemon, by the events it sees, the last one first.
  pub data SpecReach (v : View) : List Seen → View → Type 0 where
    here : SpecReach v [] v
    next :
        {es : List Seen} {w w' : View}
        → SpecReach v es w
        → (e : Seen) → Allowed e w w'
        → SpecReach v (e ∷ es) w'
