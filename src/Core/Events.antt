-- ===== src/Core/Events.antt =====
-- `Event` of crates/core/src/events.rs.
use sshflow.Prelude.{ℕ, Text, codes}

pub data Event : Type 0 where
  connection_opened : Text → Text → Event
  connection_closed : Text → Text → Event
  connection_reused : Text → Text → Event
  host_added : Text → Event
  host_removed : Text → Event
  authentication_failed : Text → Text → Event
  reconnect : Text → Text → ℕ → Event

unfoldable pub name : Event → Text
name (connection_opened key host) = codes "ConnectionOpened"
name (connection_closed key host) = codes "ConnectionClosed"
name (connection_reused key host) = codes "ConnectionReused"
name (host_added host) = codes "HostAdded"
name (host_removed host) = codes "HostRemoved"
name (authentication_failed host reason) = codes "AuthenticationFailed"
name (reconnect key host attempt) = codes "Reconnect"
