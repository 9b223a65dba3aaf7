-- ===== src/Core/Protocol.antt =====
-- The requests, responses and reports of crates/core/src/lib.rs. A path is its text; a number is
-- a natural number within its machine width.
use sshflow.Prelude.{ℕ, Bool, List, ◌∷◌, ◌++◌, Option, Text, all}
use sshflow.Core.Events.{Event}
use sshflow.Core.HostTarget.{HostTarget}

abbrev pub FilePath : Type 0
FilePath = Text

-- `Path::join` with a relative name.
unfoldable pub join : FilePath → Text → FilePath
join dir file = dir ++ b'/' ∷ file

pub record ConnectionInfo : Type 0 where
  pub key : Text
  pub target : HostTarget
  pub control_socket : FilePath
  pub pid : Option ℕ
  pub created_at_unix : ℕ
  pub last_used_unix : ℕ
  pub reused_count : ℕ
  pub healthy : Bool
  pub last_latency_ms : Option ℕ

-- The mean as an exact fraction; the rounding of `f64` is not modelled.
pub record Average : Type 0 where
  pub sum : ℕ
  pub samples : ℕ

pub record StatsSnapshot : Type 0 where
  pub connections_today : ℕ
  pub reused_today : ℕ
  pub failures_today : ℕ
  pub reconnects_today : ℕ
  pub time_saved_ms : ℕ
  pub average_latency_ms : Average
  pub bytes_transferred : ℕ
  pub most_used_hosts : List (Text × ℕ)

pub record DoctorCheck : Type 0 where
  pub name : Text
  pub ok : Bool
  pub detail : Text

pub record DoctorReport : Type 0 where
  pub checks : List DoctorCheck

unfoldable pub all_ok : DoctorReport → Bool
all_ok r = all (λ c. c.ok) r.checks

pub record DaemonStatus : Type 0 where
  pub version : Text
  pub pid : ℕ
  pub uptime_secs : ℕ
  pub active_connections : ℕ
  pub plugins_loaded : ℕ

pub data DaemonRequest : Type 0 where
  ping : DaemonRequest
  ensure_connection : HostTarget → DaemonRequest
  status : DaemonRequest
  stats : DaemonRequest
  connections : DaemonRequest
  doctor : DaemonRequest
  close_connection : Text → DaemonRequest
  register_external_master : HostTarget → FilePath → Option ℕ → DaemonRequest
  record_event : Event → DaemonRequest
  shutdown : DaemonRequest

pub data DaemonResponse : Type 0 where
  pong : DaemonResponse
  connection_ready : FilePath → Bool → ℕ → DaemonResponse
  needs_interactive_auth : FilePath → DaemonResponse
  status : DaemonStatus → DaemonResponse
  stats : StatsSnapshot → DaemonResponse
  connections : List ConnectionInfo → DaemonResponse
  doctor : DoctorReport → DaemonResponse
  ack : DaemonResponse
  error : Text → DaemonResponse
