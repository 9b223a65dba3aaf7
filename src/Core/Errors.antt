-- ===== src/Core/Errors.antt =====
-- `SshFlowError` of crates/core/src/lib.rs. An error of `std::io` or `serde_json` is its message.
use sshflow.Prelude.{Text, Result}

pub data SshFlowError : Type 0 where
  invalid_target : Text → Text → SshFlowError
  daemon_unreachable : Text → SshFlowError
  io : Text → SshFlowError
  serde : Text → SshFlowError
  master_failed : Text → SshFlowError
  other : Text → SshFlowError

abbrev pub Fallible {ℓ} : Type ℓ → Type ℓ
Fallible A = Result SshFlowError A
