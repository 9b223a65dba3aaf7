-- ===== src/Config/Home.antt =====
-- The directories and the configuration file of crates/config/src/lib.rs.
pub mod Effects
pub mod Reloaded
use sshflow.Prelude.{none, some, Text, codes, Result, ok, err, if◌then◌else◌, ◌∷◌}
use sshflow.Config.{Config, ConfigError, no_home_dir, io, malformed, default_config}
use sshflow.Core.Protocol.{FilePath, join}
use sshflow.System.{System, Trace, created_dir, set_mode, wrote_file}

module _ (os : System) where
  lock_unix : FilePath → Trace → Result ConfigError (Unit {0}) × Trace
  lock_unix path t = elim (os.set_permissions t path) [
    | ok _ ↦ (ok tt, set_mode path 0o700 ∷ t)
    | err e ↦ (err (io path e), set_mode path 0o700 ∷ t)
  ]

  lock : FilePath → Trace → Result ConfigError (Unit {0}) × Trace
  unfolding lock_unix
  lock path t = if os.windows then (ok tt, t) else lock_unix path t

  create : FilePath → Trace → Result ConfigError (Unit {0}) × Trace
  unfolding lock
  create path t = elim (os.create_dir_all t path) [
    | ok _ ↦ lock path (created_dir path ∷ t)
    | err e ↦ (err (io path e), created_dir path ∷ t)
  ]

  unfoldable pub ensure_secure_dir : FilePath → Trace → Result ConfigError (Unit {0}) × Trace
  unfolding create
  ensure_secure_dir path t = if os.exists t path then lock path t else create path t

  secured : FilePath → Result ConfigError (Unit {0}) × Trace → Result ConfigError FilePath × Trace
  secured path (ok _, t) = (ok path, t)
  secured path (err e, t) = (err e, t)

  unfoldable pub sshflow_home : Trace → Result ConfigError FilePath × Trace
  unfolding ensure_secure_dir secured
  sshflow_home t = elim os.home_dir [
    | none ↦ (err no_home_dir, t)
    | some base ↦
        secured (join base (codes ".sshflow")) (ensure_secure_dir (join base (codes ".sshflow")) t)
  ]

  in_home : Text → Result ConfigError FilePath × Trace → Result ConfigError FilePath × Trace
  in_home file (ok home, t) = (ok (join home file), t)
  in_home file (err e, t) = (err e, t)

  unfoldable pub config_path : Trace → Result ConfigError FilePath × Trace
  unfolding in_home
  config_path t = in_home (codes "config.yaml") (sshflow_home t)

  secure_in : Text → Result ConfigError FilePath × Trace → Result ConfigError FilePath × Trace
  unfolding secured ensure_secure_dir
  secure_in name (err e, t) = (err e, t)
  secure_in name (ok home, t) = secured (join home name) (ensure_secure_dir (join home name) t)

  unfoldable pub logs_dir : Trace → Result ConfigError FilePath × Trace
  unfolding secure_in
  logs_dir t = secure_in (codes "logs") (sshflow_home t)

  unfoldable pub plugins_dir : Trace → Result ConfigError FilePath × Trace
  unfolding secure_in
  plugins_dir t = secure_in (codes "plugins") (sshflow_home t)

  -- `serde_yaml` prints and reads a configuration.
  module _ (to_yaml : Config → Text) (from_yaml : Text → Result Text Config) where
    save_at : Config → Result ConfigError FilePath × Trace → Result ConfigError (Unit {0}) × Trace
    save_at cfg (err e, t) = (err e, t)
    save_at cfg (ok path, t) = elim (os.write t path) [
      | ok _ ↦ (ok tt, wrote_file path (to_yaml cfg) ∷ t)
      | err e ↦ (err (io path e), wrote_file path (to_yaml cfg) ∷ t)
    ]

    unfoldable pub save : Config → Trace → Result ConfigError (Unit {0}) × Trace
    unfolding save_at
    save cfg t = save_at cfg (config_path t)

    saved_default : Result ConfigError (Unit {0}) × Trace → Result ConfigError Config × Trace
    saved_default (ok _, t) = (ok default_config, t)
    saved_default (err e, t) = (err e, t)

    parse_config : FilePath → Result Text Text → Result ConfigError Config
    parse_config path (err e) = err (io path e)
    parse_config path (ok raw) = elim (from_yaml raw) [
      | ok cfg ↦ ok cfg
      | err e ↦ err (malformed path e)
    ]

    load_at : Result ConfigError FilePath × Trace → Result ConfigError Config × Trace
    unfolding saved_default parse_config
    load_at (err e, t) = (err e, t)
    load_at (ok path, t) =
        if os.exists t path
        then (parse_config path (os.read_to_string t path), t)
        else saved_default (save default_config t)

    unfoldable pub load : Trace → Result ConfigError Config × Trace
    unfolding load_at
    load t = load_at (config_path t)
