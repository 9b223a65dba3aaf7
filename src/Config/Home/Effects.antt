-- ===== src/Config/Home/Effects.antt =====
-- What looking up the home directory leaves in the trace.
use sshflow.Prelude.{
  Text, ℕ, ◌∷◌, ok, err, if_both, codes, Result, Result-cases, Option-cases, inl, inr,
}
use sshflow.Core.Protocol.{FilePath, join}
use sshflow.System.{System, Trace, created_dir, set_mode}
use sshflow.Config.{ConfigError}
use sshflow.Config.Home.{
  lock_unix, lock, create, ensure_secure_dir, secured, sshflow_home, secure_in, plugins_dir,
}

-- A property of traces that creating directories and setting modes keeps.
pub record Kept (P : Trace → Type 0) : Type 0 where
  pub by_dir : (p : FilePath) (t : Trace) → P t → P (created_dir p ∷ t)
  pub by_mode : (p : FilePath) (m : ℕ) (t : Trace) → P t → P (set_mode p m ∷ t)

module _ (P : Trace → Type 0) (kept : Kept P) (os : System) where
  lock_unix-Kept : (path : FilePath) (t : Trace) → P t → P (lock_unix os path t).1
  unfolding lock_unix
  lock_unix-Kept path t p =
      let locked : P (set_mode path 0o700 ∷ t) = kept.by_mode path 0o700 t p in
      elim (Result-cases (os.set_permissions t path)) [
        | inl (_, e) ↦ rw (lock_unix, e) locked
        | inr (_, e) ↦ rw (lock_unix, e) locked
      ]

  lock-Kept : (path : FilePath) (t : Trace) → P t → P (lock os path t).1
  unfolding lock
  lock-Kept path t p =
      if_both {A = Result ConfigError (Unit {0}) × Trace} (λ r. P r.1) os.windows p
        (lock_unix-Kept path t p)

  create-Kept : (path : FilePath) (t : Trace) → P t → P (create os path t).1
  unfolding create
  create-Kept path t p =
      let made : P (created_dir path ∷ t) = kept.by_dir path t p in
      elim (Result-cases (os.create_dir_all t path)) [
        | inl (_, e) ↦ rw (create, e) (lock-Kept path (created_dir path ∷ t) made)
        | inr (_, e) ↦ rw (create, e) made
      ]

  ensure_secure_dir-Kept : (path : FilePath) (t : Trace) → P t → P (ensure_secure_dir os path t).1
  unfolding ensure_secure_dir
  ensure_secure_dir-Kept path t p =
      if_both {A = Result ConfigError (Unit {0}) × Trace} (λ r. P r.1) (os.exists t path)
        (lock-Kept path t p) (create-Kept path t p)

  secured-Kept :
      (path : FilePath) (r : Result ConfigError (Unit {0}) × Trace)
      → P r.1
      → P (secured os path r).1
  unfolding secured
  secured-Kept path (ok _, t) p = p
  secured-Kept path (err e, t) p = p

  pub sshflow_home-Kept : (t : Trace) → P t → P (sshflow_home os t).1
  unfolding sshflow_home
  sshflow_home-Kept t p = elim (Option-cases os.home_dir) [
    | inl e ↦ rw (sshflow_home, e) p
    | inr (base, e) ↦
        rw (sshflow_home, e)
          (secured-Kept _ _ (ensure_secure_dir-Kept (join base (codes ".sshflow")) t p))
  ]

  secure_in-Kept :
      (name : Text) (r : Result ConfigError FilePath × Trace) → P r.1 → P (secure_in os name r).1
  unfolding secure_in
  secure_in-Kept name (err e, t) p = p
  secure_in-Kept name (ok home, t) p =
      secured-Kept (join home name) (ensure_secure_dir os (join home name) t)
        (ensure_secure_dir-Kept (join home name) t p)

  pub plugins_dir-Kept : (t : Trace) → P t → P (plugins_dir os t).1
  unfolding plugins_dir
  plugins_dir-Kept t p =
      secure_in-Kept (codes "plugins") (sshflow_home os t) (sshflow_home-Kept t p)
