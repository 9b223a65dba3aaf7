-- ===== src/Config/Home/Reloaded.antt =====
-- The configuration file from one run to the next.
use sshflow.Prelude.{
  ◌≡◌, refl, ◌∙◌, ap, inl, inr, true, ◌∷◌, Text, codes, Result, ok, err, Bool-cases, Result-cases,
}
use sshflow.Config.{Config, ConfigError, io, malformed, default_config}
use sshflow.Config.Home.{
  sshflow_home, config_path, in_home, save, save_at, saved_default, parse_config, load, load_at,
}
use sshflow.Config.Home.Effects.{Kept, sshflow_home-Kept}
use sshflow.Core.Protocol.{FilePath, join}
use sshflow.System.{System, Trace, wrote_file}

-- The file is there with that text.
abbrev pub Holds : System → FilePath → Text → Trace → Type 0
Holds os path raw t = (os.exists t path ≡ true) × (os.read_to_string t path ≡ ok raw)

-- What `std::fs` promises: a text that was written is in the file, and creating directories and
-- setting modes does not touch files.
pub record Files (os : System) : Type 0 where
  pub by_write :
      (t : Trace) (path : FilePath) (raw : Text)
      → os.write t path ≡ ok tt
      → Holds os path raw (wrote_file path raw ∷ t)
  pub by_lookup : (path : FilePath) (raw : Text) → Kept (Holds os path raw)

module _ (os : System) (files : Files os) (to_yaml : Config → Text)
    (from_yaml : Text → Result Text Config) (home : FilePath)
    (found : (t : Trace) → (sshflow_home os t).0 ≡ ok home) where
  abbrev path : FilePath
  path = join home (codes "config.yaml")

  abbrev looked : Trace → Trace
  looked t = (sshflow_home os t).1

  at_home : (t : Trace) → config_path os t ≡ (ok path, looked t)
  unfolding config_path
  at_home t = in_home-ok (sshflow_home os t) (found t)
    where
      in_home-ok :
          (r : Result ConfigError FilePath × Trace)
          → r.0 ≡ ok home
          → in_home os (codes "config.yaml") r ≡ (ok path, r.1)
      in_home-ok (x, s) e = rw (e, in_home) refl

  -- A file that is there is read.
  load-Holds :
      (raw : Text) (cfg : Config) (t : Trace)
      → Holds os path raw t
      → from_yaml raw ≡ ok cfg
      → (load os to_yaml from_yaml t).0 ≡ ok cfg
  unfolding load load_at parse_config
  load-Holds raw cfg t h e =
      let (there, text) = sshflow_home-Kept (Holds os path raw) (files.by_lookup path raw) os t h in
      rw (at_home t, load_at, there, text, parse_config, e) refl

  write-Holds :
      (cfg : Config) (t : Trace)
      → let r = save_at os to_yaml from_yaml cfg (ok path, t) in
        r.0 ≡ ok tt → Holds os path (to_yaml cfg) r.1
  unfolding save_at
  write-Holds cfg t saved = elim (Result-cases (os.write t path)) [
    | inl (_, e) ↦ rw (save_at, e) (files.by_write t path (to_yaml cfg) e)
    | inr (x, e) ↦
        let failed : ◌≡◌ {A = Result ConfigError (Unit {0})} (err (io path x)) (ok tt) =
          rw (save_at, e) at saved in
        cc
  ]

  save-Holds :
      (cfg : Config) (t : Trace)
      → (save os to_yaml from_yaml cfg t).0 ≡ ok tt
      → Holds os path (to_yaml cfg) (save os to_yaml from_yaml cfg t).1
  unfolding save
  save-Holds cfg t = rw (at_home t) (write-Holds cfg (looked t))

  -- A configuration that was saved is loaded again, if it comes back from its YAML and the home
  -- directory can be used.
  load-save :
      (cfg : Config) (t : Trace)
      → from_yaml (to_yaml cfg) ≡ ok cfg
      → (save os to_yaml from_yaml cfg t).0 ≡ ok tt
      → (load os to_yaml from_yaml (save os to_yaml from_yaml cfg t).1).0 ≡ ok cfg
  load-save cfg t back saved =
      load-Holds (to_yaml cfg) cfg (save os to_yaml from_yaml cfg t).1 (save-Holds cfg t saved) back

  -- A configuration that was loaded stands in the file then.
  abbrev Stored : Config → Trace → Type 0
  Stored cfg t = (raw : Text) × Holds os path raw t × (from_yaml raw ≡ ok cfg)

  saved_default-Stored :
      (cfg : Config) (r : Result ConfigError (Unit {0}) × Trace)
      → from_yaml (to_yaml default_config) ≡ ok default_config
      → (r.0 ≡ ok tt → Holds os path (to_yaml default_config) r.1)
      → (saved_default os to_yaml from_yaml r).0 ≡ ok cfg
      → Stored cfg (saved_default os to_yaml from_yaml r).1
  unfolding saved_default
  saved_default-Stored cfg (ok _, t) back h e = (to_yaml default_config, h refl, back ∙ e')
    where
      e' : ◌≡◌ {A = Result Text Config} (ok default_config) (ok cfg)
      e' = let same : default_config ≡ cfg = cc in ap ok same
  saved_default-Stored cfg (err x, t) back h e = cc

  read-config :
      (cfg : Config) (text : Result Text Text)
      → parse_config os to_yaml from_yaml path text ≡ ok cfg
      → (raw : Text) × (text ≡ ok raw) × (from_yaml raw ≡ ok cfg)
  unfolding parse_config
  read-config cfg (err x) e = cc
  read-config cfg (ok raw) e = elim (Result-cases (from_yaml raw)) [
    | inl (c, f) ↦
        let given : ◌≡◌ {A = Result ConfigError Config} (ok c) (ok cfg) =
          rw (f, parse_config) at e in
        let same : c ≡ cfg = cc in (raw, refl, f ∙ ap ok same)
    | inr (x, f) ↦
        let given : ◌≡◌ {A = Result ConfigError Config} (err (malformed path x)) (ok cfg) =
          rw (f, parse_config) at e in
        cc
  ]

  load_at-Stored :
      (cfg : Config) (t : Trace)
      → from_yaml (to_yaml default_config) ≡ ok default_config
      → let r = load_at os to_yaml from_yaml (ok path, t) in r.0 ≡ ok cfg → Stored cfg r.1
  unfolding load_at
  load_at-Stored cfg t back = elim (Bool-cases (os.exists t path)) [
    | inl there ↦
        rw (load_at, there)
          (λ e.
            let (raw, text, yaml) = read-config cfg (os.read_to_string t path) e in
            (raw, (there, text), yaml))
    | inr missing ↦
        rw (load_at, missing)
          (saved_default-Stored cfg (save os to_yaml from_yaml default_config t) back
            (save-Holds default_config t))
  ]

  -- What was loaded once is loaded again: the configuration of a file that was there, or the default
  -- one, which the first load has written, if that comes back from its YAML and the home directory
  -- can be used.
  pub load-load :
      (cfg : Config) (t : Trace)
      → from_yaml (to_yaml default_config) ≡ ok default_config
      → (load os to_yaml from_yaml t).0 ≡ ok cfg
      → (load os to_yaml from_yaml (load os to_yaml from_yaml t).1).0 ≡ ok cfg
  load-load cfg t back loaded =
      let stored : Stored cfg (load os to_yaml from_yaml t).1 = first loaded in
      load-Holds stored.0 cfg (load os to_yaml from_yaml t).1 stored.1 stored.2
    where
      first : (load os to_yaml from_yaml t).0 ≡ ok cfg → Stored cfg (load os to_yaml from_yaml t).1
      first = unfold load in rw (at_home t) (load_at-Stored cfg (looked t) back)
