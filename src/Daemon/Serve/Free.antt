-- ===== src/Daemon/Serve/Free.antt =====
-- A daemon on a socket that nobody else uses.
use sshflow.Prelude.{◌≡◌, refl, ◌∙◌, inl, inr, false, List, Text, Result, ok, is_ok, Bool-cases}
use sshflow.Core.Protocol.{FilePath, DaemonRequest, DaemonResponse}
use sshflow.System.{System, Trace}
use sshflow.Daemon.State.{DaemonState}
use sshflow.Daemon.Requests.Wire.{handle_stream-rule}
use sshflow.Daemon.Requests.Settings.{handle-home}
use sshflow.Daemon.Serve.{
  Happening, Served, socket_path, serve_loop, serve_free, serve_bound, serve_locked, serve_removed,
  serve_existing, serve_unix,
}
use sshflow.Daemon.Serve.Rule.{state_of, serve_unix-rule}

-- Nobody listens on the path, a file that is there can be removed, and a socket can be bound and
-- made private.
pub record IsFree (os : System) (path : FilePath) : Type 0 where
  pub unheard : (t : Trace) → is_ok (os.connect t path) ≡ false
  pub removable : (t : Trace) → os.remove_file t path ≡ ok tt
  pub bindable : (t : Trace) → os.bind t path ≡ ok tt
  pub lockable : (t : Trace) → os.set_permissions t path ≡ ok tt

module _ (os : System) (from_str : Text → Result Text DaemonRequest)
    (to_string : DaemonResponse → Result Text Text) where
  serve_free-loop :
      (P : Served → Type 0) (hs : List Happening) (d : DaemonState)
      → IsFree os (socket_path d)
      → ((t : Trace) → P (serve_loop os from_str to_string hs (record d { trace = t })))
      → P (serve_free os from_str to_string hs d)
  unfolding serve_free serve_bound serve_locked
  serve_free-loop P hs d v h =
      rw (v.bindable d.trace, serve_bound, v.lockable _, serve_locked) (h _)

  -- On a free path the loop is come to.
  pub serve_unix-loop :
      (P : Served → Type 0) (hs : List Happening) (d : DaemonState)
      → IsFree os (socket_path d)
      → ((t : Trace) → P (serve_loop os from_str to_string hs (record d { trace = t })))
      → P (serve_unix os from_str to_string hs d)
  unfolding serve_unix serve_existing serve_removed
  serve_unix-loop P hs d v h = elim (Bool-cases (os.exists d.trace (socket_path d))) [
    | inl e ↦
        rw (e, v.unheard d.trace, serve_existing, v.removable _, serve_removed)
          (serve_free-loop P hs (record d { trace = _ })
            (record {
              unheard = v.unheard;
              removable = v.removable;
              bindable = v.bindable;
              lockable = v.lockable;
            })
            h)
    | inr e ↦ rw e (serve_free-loop P hs d v h)
  ]

  pub serve_unix-home :
      (hs : List Happening) (d : DaemonState)
      → (state_of (serve_unix os from_str to_string hs d)).home ≡ d.home
  serve_unix-home hs d =
      serve_unix-rule os from_str to_string (λ d'. d'.home ≡ d.home)
        (λ line d' e.
          handle_stream-rule os from_str to_string (λ x. x.home ≡ d.home) d' e
            (λ q. handle-home os q d' ∙ e) line)
        (λ d' e. e) (λ t d' e. e) hs d refl
