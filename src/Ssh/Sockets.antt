-- ===== src/Ssh/Sockets.antt =====
-- Where the control socket of a destination is.
use sshflow.Prelude.{
  ◌≡◌, refl, ap, sym, ◌∙◌, inl, inr, ◌++◌, Text, codes, Result, ok, err, Result-cases, if_both,
}
use sshflow.Core.HostTarget.{HostTarget}
use sshflow.Core.HostTarget.Fingerprint.{socket_fingerprint}
use sshflow.Core.Protocol.{FilePath, join}
use sshflow.System.{System, Trace}
use sshflow.Ssh.{socket_dir, make_dir, lock_dir, lock_unix_dir, socket_in, control_socket_path}

abbrev dir_in : FilePath → FilePath
dir_in home = join home (codes "sockets")

-- The file of a destination in the directory of the sockets.
abbrev pub own_socket : System → FilePath → HostTarget → FilePath
own_socket os home target = join (dir_in home) (socket_fingerprint os.hash target ++ codes ".sock")

module _ (os : System) where
  -- A result, if it is there, is the given one.
  abbrev IsOnly : FilePath → Result Text FilePath → Type 0
  IsOnly path r = (s : FilePath) → r ≡ ok s → s ≡ path

  IsOnly-ok : (path : FilePath) → IsOnly path (ok path)
  IsOnly-ok path s e = cc

  IsOnly-err : (path : FilePath) (x : Text) → IsOnly path (err x)
  IsOnly-err path x s e = cc

  lock_unix_dir-IsOnly : (dir : FilePath) (t : Trace) → IsOnly dir (lock_unix_dir os dir t).0
  unfolding lock_unix_dir
  lock_unix_dir-IsOnly dir t = elim (Result-cases (os.set_permissions t dir)) [
    | inl (_, e) ↦ rw (lock_unix_dir, e) (IsOnly-ok dir)
    | inr (x, e) ↦ rw (lock_unix_dir, e) (IsOnly-err dir x)
  ]

  lock_dir-IsOnly :
      (dir : FilePath) (r : Result Text (Unit {0}) × Trace) → IsOnly dir (lock_dir os dir r).0
  unfolding lock_dir
  lock_dir-IsOnly dir (err x, t) = IsOnly-err dir x
  lock_dir-IsOnly dir (ok _, t) =
      if_both {A = Result Text FilePath × Trace} (λ r. IsOnly dir r.0) os.windows (IsOnly-ok dir)
        (lock_unix_dir-IsOnly dir t)

  socket_in-IsOnly :
      (target : HostTarget) (dir : FilePath) (r : Result Text FilePath × Trace)
      → IsOnly dir r.0
      → IsOnly
          (join dir (socket_fingerprint os.hash target ++ codes ".sock"))
          (socket_in os target r).0
  unfolding socket_in
  socket_in-IsOnly target dir (err x, t) h s e = cc
  socket_in-IsOnly target dir (ok d, t) h s e =
      let same : d ≡ dir = h d refl in
      let there : join d (socket_fingerprint os.hash target ++ codes ".sock") ≡ s = cc in
      sym there ∙ ap (λ x. join x (socket_fingerprint os.hash target ++ codes ".sock")) same

  -- The path of a control socket is that of its destination in the home directory.
  pub control_socket_path-own :
      (home : FilePath) (target : HostTarget) (t : Trace) (s : FilePath)
      → (control_socket_path os home target t).0 ≡ ok s
      → s ≡ own_socket os home target
  unfolding control_socket_path socket_dir
  control_socket_path-own home target t =
      socket_in-IsOnly target (dir_in home) (socket_dir os home t)
        (lock_dir-IsOnly (dir_in home) (make_dir os (dir_in home) t))
