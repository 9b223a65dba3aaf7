-- ===== src/Daemon/Serve/Stops.antt =====
-- When the loop of the daemon ends.
use sshflow.Prelude.{
  ◌≡◌, refl, ◌∙◌, inl, inr, Bool, true, false, List, [], ◌∷◌, ◌++◌, Text, Result, any, Bool-cases,
  if◌then◌else◌, arith,
}
use sshflow.Core.Protocol.{DaemonRequest, DaemonResponse}
use sshflow.System.{System, Trace, removed}
use sshflow.Daemon.State.{DaemonState}
use sshflow.Daemon.Requests.{handle_stream}
use sshflow.Daemon.Requests.Wire.{orders_stop, handle_stream-shutdown}
use sshflow.Daemon.Serve.{
  Happening, accepted, accept_failed, changed, signalled, Served, serving, stopped, broken,
  socket_path, order_stop, remove_socket, serve_loop,
}

goes_on : (b : Bool) (x y : Served) {z : Served} → b ≡ false → (if b then x else y) ≡ z → y ≡ z
goes_on true x y n e = cc
goes_on false x y n e = e

module _ (os : System) (from_str : Text → Result Text DaemonRequest)
    (to_string : DaemonResponse → Result Text Text) where
  -- A happening that orders the daemon to stop.
  abbrev pub is_order : Happening → Bool
  is_order (accepted line) = orders_stop os from_str to_string line
  is_order signalled = true
  is_order changed = false
  is_order (accept_failed e) = false

  abbrev pub is_failure : Happening → Bool
  is_failure (accept_failed e) = true
  is_failure (accepted line) = false
  is_failure changed = false
  is_failure signalled = false

  -- The daemon has stopped and its socket is gone.
  abbrev pub IsStopped : Served → Type 0
  IsStopped (stopped d) =
      (t : Trace) × (d.trace ≡ removed (socket_path d) ∷ t) × (d.shutdown ≡ true)
  IsStopped (serving d) = (true ≡ false)
  IsStopped (broken e d) = (true ≡ false)

  ends_by :
      (b : Bool) (x y : Served)
      → (b ≡ true → IsStopped x)
      → (b ≡ false → IsStopped y)
      → IsStopped (if b then x else y)
  ends_by true x y h k = h refl
  ends_by false x y h k = k refl

  ends_or :
      (d : DaemonState) (rest : Served)
      → (d.shutdown ≡ false → IsStopped rest)
      → IsStopped (if d.shutdown then stopped (remove_socket d) else rest)
  unfolding remove_socket
  ends_or d rest h = ends_by d.shutdown _ rest (λ s. (d.trace, refl, s)) h

  -- An order that was given ends the loop when the channel is looked at next.
  ordered_stops :
      (before after : List Happening) (d : DaemonState)
      → any is_failure before ≡ false
      → d.shutdown ≡ true
      → IsStopped (serve_loop os from_str to_string (before ++ changed ∷ after) d)
  unfolding serve_loop
  ordered_stops [] after d calm s = ends_or d _ (λ n. cc)
  ordered_stops (accepted line ∷ hs) after d calm s =
      ordered_stops hs after (handle_stream os from_str to_string line d).1 calm
        (handle_stream-shutdown os from_str to_string line d ∙ ground arith)
  ordered_stops (accept_failed e ∷ hs) after d calm s = cc
  ordered_stops (changed ∷ hs) after d calm s = ends_or d _ (λ n. cc)
  ordered_stops (signalled ∷ hs) after d calm s = ordered_stops hs after (order_stop d) calm refl

  -- Once a request or a signal has ordered it to stop, the daemon ends and removes its socket when
  -- the channel of the order is looked at, whatever streams, signals and looks at the channel come
  -- before and in between, as long as no `accept` fails.
  pub serve_loop-stops :
      (before between after : List Happening) (order : Happening) (d : DaemonState)
      → any is_failure before ≡ false
      → any is_failure between ≡ false
      → is_order order ≡ true
      → IsStopped
          (serve_loop os from_str to_string (before ++ order ∷ (between ++ changed ∷ after)) d)
  unfolding serve_loop
  serve_loop-stops [] between after (accepted line) d calm calm' o =
      ordered_stops between after (handle_stream os from_str to_string line d).1 calm'
        (handle_stream-shutdown os from_str to_string line d ∙ ground arith)
  serve_loop-stops [] between after (accept_failed e) d calm calm' o = cc
  serve_loop-stops [] between after changed d calm calm' o = cc
  serve_loop-stops [] between after signalled d calm calm' o =
      ordered_stops between after (order_stop d) calm' refl
  serve_loop-stops (accepted line ∷ hs) between after order d calm calm' o =
      serve_loop-stops hs between after order _ calm calm' o
  serve_loop-stops (accept_failed e ∷ hs) between after order d calm calm' o = cc
  serve_loop-stops (changed ∷ hs) between after order d calm calm' o =
      ends_or d _ (λ _. serve_loop-stops hs between after order d calm calm' o)
  serve_loop-stops (signalled ∷ hs) between after order d calm calm' o =
      serve_loop-stops hs between after order (order_stop d) calm calm' o

  -- A daemon that was not ordered to stop does so only if one of the streams or signals orders it.
  serve_loop-order :
      (hs : List Happening) (d d' : DaemonState)
      → d.shutdown ≡ false
      → serve_loop os from_str to_string hs d ≡ stopped d'
      → any is_order hs ≡ true
  unfolding serve_loop
  serve_loop-order [] d d' s e = cc
  serve_loop-order (accepted line ∷ hs) d d' s e =
      elim (Bool-cases (orders_stop os from_str to_string line)) [
        | inl o ↦ rw o refl
        | inr o ↦ rw o (
            serve_loop-order hs (handle_stream os from_str to_string line d).1 d'
              (handle_stream-shutdown os from_str to_string line d ∙ ground arith) e)
      ]
  serve_loop-order (accept_failed x ∷ hs) d d' s e = cc
  serve_loop-order (changed ∷ hs) d d' s e = serve_loop-order hs d d' s (goes_on d.shutdown _ _ s e)
  serve_loop-order (signalled ∷ hs) d d' s e = refl
