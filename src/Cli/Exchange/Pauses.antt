-- ===== src/Cli/Exchange/Pauses.antt =====
-- An exchange with the daemon makes no pause, on either transport.
use sshflow.Prelude.{
  ℕ, ◌+◌, ◌≡◌, refl, [], ◌∷◌, List, Text, arith, inl, inr, Option-cases, parse_uint, max_u16,
  if_both,
}
use sshflow.Core.Protocol.{DaemonRequest, DaemonResponse}
use sshflow.Config.Home.{sshflow_home}
use sshflow.Config.Home.Effects.{sshflow_home-Kept}
use sshflow.System.{
  System, Trace, Effect, ran, spawned, spawn_failed, created_dir, set_mode, read_clock, wrote_file,
  wrote_metrics, opened_log, connected, removed, bound, slept,
}
use sshflow.Cli.Process.{Desk, World, Outcome}
use sshflow.Cli.Exchange.{
  send_raw, send_raw_unix, send_raw_windows, read_response, write_request, transmit, read_endpoint,
  read_port, exchange_lines,
}

abbrev slept_by : Effect → ℕ
slept_by (slept ms) = ms
slept_by (ran c) = 0
slept_by (spawned c payload) = 0
slept_by (spawn_failed c) = 0
slept_by (created_dir p) = 0
slept_by (set_mode p m) = 0
slept_by read_clock = 0
slept_by (wrote_file p s) = 0
slept_by (wrote_metrics p) = 0
slept_by (opened_log p) = 0
slept_by (connected p) = 0
slept_by (removed p) = 0
slept_by (bound p) = 0

-- The milliseconds that were slept.
unfoldable pub slept_ms : Trace → ℕ
slept_ms [] = 0
slept_ms (e ∷ t) = slept_by e + slept_ms t

slept_ms-sshflow_home : (os : System) (t : Trace) → slept_ms (sshflow_home os t).1 ≡ slept_ms t
unfolding slept_ms
slept_ms-sshflow_home os t =
    sshflow_home-Kept (λ t'. slept_ms t' ≡ slept_ms t)
      (record { by_dir = λ p t' h. omega (arith, h); by_mode = λ p m t' h. omega (arith, h) }) os t
      refl

module _ {S : Type 0} (os : System) (desk : Desk S) where
  read_port-world : (l : Text) (w : World S) → (read_port os desk l w).1 ≡ w
  unfolding read_port
  read_port-world l w = elim (Option-cases (parse_uint max_u16 l)) [
    | inl e ↦ rw (e, read_port) refl
    | inr (port, e) ↦ rw (e, read_port) refl
  ]

  read_endpoint-world : (ls : List Text) (w : World S) → (read_endpoint os desk ls w).1 ≡ w
  unfolding read_endpoint
  read_endpoint-world [] w = refl
  read_endpoint-world (l ∷ []) w = ground (arith, read_port-world l w)
  read_endpoint-world (l ∷ token ∷ rest) w = ground (arith, read_port-world l w)

  slept_ms-unix :
      (r : DaemonRequest) (w : World S)
      → slept_ms (send_raw_unix os desk r w).1.trace ≡ slept_ms w.trace
  unfolding send_raw_unix slept_ms write_request transmit read_response
  slept_ms-unix r w = ground (arith, slept_ms-sshflow_home os w.trace)

  slept_ms-windows :
      (r : DaemonRequest) (w : World S)
      → slept_ms (send_raw_windows os desk r w).1.trace ≡ slept_ms w.trace
  unfolding send_raw_windows slept_ms write_request exchange_lines read_response
  slept_ms-windows r w = grind (arith, slept_ms-sshflow_home os w.trace, read_endpoint-world)

  pub slept_ms-send_raw :
      (r : DaemonRequest) (w : World S) → slept_ms (send_raw os desk r w).1.trace ≡ slept_ms w.trace
  unfolding send_raw
  slept_ms-send_raw r w =
      if_both {A = Outcome DaemonResponse × World S} (λ x. slept_ms x.1.trace ≡ slept_ms w.trace)
        os.windows (slept_ms-windows r w) (slept_ms-unix r w)
