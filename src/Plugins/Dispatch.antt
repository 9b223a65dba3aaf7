-- ===== src/Plugins/Dispatch.antt =====
-- Which hooks an event starts.
use sshflow.Prelude.{
  ◌≡◌, refl, ◌∙◌, ap, inl, inr, Bool, ◌||◌, List, [], ◌∷◌, Text, ok, if◌then◌else◌, arith,
  Bool-cases, any, text_eq, is_empty,
}
use sshflow.Core.Events.{Event, name}
use sshflow.System.{
  System, Trace, Command, Effect, ran, spawned, spawn_failed, created_dir, set_mode, read_clock,
  wrote_file, wrote_metrics, opened_log, connected, removed, bound, slept,
}
use sshflow.Plugins.{
  PluginDef, PluginManager, hook_command, is_subscribed, run_hook, run_hooks, dispatch,
}

-- The hooks that were started, or that failed to start, newest first, with what they were given.
abbrev attempt : Effect → List Command → List Command
attempt (spawned c payload) rest = c ∷ rest
attempt (spawn_failed c) rest = c ∷ rest
attempt (ran c) rest = rest
attempt (created_dir p) rest = rest
attempt (set_mode p m) rest = rest
attempt read_clock rest = rest
attempt (wrote_file p s) rest = rest
attempt (wrote_metrics p) rest = rest
attempt (opened_log p) rest = rest
attempt (connected p) rest = rest
attempt (removed p) rest = rest
attempt (bound p) rest = rest
attempt (slept p) rest = rest

unfoldable pub attempts : Trace → List Command
attempts [] = []
attempts (e ∷ t) = attempt e (attempts t)

-- A plugin without event names, or with the event's name among them.
abbrev pub wants : Event → PluginDef → Bool
wants event p = is_empty p.events || any (λ e. text_eq e (name event)) p.events

-- The commands of the plugins that want the event, in front of others: the last is newest.
unfoldable pub hooks_of : Event → PluginManager → List Command → List Command
hooks_of event [] done = done
hooks_of event (p ∷ ps) done =
    hooks_of event ps (if wants event p then hook_command p ∷ done else done)

is_subscribed-wants : (event : Event) (p : PluginDef) → is_subscribed event p ≡ wants event p
unfolding is_subscribed
is_subscribed-wants event p = ground arith

module _ (os : System) (event : Event) (payload : Text) where
  attempts-run_hook :
      (p : PluginDef) (t : Trace) → attempts (run_hook os p payload t) ≡ hook_command p ∷ attempts t
  unfolding run_hook attempts
  attempts-run_hook p t = ground arith

  attempts-run_hooks :
      (ps : PluginManager) (t : Trace)
      → attempts (run_hooks os event payload ps t) ≡ hooks_of event ps (attempts t)
  unfolding run_hooks hooks_of
  attempts-run_hooks [] t = refl
  attempts-run_hooks (p ∷ ps) t = elim (Bool-cases (wants event p)) [
    | inl w ↦
        rw (w, is_subscribed-wants event p, w)
          (attempts-run_hooks ps (run_hook os p payload t)
            ∙ ap (hooks_of event ps) (attempts-run_hook p t))
    | inr w ↦ rw (w, is_subscribed-wants event p, w) (attempts-run_hooks ps t)
  ]

-- An event that can be serialised starts the command of every plugin that subscribes to it by
-- name or has no list of events, in the order of the plugins, and of no other plugin; a hook that
-- fails to start does not keep the later ones from starting.
pub attempts-dispatch :
    (os : System) (ps : PluginManager) (event : Event) (t : Trace) (payload : Text)
    → os.event_json event ≡ ok payload
    → attempts (dispatch os ps event t) ≡ hooks_of event ps (attempts t)
unfolding dispatch
attempts-dispatch os ps event t payload e =
    rw (e, dispatch) (attempts-run_hooks os event payload ps t)
