-- ===== src/Runner/Watchdog/Disarm.antt =====
-- The crash-loop guard of `maybe_crash_restart` in src/process/manager.rs.
use qontinui_supervisor.Prelude.{
  ℕ, ◌≤◌, ◌≡◌, ◌∙◌, true, false, some, String, List, [], ◌∷◌, arith, is_some, length, keep_if,
}
use qontinui_supervisor.Runner.Watchdog.{WatchdogState, Exit, crash_loop_disabled_reason, in_window}
use qontinui_supervisor.Runner.Watchdog.Window.{
  WatchdogEvent, exited, controlled, Watched, step, run,
}

-- No operator command among the events resets the attempts.
abbrev pub NoReset : List WatchdogEvent → Type 0
NoReset [] = Unit
NoReset (exited _ _ ∷ es) = NoReset es
NoReset (controlled _ reset_attempts ∷ es) = (reset_attempts ≡ false) × NoReset es

-- A crash that would otherwise be restarted, while three restarts stand in the window.
pub record Exhausted (now : ℕ) (x : Exit) (wd : WatchdogState) : Type 0 where
  pub spawned_here : x.had_child_handle ≡ true
  pub not_stopped : x.stop_requested ≡ false
  pub crashed : x.clean_exit ≡ false
  pub armed : x.globally_armed ≡ true
  pub enabled : wd.enabled ≡ true
  pub not_disarmed : is_some wd.disabled_reason ≡ false
  pub spent : 3 ≤ length (keep_if (in_window now) wd.crash_history)

step-Exhausted :
    (now : ℕ) (x : Exit) (s : Watched)
    → Exhausted now x s.wd
    → ((step s (exited now x)).wd.disabled_reason ≡ some crash_loop_disabled_reason)
      × ((step s (exited now x)).restarts ≡ s.restarts)
unfolding step
step-Exhausted now x s h = ground arith

step_disarmed :
    (e : WatchdogEvent) (s : Watched) (reason : String)
    → s.wd.disabled_reason ≡ some reason
    → NoReset (e ∷ [])
    → ((step s e).wd.disabled_reason ≡ some reason) × ((step s e).restarts ≡ s.restarts)
unfolding step
step_disarmed (exited now x) s reason h n = ground arith
step_disarmed (controlled enabled reset) s reason h n = ground arith

run_disarmed :
    (es : List WatchdogEvent) (s : Watched) (reason : String)
    → s.wd.disabled_reason ≡ some reason
    → NoReset es
    → ((run s es).wd.disabled_reason ≡ some reason) × ((run s es).restarts ≡ s.restarts)
unfolding run
run_disarmed [] s reason h n = ground arith
run_disarmed (exited now x ∷ es) s reason h n =
    let (still, none_new) = step_disarmed (exited now x) s reason h (omega arith) in
    let (later, rs) = run_disarmed es (step s (exited now x)) reason still n in
    (later, rs ∙ none_new)
run_disarmed (controlled enabled reset ∷ es) s reason h n =
    let (still, none_new) = step_disarmed (controlled enabled reset) s reason h (n.0, tt) in
    let (later, rs) = run_disarmed es (step s (controlled enabled reset)) reason still n.1 in
    (later, rs ∙ none_new)

-- A crash that finds three restarts in the window disarms the watchdog, and nothing is restarted
-- then, whatever exits and switches of `enabled` follow, as long as no operator resets the attempts.
pub crash_loop_disarms :
    (now : ℕ) (x : Exit) (es : List WatchdogEvent) (s : Watched)
    → Exhausted now x s.wd
    → NoReset es
    → ((run s (exited now x ∷ es)).wd.disabled_reason ≡ some crash_loop_disabled_reason)
      × ((run s (exited now x ∷ es)).restarts ≡ s.restarts)
unfolding run
crash_loop_disarms now x es s h n =
    let (set, none_new) = step-Exhausted now x s h in
    let (later, rs) = run_disarmed es (step s (exited now x)) crash_loop_disabled_reason set n in
    (later, rs ∙ none_new)
