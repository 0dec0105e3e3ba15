-- ===== src/Runner/Watchdog/Decision.antt =====
-- When an exit is answered by a restart: `decide_crash_restart` of src/process/manager.rs.
use qontinui_supervisor.Prelude.{
  ℕ, zero, suc, ◌+◌, ◌<◌, ◌≡◌, ◌≢◌, ◌∙◌, ◌↔◌, Bool, true, false, none, some, arith, get_elem?,
  is_some, length, keep_if,
}
use qontinui_supervisor.Runner.Watchdog.{
  WatchdogState, Exit, restart, crash_restart_backoff_secs, decide_crash_restart, observe_exit,
  restart_after, in_window,
}

-- All that has to hold for a restart.
pub record MayRestart (x : Exit) (per_runner_enabled already_disarmed : Bool) (n : ℕ) : Type 0 where
  pub spawned_here : x.had_child_handle ≡ true
  pub not_stopped : x.stop_requested ≡ false
  pub crashed : x.clean_exit ≡ false
  pub armed : x.globally_armed ≡ true
  pub enabled : per_runner_enabled ≡ true
  pub not_disarmed : already_disarmed ≡ false
  pub budget : n < 3

restart_after_lem :
    (n attempt delay : ℕ)
    → n < 3
    → (restart_after n ≡ some (restart attempt delay))
      ↔ ((attempt ≡ n + 1) × (get_elem? crash_restart_backoff_secs n ≡ some delay))
unfolding restart_after
restart_after_lem zero a d h = ground arith
restart_after_lem (suc zero) a d h = ground arith
restart_after_lem (suc (suc zero)) a d h = ground arith
restart_after_lem (suc (suc (suc n))) a d h = absurd (omega arith)

decide_gate :
    (x : Exit) (e d : Bool) (n attempt delay : ℕ)
    → decide_crash_restart x e d n ≡ some (restart attempt delay)
    → MayRestart x e d n × (restart_after n ≡ some (restart attempt delay))
unfolding decide_crash_restart
decide_gate x e d n a delay h = ground arith

decide_passes :
    (x : Exit) (e d : Bool) (n : ℕ)
    → MayRestart x e d n
    → decide_crash_restart x e d n ≡ restart_after n
unfolding decide_crash_restart
decide_passes x e d n h = ground arith

-- The watchdog restarts exactly if the supervisor spawned the process, no operator asked for a
-- stop, the exit was unclean, the watchdog is armed, enabled and not disarmed, and fewer than three
-- restarts stand in the window; the attempt is then numbered from one and waits for its place in
-- the backoff table.
pub decide_crash_restart_iff :
    (x : Exit) (per_runner_enabled already_disarmed : Bool) (n attempt delay : ℕ)
    → (decide_crash_restart x per_runner_enabled already_disarmed n ≡ some (restart attempt delay))
      ↔ (MayRestart x per_runner_enabled already_disarmed n
          × (attempt ≡ n + 1)
          × (get_elem? crash_restart_backoff_secs n ≡ some delay))
decide_crash_restart_iff x e d n a delay = (
  λ h.
      let (may, after) = decide_gate x e d n a delay h in
      let (number, wait) = (restart_after_lem n a delay may.budget).0 after in (may, number, wait),
  λ (may, number, wait).
      decide_passes x e d n may ∙ (restart_after_lem n a delay may.budget).1 (number, wait),
)

decide-ne-none : (x : Exit) (e d : Bool) (n : ℕ) → decide_crash_restart x e d n ≢ none
unfolding decide_crash_restart
decide-ne-none x e d zero = ground arith
decide-ne-none x e d (suc zero) = ground arith
decide-ne-none x e d (suc (suc zero)) = ground arith
decide-ne-none x e d (suc (suc (suc n))) = ground arith

-- Bookkeeping an exit never panics, whatever the state: the index into the backoff table is in
-- bounds.
pub observe_exit-ne-none : (now : ℕ) (x : Exit) (wd : WatchdogState) → observe_exit now x wd ≢ none
unfolding observe_exit
observe_exit-ne-none now x wd = ground (
  arith,
  decide-ne-none x wd.enabled (is_some wd.disabled_reason)
      (length (keep_if (in_window now) wd.crash_history)),
)
