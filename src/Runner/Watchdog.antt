-- ===== src/Runner/Watchdog.antt =====
-- The crash-only watchdog: `WatchdogState` of src/state.rs, `decide_crash_restart` and the part of
-- `maybe_crash_restart` under the watchdog's lock in src/process/manager.rs, and
-- `control_runner_watchdog` of src/routes/runners.rs. Instants are nanoseconds.
pub mod Window
pub mod Decision
pub mod Disarm
mod Tests
use qontinui_supervisor.Prelude.{
  ℕ, zero, suc, ◌+◌, ◌*◌, ◌%◌, ◌^◌, String, Bool, true, false, Option, none, some, List, [], ◌∷◌,
  ◌++◌, ◌&&◌, not, leb, if◌then◌else◌, is_some, length, keep_if, get_elem?, pos, ltb_ℤ,
  seconds_between,
}

pub record WatchdogState : Type 0 where
  pub enabled : Bool
  pub restart_attempts : ℕ  -- u32
  pub last_restart_at : Option ℕ
  pub crash_history : List ℕ
  pub disabled_reason : Option String

unfoldable pub new : Bool → WatchdogState
new enabled = record {
  enabled = enabled;
  restart_attempts = 0;
  last_restart_at = none;
  crash_history = [];
  disabled_reason = none;
}

abbrev pub crash_restart_backoff_secs : List ℕ
crash_restart_backoff_secs = 5 ∷ 30 ∷ 120 ∷ []

abbrev pub crash_restart_max_per_window : ℕ
crash_restart_max_per_window = 3

abbrev pub crash_restart_window_secs : ℕ
crash_restart_window_secs = 30 * 60

abbrev pub crash_loop_disabled_reason : String
crash_loop_disabled_reason = "crash loop — operator required"

-- The flag of the command line, and the kill switch in the environment.
unfoldable pub crash_restart_globally_armed : Bool → Bool → Bool
crash_restart_globally_armed watchdog_enabled_at_start env_disabled =
    watchdog_enabled_at_start && not env_disabled

pub data CrashRestartDecision : Type 0 where
  restart : ℕ → ℕ → CrashRestartDecision
  disarm : CrashRestartDecision
  skip_no_child_handle skip_operator_stop skip_clean_exit : CrashRestartDecision
  skip_not_armed skip_disabled skip_disarmed : CrashRestartDecision

-- What the exit monitor knows of an exit.
pub record Exit : Type 0 where
  pub had_child_handle : Bool
  pub stop_requested : Bool
  pub clean_exit : Bool
  pub globally_armed : Bool

-- The index into the backoff table; `none` is the panic of an index out of bounds.
restart_after : ℕ → Option CrashRestartDecision
restart_after n = elim (get_elem? crash_restart_backoff_secs n) [
  | none ↦ none
  | some delay_secs ↦ some (restart (n % 2 ^ 32 + 1) delay_secs)
]

unfoldable pub decide_crash_restart : Exit → Bool → Bool → ℕ → Option CrashRestartDecision
unfolding restart_after
decide_crash_restart x per_runner_enabled already_disarmed restarts_in_window =
    if not x.had_child_handle
    then some skip_no_child_handle
    else if x.stop_requested
    then some skip_operator_stop
    else if x.clean_exit
    then some skip_clean_exit
    else if not x.globally_armed
    then some skip_not_armed
    else if not per_runner_enabled
    then some skip_disabled
    else if already_disarmed
    then some skip_disarmed
    else if leb crash_restart_max_per_window restarts_in_window
    then some disarm
    else restart_after restarts_in_window

-- The test of `retain`: the crash is younger than the window.
unfoldable pub in_window : ℕ → ℕ → Bool
in_window now t = ltb_ℤ (seconds_between now t) (pos crash_restart_window_secs)

-- The bookkeeping for a decision.
bookkeep : ℕ → WatchdogState → CrashRestartDecision → WatchdogState
bookkeep now wd (restart attempt delay_secs) = record wd {
  restart_attempts = (wd.restart_attempts + 1) % 2 ^ 32;
  last_restart_at = some now;
  crash_history = wd.crash_history ++ now ∷ [];
}
bookkeep now wd disarm = record wd { disabled_reason = some crash_loop_disabled_reason }
bookkeep now wd _ = wd

-- What an exit does to the state under the write lock; `none` is a panic.
unfoldable pub observe_exit :
    ℕ → Exit → WatchdogState → Option (CrashRestartDecision × WatchdogState)
unfolding decide_crash_restart bookkeep in_window
observe_exit now x wd =
    let pruned = record wd { crash_history = keep_if (in_window now) wd.crash_history } in
    elim (decide_crash_restart x pruned.enabled (is_some pruned.disabled_reason)
      (length pruned.crash_history)) [
        | none ↦ none
        | some decision ↦ some (decision, bookkeep now pruned decision)
      ]

-- POST /runners/{id}/watchdog
unfoldable pub control_runner_watchdog : Bool → Bool → WatchdogState → WatchdogState
control_runner_watchdog enabled reset_attempts wd =
    if reset_attempts
    then record wd {
      enabled = enabled;
      restart_attempts = 0;
      disabled_reason = none;
      crash_history = [];
    }
    else record wd { enabled = enabled }
