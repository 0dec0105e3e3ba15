-- ===== src/Runner/Lifecycle/World.antt =====
-- The tasks that act on one runner side by side: starts, exit monitors, scheduled restarts, stops, the
-- reaper, the health check and the orphan scan (src/process/manager.rs, src/health_cache.rs,
-- src/process/orphan_scan.rs). Each step is what one task
-- does under one lock, and the steps of different tasks come in any order.
use qontinui_supervisor.Prelude.{
  ℕ, zero, suc, ◌≡◌, Bool, true, false, not, Option, some, List, [], ◌∷◌, ◌||◌, ◌&&◌, is_some,
  get_elem?,
}
use qontinui_supervisor.Runner.Watchdog.{
  WatchdogState, Exit, CrashRestartDecision, restart, observe_exit, control_runner_watchdog,
}
use qontinui_supervisor.Runner.Lifecycle.{
  RunnerState, new, publish_start, take_process, observe_gone, request_stop, forget_orphan,
  publish_stop, adopt_pid, sync_health, recover_pid,
}

-- The runner and its watchdog, and the tasks by the place where they stand: starts that have seen the
-- runner not running; exit monitors that have not taken the child yet, that wait for the child that
-- they took, and that hold what they read when it was gone; restarts that wait out their backoff, that
-- have checked the runner, and that have checked the watchdog as well; and stops.
pub record World : Type 0 where
  pub runner : RunnerState
  pub wd : WatchdogState
  pub starts : ℕ
  pub monitors : ℕ
  pub waits : List (Option ℕ)
  pub exits : List Exit
  pub backoffs : ℕ
  pub rechecked : ℕ
  pub rearmed : ℕ
  pub stops : ℕ

abbrev pub remove_at {ℓ} : {A : Type ℓ} → List A → ℕ → List A
remove_at [] i = []
remove_at (x ∷ xs) zero = xs
remove_at (x ∷ xs) (suc i) = x ∷ remove_at xs i

-- What the exit monitor gives to the watchdog. Without a child there is no exit status, and so no
-- clean exit.
unfoldable pub exit : Option ℕ → Bool → Bool → Bool → Exit
exit child stop_requested success globally_armed = record {
  had_child_handle = is_some child;
  stop_requested = stop_requested;
  clean_exit = is_some child && success;
  globally_armed = globally_armed;
}

abbrev pub is_restart : CrashRestartDecision → Bool
is_restart (restart _ _) = true
is_restart _ = false

abbrev pub count : Bool → ℕ → ℕ
count true n = suc n
count false n = n

-- Who takes a step.
pub data Actor : Type 0 where
  api operator orphan_scan health_check reaper spawn monitor watchdog stop : Actor

-- `start_managed_runner`, called by a route, and the rest of a start.
pub data StartStep (w : World) : Actor → World → Type 0 where
  asks_start : w.runner.running ≡ false → StartStep w api (record w { starts = suc w.starts })
  fails_to_spawn : (n : ℕ) → w.starts ≡ suc n → StartStep w spawn (record w { starts = n })
  spawns :
      (n child now : ℕ) (pid : Option ℕ)
      → w.starts ≡ suc n
      → StartStep w spawn (record w {
        runner = publish_start (some child) pid now w.runner;
        starts = n;
        monitors = suc w.monitors;
      })

-- `monitor_runner_process_exit`
pub data MonitorStep (w : World) : World → Type 0 where
  takes_child :
      (n : ℕ)
      → w.monitors ≡ suc n
      → MonitorStep w (record w {
        runner = take_process w.runner;
        monitors = n;
        waits = w.runner.process ∷ w.waits;
      })
  sees_exit :
      (i : ℕ) (child : Option ℕ) (success globally_armed : Bool)
      → get_elem? w.waits i ≡ some child
      → MonitorStep w (record w {
        runner = observe_gone w.runner;
        waits = remove_at w.waits i;
        exits = exit child w.runner.stop_requested success globally_armed ∷ w.exits;
      })

-- `maybe_crash_restart`, and the task that it spawns, up to the check of the start that it calls.
pub data WatchdogStep (w : World) : World → Type 0 where
  decides :
      (i now : ℕ) (x : Exit) (decision : CrashRestartDecision) (wd : WatchdogState)
      → get_elem? w.exits i ≡ some x
      → observe_exit now x w.wd ≡ some (decision, wd)
      → WatchdogStep w (record w {
        wd = wd;
        exits = remove_at w.exits i;
        backoffs = count (is_restart decision) w.backoffs;
      })
  rechecks_runner :
      (n : ℕ)
      → w.backoffs ≡ suc n
      → (w.runner.running || w.runner.stop_requested) ≡ false
      → WatchdogStep w (record w { backoffs = n; rechecked = suc w.rechecked })
  skips_runner :
      (n : ℕ)
      → w.backoffs ≡ suc n
      → (w.runner.running || w.runner.stop_requested) ≡ true
      → WatchdogStep w (record w { backoffs = n })
  rechecks_watchdog :
      (n : ℕ)
      → w.rechecked ≡ suc n
      → (not w.wd.enabled || is_some w.wd.disabled_reason) ≡ false
      → WatchdogStep w (record w { rechecked = n; rearmed = suc w.rearmed })
  skips_watchdog :
      (n : ℕ)
      → w.rechecked ≡ suc n
      → (not w.wd.enabled || is_some w.wd.disabled_reason) ≡ true
      → WatchdogStep w (record w { rechecked = n })
  starts_again :
      (n : ℕ)
      → w.rearmed ≡ suc n
      → w.runner.running ≡ false
      → WatchdogStep w (record w { rearmed = n; starts = suc w.starts })
  finds_running :
      (n : ℕ)
      → w.rearmed ≡ suc n
      → w.runner.running ≡ true
      → WatchdogStep w (record w { rearmed = n })

-- `stop_runner_by_id`. It looks for an orphan if it has read no pid before, so the pid may have changed
-- since.
pub data StopStep (w : World) : World → Type 0 where
  asks_stop : StopStep w (record w { runner = request_stop w.runner; stops = suc w.stops })
  kills_orphan :
      (n : ℕ) → w.stops ≡ suc n → StopStep w (record w { runner = forget_orphan w.runner })
  confirms_stop :
      (n : ℕ)
      → w.stops ≡ suc n
      → StopStep w (record w { runner = publish_stop w.runner; stops = n })
  gives_up : (n : ℕ) → w.stops ≡ suc n → StopStep w (record w { stops = n })

-- `spawn_health_cache_refresher`, and the probe at startup.
pub data HealthStep (w : World) : World → Type 0 where
  checks_health :
      (runner_responding : Bool)
      → HealthStep w (record w { runner = sync_health runner_responding w.runner })
  recovers_pid : (pid : ℕ) → HealthStep w (record w { runner = recover_pid pid w.runner })
  marks_running :
      HealthStep w (record w { runner = (let r = w.runner in record r { running = true }) })

pub data Step (w : World) : Actor → World → Type 0 where
  starts : {who : Actor} {w' : World} → StartStep w who w' → Step w who w'
  monitors : {w' : World} → MonitorStep w w' → Step w monitor w'
  watches : {w' : World} → WatchdogStep w w' → Step w watchdog w'
  stops : {w' : World} → StopStep w w' → Step w stop w'
  probes : {w' : World} → HealthStep w w' → Step w health_check w'
  -- The command of the operator, `control_runner_watchdog`.
  controls :
      (enabled reset_attempts : Bool)
      → Step w operator (record w { wd = control_runner_watchdog enabled reset_attempts w.wd })
  -- `reap_stale_test_runners` and `cleanup_orphaned_runners`, which have found the port free.
  finds_dead : Step w reaper (record w { runner = forget_orphan w.runner })
  -- `adopt_pid_into_registry`
  adopts : (pid now : ℕ) → Step w orphan_scan (record w { runner = (adopt_pid pid now w.runner).1 })

-- A run, with who acts in it.
pub data Run (w : World) : List Actor → World → Type 0 where
  rest : Run w [] w
  act :
      {who : Actor} {ws : List Actor} {w' w'' : World}
      → Run w ws w'
      → Step w' who w''
      → Run w (who ∷ ws) w''

unfoldable pub idle : WatchdogState → World
unfolding new
idle wd = record {
  runner = new;
  wd = wd;
  starts = 0;
  monitors = 0;
  waits = [];
  exits = [];
  backoffs = 0;
  rechecked = 0;
  rearmed = 0;
  stops = 0;
}
