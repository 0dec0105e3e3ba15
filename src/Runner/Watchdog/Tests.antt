-- ===== src/Runner/Watchdog/Tests.antt =====
-- Runs of the model of the crash-only watchdog (src/process/manager.rs) on concrete exits.
use qontinui_supervisor.Prelude.{
  ℕ, ◌*◌, ◌≤◌, ◌≡◌, refl, true, false, some, List, [], ◌∷◌, arith, count_if,
}
use qontinui_supervisor.Runner.Watchdog.{Exit, in_window, observe_exit, crash_loop_disabled_reason}
use qontinui_supervisor.Runner.Watchdog.Window.{
  WatchdogEvent, exited, controlled, run, start, step, restarts_rate_limited,
}
use qontinui_supervisor.Runner.Watchdog.Disarm.{Exhausted, crash_loop_disarms}

abbrev crash : Exit
crash = record {
  had_child_handle = true;
  stop_requested = false;
  clean_exit = false;
  globally_armed = true;
}

abbrev second : ℕ
second = 1000000000

abbrev crashes : List WatchdogEvent
crashes =
    exited (1 * second) crash
    ∷ exited (20 * second) crash
    ∷ controlled true false
    ∷ exited (60 * second) crash
    ∷ []

restarts_rate_limited_example :
    count_if (in_window (100 * second)) (run (start true) crashes).restarts ≤ 3
restarts_rate_limited_example =
    restarts_rate_limited true crashes (100 * second)
      (omega arith, (omega arith, (omega arith, omega arith)))

exhausted : Exhausted (100 * second) crash (run (start true) crashes).wd
unfolding run start step observe_exit
exhausted = record {
  spawned_here = refl;
  not_stopped = refl;
  crashed = refl;
  armed = refl;
  enabled = refl;
  not_disarmed = refl;
  spent = omega arith;
}

crash_loop_disarms_example :
    ((run (run (start true) crashes) (exited (100 * second) crash ∷ [])).wd.disabled_reason
      ≡ some crash_loop_disabled_reason)
    × ((run (run (start true) crashes) (exited (100 * second) crash ∷ [])).restarts
        ≡ (run (start true) crashes).restarts)
crash_loop_disarms_example =
    crash_loop_disarms (100 * second) crash [] (run (start true) crashes) exhausted tt
