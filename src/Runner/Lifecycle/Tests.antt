-- ===== src/Runner/Lifecycle/Tests.antt =====
-- Runs of the models of starts, stops and restarts (src/process/manager.rs) on concrete runners.
use qontinui_supervisor.Prelude.{
  ℕ, ◌≡◌, refl, pos, String, Bool, true, false, none, some, [], ◌∷◌, ◌||◌, ltb, string_eq,
}
use qontinui_supervisor.Prelude.Assoc.{get}
use qontinui_supervisor.Logs.{new as new_logs}
use qontinui_supervisor.Runner.Watchdog.{new as new_watchdog}
use qontinui_supervisor.Runner.Lifecycle.{
  RunnerState, ManagedRunner, SharedState, new, runner_not_found, validation, manual,
  restart_started, Result, ok, err, request_stop, publish_stop, publish_start,
}
use qontinui_supervisor.Runner.Lifecycle.Start.{Spawned, launched}
use qontinui_supervisor.Runner.Lifecycle.Stop.{Stopping, stop_runner_by_id}
use qontinui_supervisor.Runner.Lifecycle.Confirmed.{StopEnds, stop_runner_by_id-StopEnds}
use qontinui_supervisor.Runner.Lifecycle.Restart.{is_manual, emit, restart_runner_by_id}
use qontinui_supervisor.Runner.Lifecycle.Restarted.{Closed, logged, restart_runner_by_id-Closed}
use qontinui_supervisor.Runner.Lifecycle.SamePlace.{restarted, restart_runner_by_id_lem}
use qontinui_supervisor.Runner.Lifecycle.World.{
  starts, watches, stops, World, api, spawn, watchdog, stop, Run, rest, act, asks_start, spawns,
  asks_stop, confirms_stop, skips_runner, idle,
}
use qontinui_supervisor.Runner.Lifecycle.Final.{Stays, stop_is_final}

abbrev all_temp : String → Bool
all_temp id = true

abbrev up : RunnerState
up = record {
  process = none;
  running = true;
  started_at = some 10;
  restart_requested = false;
  stop_requested = false;
  pid = some 4711;
}

abbrev test_runner : RunnerState → ManagedRunner
test_runner r = record {
  id = "test-1";
  name = "one";
  port = 9877;
  is_primary = false;
  runner = r;
  logs = new_logs;
  recent_panic = none;
  early_log_path = none;
  panic_log_dir = none;
  build_provenance = none;
}

abbrev state : RunnerState → SharedState
state r = record {
  runners = ("test-1", 5) ∷ [];
  cells = λ a. test_runner r;
  runner = new;
  stopped_runners = [];
  diagnostics = [];
}

abbrev spawned : Spawned
spawned = record {
  child = 2;
  pid = some 815;
  panic_log_dir = none;
  early_log_path = none;
  now = 50;
  legacy_now = 50;
}

abbrev stopping : Stopping
stopping = record {
  pid_on_port = none;
  is_gone = false;
  port_free = λ n. ltb 1 n;
  now = 40;
  evicted_at = 41;
  max_entries = 50;
  ttl_secs = pos 1800;
  message = "still held";
}

stop_runner_by_id-StopEnds_example :
    ((a : ℕ)
      → get "test-1" (state up).runners ≡ some a
      → StopEnds a stopping (state up) (stop_runner_by_id "test-1" stopping (state up)))
    × (get "test-1" (state up).runners ≡ none
        → stop_runner_by_id "test-1" stopping (state up)
          ≡ some (err (runner_not_found "test-1"), state up))
stop_runner_by_id-StopEnds_example = stop_runner_by_id-StopEnds "test-1" stopping (state up)

-- After the restart the stopped test runner is registered again.
restart_runner_by_id_lem_example :
    (s' : SharedState) × (restart_runner_by_id all_temp
        (λ id. id)
        (λ id. id)
        "test-1"
        true
        manual
        stopping
        (ok tt)
        (launched none spawned)
        (state up)
      ≡ some (ok tt, s'))
    × ((s'.cells 5).runner ≡ restarted spawned)
    × (get "test-1" s'.runners ≡ some 5)
unfolding get
restart_runner_by_id_lem_example =
    restart_runner_by_id_lem all_temp (λ id. id) (λ id. id) "test-1" true manual stopping none
      spawned 5 (state up) refl refl refl refl refl

restart_runner_by_id-Closed_example :
    ((all_temp "test-1" || is_manual manual) ≡ false
      → restart_runner_by_id all_temp
          (λ id. id)
          (λ id. id)
          "test-1"
          true
          manual
          stopping
          (ok tt)
          (launched none spawned)
          (state up)
        ≡ some (err (validation "test-1"), state up))
    × ((all_temp "test-1" || is_manual manual) ≡ true
        → get "test-1" (state up).runners ≡ none
        → restart_runner_by_id all_temp
            (λ id. id)
            (λ id. id)
            "test-1"
            true
            manual
            stopping
            (ok tt)
            (launched none spawned)
            (state up)
          ≡ some (err (runner_not_found "test-1"), emit (restart_started manual true) (state up)))
    × ((all_temp "test-1" || is_manual manual) ≡ true
        → (a : ℕ) → get "test-1" (state up).runners ≡ some a
        → (o : Result Unit × SharedState) × (restart_runner_by_id all_temp
              (λ id. id)
              (λ id. id)
              "test-1"
              true
              manual
              stopping
              (ok tt)
              (launched none spawned)
              (state up)
            ≡ some o)
          × Closed manual true (logged (restart_started manual true) []) o)
restart_runner_by_id-Closed_example =
    restart_runner_by_id-Closed all_temp (λ id. id) (λ id. id) "test-1" true manual stopping (ok tt)
      (launched none spawned) (state up)

abbrev stop_asked : World
stop_asked = record (idle (new_watchdog true)) {
  runner = request_stop up;
  monitors = 1;
  backoffs = 1;
  stops = 1;
}

abbrev stop_confirmed : World
stop_confirmed = record stop_asked { runner = publish_stop (request_stop up); stops = 0 }

-- A restart that was scheduled before the stop gives up after it.
skips_after_stop : Run stop_asked (watchdog ∷ stop ∷ []) (record stop_confirmed { backoffs = 0 })
unfolding idle publish_stop request_stop
skips_after_stop =
    act (act rest (stops (confirms_stop 0 refl))) (watches (skips_runner 0 refl refl))

stop_is_final_example : Stays true stop_asked (record stop_confirmed { backoffs = 0 })
unfolding idle request_stop
stop_is_final_example =
    stop_is_final stop_asked (record stop_confirmed { backoffs = 0 }) (watchdog ∷ stop ∷ [])
      skips_after_stop (refl, (refl, tt))
      (record { latched = refl; none_starting = refl; none_rechecked = refl; none_rearmed = refl })

-- A start that saw the runner not running before a stop outlives the stop: the request is cleared.
abbrev run_again : World
run_again = record (idle (new_watchdog true)) {
  runner = publish_start (some 1) (some 815) 50 (publish_stop (request_stop new));
  monitors = 1;
}

start_outlives_stop :
    Run (idle (new_watchdog true)) (spawn ∷ stop ∷ stop ∷ api ∷ []) run_again
    × (run_again.runner.running ≡ true)
    × (run_again.runner.stop_requested ≡ false)
unfolding idle new publish_start
start_outlives_stop = (
  act
      (act (act (act rest (starts (asks_start refl))) (stops asks_stop))
        (stops (confirms_stop 0 refl)))
      (starts (spawns 0 1 50 (some 815) refl)),
  refl,
  refl,
)
