-- ===== src/Runner/Purge/Tests.antt =====
-- Runs of the models of the sweeps (src/routes/runners.rs, src/process/manager.rs) on a registry of four
-- runners: the primary, a dead test runner, a living one and a placeholder that waits for a build.
use qontinui_supervisor.Prelude.{
  ℕ, ◌≡◌, refl, arith, pos, String, Bool, true, false, none, some, [], ◌∷◌, not, ◌==◌, eqb,
  if◌then◌else◌, string_eq,
}
use qontinui_supervisor.Prelude.Assoc.{get, remove}
use qontinui_supervisor.Logs.{new as new_logs}
use qontinui_supervisor.Runner.Lifecycle.{
  RunnerState, ManagedRunner, SharedState, new, err, validation,
}
use qontinui_supervisor.Runner.Purge.{
  Sweep, purge_stale_test_runners_core, reap_stale_test_runners, remove_runner,
}
use qontinui_supervisor.Runner.Purge.Swept.{Gone, may_purge, may_reap, sweeps-Gone}

abbrev up : RunnerState
up = record new { running = true; pid = some 4711 }

abbrev runner_at : String → ℕ → Bool → RunnerState → ManagedRunner
runner_at id port is_primary r = record {
  id = id;
  name = id;
  port = port;
  is_primary = is_primary;
  runner = r;
  logs = new_logs;
  recent_panic = none;
  early_log_path = none;
  panic_log_dir = none;
  build_provenance = none;
}

abbrev cell : ℕ → ManagedRunner
cell a =
    if eqb a 0
    then runner_at "primary" 9876 true up
    else if eqb a 1
    then runner_at "test-1" 9877 false up
    else if eqb a 2
    then runner_at "test-2" 9878 false up
    else runner_at "test-3" 9879 false new

abbrev state : SharedState
state = record {
  runners = ("primary", 0) ∷ ("test-1", 1) ∷ ("test-2", 2) ∷ ("test-3", 3) ∷ [];
  cells = cell;
  runner = new;
  stopped_runners = [];
  diagnostics = [];
}

abbrev during_build : Sweep
during_build = record {
  is_temp_runner = λ id. not (id == "primary");
  port_alive = λ port. eqb port 9878;
  requester_id = λ a. if eqb a 1 then some "session-1" else none;
  elapsed_secs = λ a. 300;
  any_slot_busy = true;
  now = 1000;
  evicted_at = 1000;
  max_entries = 20;
  ttl_secs = pos 1800;
}

dead_runner_is_reaped : (reap_stale_test_runners during_build state).0 ≡ 1 ∷ []
unfolding reap_stale_test_runners new
dead_runner_is_reaped = refl

purge_takes_placeholder :
    (purge_stale_test_runners_core during_build false none state).0 ≡ 1 ∷ 3 ∷ []
unfolding purge_stale_test_runners_core new
purge_takes_placeholder = refl

primary_is_not_removed :
    (remove_runner during_build "primary" state).0
    ≡ err (validation "Cannot remove the primary runner")
unfolding remove_runner get
primary_is_not_removed = refl

placeholder_is_removed : get "test-3" (remove_runner during_build "test-3" state).1.runners ≡ none
unfolding remove_runner get new remove
placeholder_is_removed = refl

sweeps-Gone_example :
    Gone during_build
      (may_purge during_build true (some "session-1") state)
      state
      "test-1"
      (purge_stale_test_runners_core during_build true (some "session-1") state)
    × Gone during_build
        (may_reap during_build state)
        state
        "test-1"
        (reap_stale_test_runners during_build state)
sweeps-Gone_example =
    sweeps-Gone during_build true (some "session-1") state "test-1"
      (ground arith, (ground arith, (ground arith, (ground arith, tt))))
