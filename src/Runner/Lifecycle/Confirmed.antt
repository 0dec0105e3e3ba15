-- ===== src/Runner/Lifecycle/Confirmed.antt =====
-- How a stop ends: `stop_runner_by_id` of src/process/manager.rs.
use qontinui_supervisor.Prelude.{
  ℕ, ◌≡◌, String, Bool, true, false, Option, none, some, arith, if◌then◌else◌, ◌||◌, string_eq,
  eqb_iff,
}
use qontinui_supervisor.Prelude.Assoc.{get, remove}
use qontinui_supervisor.Runner.Reap.{stop_reap_lem}
use qontinui_supervisor.Runner.Lifecycle.{
  RunnerState, SharedState, runner_not_found, process, Result, ok, err, is_test,
}
use qontinui_supervisor.Runner.Lifecycle.Stop.{Stopping, begin_stop, finish_stop, stop_runner_by_id}

-- One of the four looks finds the port free.
abbrev pub is_confirmed : (ℕ → Bool) → Bool
is_confirmed port_free = port_free 0 || (port_free 1 || (port_free 2 || port_free 3))

-- A runner that is stopped on request.
pub record IsStopped (r : RunnerState) : Type 0 where
  pub no_process : r.process ≡ none
  pub not_running : r.running ≡ false
  pub not_started : r.started_at ≡ none
  pub no_pid : r.pid ≡ none
  pub latched : r.stop_requested ≡ true

-- The ways in which a stop of the runner in cell `a` can end.
pub record StopEnds (a : ℕ) (x : Stopping) (s : SharedState)
    (o : Option (Result Unit × SharedState)) : Type 0 where
  pub confirmed :
      is_confirmed x.port_free ≡ true
      → (s' : SharedState) × (o ≡ some (ok tt, s'))
        × IsStopped (s'.cells a).runner
        × (s'.runners
            ≡ (if is_test (s.cells a).id then remove (s.cells a).id s.runners else s.runners))
  pub unconfirmed :
      is_confirmed x.port_free ≡ false
      → (s' : SharedState) × (o ≡ some (err (process x.message), s'))
        × (s'.runners ≡ s.runners)
        × (s'.stopped_runners ≡ s.stopped_runners)
        × ((s'.cells a).runner.stop_requested ≡ true)

finish_stop-IsStopped :
    (a : ℕ) (x : Stopping) (s : SharedState)
    → (s.cells a).runner.stop_requested ≡ true
    → IsStopped ((finish_stop a x s).cells a).runner
unfolding finish_stop
finish_stop-IsStopped a x s h = record {
  no_process = ground (arith, eqb_iff a a);
  not_running = ground (arith, eqb_iff a a);
  not_started = ground (arith, eqb_iff a a);
  no_pid = ground (arith, eqb_iff a a);
  latched = ground (arith, h, eqb_iff a a);
}

finish_stop-runners :
    (a : ℕ) (x : Stopping) (s : SharedState)
    → (finish_stop a x s).runners
      ≡ (if is_test (s.cells a).id then remove (s.cells a).id s.runners else s.runners)
unfolding finish_stop
finish_stop-runners a x s = ground arith

-- What the first part of a stop leaves.
record Begun (a : ℕ) (s s' : SharedState) : Type 0 where
  latched : (s'.cells a).runner.stop_requested ≡ true
  same_id : (s'.cells a).id ≡ (s.cells a).id
  same_runners : s'.runners ≡ s.runners
  same_cache : s'.stopped_runners ≡ s.stopped_runners

begin_stop-Begun : (a : ℕ) (x : Stopping) (s : SharedState) → Begun a s (begin_stop a x s)
unfolding begin_stop
begin_stop-Begun a x s = record {
  latched = ground (arith, eqb_iff a a);
  same_id = ground (arith, eqb_iff a a);
  same_runners = ground arith;
  same_cache = ground arith;
}

-- A stop of a registered runner reports success exactly if one of four looks finds its port free. The
-- runner is then not running, with no process, pid or start, its stop request stays latched, and its
-- id leaves the registry if it is a test runner and only then. Otherwise the stop reports an error,
-- the registry and the cache stay as they were, and the request stays latched. An id that is not
-- registered gives an error and changes nothing.
pub stop_runner_by_id-StopEnds :
    (id : String) (x : Stopping) (s : SharedState)
    → ((a : ℕ) → get id s.runners ≡ some a → StopEnds a x s (stop_runner_by_id id x s))
      × (get id s.runners ≡ none → stop_runner_by_id id x s ≡ some (err (runner_not_found id), s))
unfolding stop_runner_by_id
stop_runner_by_id-StopEnds id x s = (
  λ a e.
      let b = begin_stop-Begun a x s in
      let s1 = begin_stop a x s in
      record {
        confirmed = λ h. (
          finish_stop a x s1,
          ground (arith, e, h, stop_reap_lem x.port_free),
          finish_stop-IsStopped a x s1 b.latched,
          cc (finish_stop-runners a x s1, b.same_id, b.same_runners),
        );
        unconfirmed = λ h. (
          s1,
          ground (arith, e, h, stop_reap_lem x.port_free),
          b.same_runners,
          b.same_cache,
          b.latched,
        );
      },
  λ e. ground (arith, e),
)
