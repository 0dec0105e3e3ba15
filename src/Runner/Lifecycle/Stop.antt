-- ===== src/Runner/Lifecycle/Stop.antt =====
-- `stop_runner_by_id` of src/process/manager.rs as built for Windows. What the operating system
-- answers is an argument; the drain and the close request are calls of the runner.
use qontinui_supervisor.Prelude.{
  ℕ, String, ℤ, Bool, Option, none, some, is_some, if◌then◌else◌, not, ◌&&◌, string_eq,
}
use qontinui_supervisor.Prelude.Assoc.{get, remove}
use qontinui_supervisor.StoppedCache.{graceful_stop, snapshot_from_managed, insert_and_evict}
use qontinui_supervisor.Runner.Reap.{stopped, refused, stop_reap}
use qontinui_supervisor.Runner.Lifecycle.{
  SharedState, runner_not_found, process, Result, ok, err, request_stop, forget_orphan,
  observe_gone, publish_stop, managed, modify_runner, modify_legacy, is_test,
}

-- What happens around a stop: the process found on the port, whether the exit monitor sees the
-- process gone before the port is confirmed, what each look at the port finds, and the readings of
-- the clock for the snapshot and the eviction. The message of the error is an argument, too.
pub record Stopping : Type 0 where
  pub pid_on_port : Option ℕ
  pub is_gone : Bool
  pub port_free : ℕ → Bool
  pub now : ℕ
  pub evicted_at : ℕ
  pub max_entries : ℕ
  pub ttl_secs : ℤ
  pub message : String

-- Up to the reap: the request, the orphan on the port, and the exit monitor, if it comes in between.
unfoldable pub begin_stop : ℕ → Stopping → SharedState → SharedState
unfolding request_stop forget_orphan observe_gone
begin_stop a x s =
    let s1 = modify_runner a request_stop s in
    let s2 =
      if not (is_some (s1.cells a).runner.pid) && is_some x.pid_on_port
      then modify_runner a forget_orphan s1
      else s1 in
    if x.is_gone
    then modify_legacy (s.cells a).is_primary observe_gone (modify_runner a observe_gone s2)
    else s2

-- After the port has been found free: the snapshot is taken before the reset, and put in the cache
-- after it.
unfoldable pub finish_stop : ℕ → Stopping → SharedState → SharedState
unfolding publish_stop is_test snapshot_from_managed
finish_stop a x s =
    let m = s.cells a in
    let snapshot = snapshot_from_managed (managed m) none graceful_stop x.now in
    let s1 = modify_legacy m.is_primary publish_stop (modify_runner a publish_stop s) in
    if is_test m.id
    then record s1 {
      stopped_runners =
          insert_and_evict x.evicted_at x.max_entries x.ttl_secs snapshot s1.stopped_runners;
      runners = remove m.id s1.runners;
    }
    else s1

-- `none` if the reap ran out of fuel.
unfoldable pub stop_runner_by_id :
    String → Stopping → SharedState → Option (Result Unit × SharedState)
unfolding begin_stop finish_stop
stop_runner_by_id id x s = elim (get id s.runners) [
  | none ↦ some (err (runner_not_found id), s)
  | some a ↦ elim (stop_reap x.port_free) [
    | none ↦ none
    | some (stopped _) ↦ some (ok tt, finish_stop a x (begin_stop a x s))
    | some (refused _) ↦ some (err (process x.message), begin_stop a x s)
  ]
]
