-- ===== src/Runner/Lifecycle/Restart.antt =====
-- `restart_runner_by_id` of src/process/manager.rs. Which ids are temporary is decided by a library
-- of types, so the test is a parameter; what the build and the spawn give are arguments.
use qontinui_supervisor.Prelude.{
  ℕ, String, Bool, true, false, not, Option, none, some, ◌&&◌, if◌then◌else◌, string_eq,
  push_bounded,
}
use qontinui_supervisor.Prelude.Assoc.{get}
use qontinui_supervisor.Runner.Lifecycle.{
  SharedState, runner_not_found, validation, RestartSource, manual, watchdog, restart_started,
  restart_completed, restart_failed, DiagnosticEventKind, Result, ok, err, modify_runner,
}
use qontinui_supervisor.Runner.Lifecycle.Start.{Launch, start_managed_runner}
use qontinui_supervisor.Runner.Lifecycle.Stop.{Stopping, stop_runner_by_id}

unfoldable pub is_manual : RestartSource → Bool
is_manual manual = true
is_manual watchdog = false

abbrev pub diagnostics_buffer_size : ℕ
diagnostics_buffer_size = 200

-- `DiagnosticsState::emit`, less the time stamp.
unfoldable pub emit : DiagnosticEventKind → SharedState → SharedState
emit e s = record s { diagnostics = push_bounded diagnostics_buffer_size e s.diagnostics }

-- The start at the end, and what follows it.
unfoldable pub start_again :
    ℕ → RestartSource → Bool → Launch → SharedState → Result Unit × SharedState
unfolding start_managed_runner emit
start_again a source rebuild spawn s =
    let (r, s') = start_managed_runner a spawn s in
    elim r [
      | err e ↦ (err e, emit (restart_failed source e) s')
      | ok _ ↦ (
        ok tt,
        emit (restart_completed source rebuild)
            (modify_runner a (λ r. record r { restart_requested = false }) s'),
      )
    ]

-- From the build on.
unfoldable pub build_and_start :
    ℕ → RestartSource → Bool → Result Unit → Launch → SharedState → Result Unit × SharedState
unfolding start_again emit
build_and_start a source rebuild build spawn s =
    if rebuild
    then elim build [
      | err e ↦ (err e, emit (restart_failed source e) s)
      | ok _ ↦ start_again a source rebuild spawn s
    ]
    else start_again a source rebuild spawn s

-- From the stop on; `none` only if the reap of the stop ran out of fuel.
unfoldable pub restart_managed :
    ℕ
    → String
    → Bool
    → RestartSource
    → Stopping
    → Result Unit
    → Launch
    → SharedState
    → Option (Result Unit × SharedState)
unfolding build_and_start stop_runner_by_id emit
restart_managed a id rebuild source x build spawn s =
    let s1 = modify_runner a (λ r. record r { restart_requested = true }) s in
    if (s1.cells a).runner.running
    then elim (stop_runner_by_id id x s1) [
      | none ↦ none
      | some (err e, s2) ↦ some (err e, emit (restart_failed source e) s2)
      | some (ok _, s2) ↦ some (build_and_start a source rebuild build spawn s2)
    ]
    else some (build_and_start a source rebuild build spawn s1)

-- `refused` and `missing` are the texts of the two errors.
unfoldable pub restart_runner_by_id :
    (String → Bool)
    → (String → String)
    → (String → String)
    → String
    → Bool
    → RestartSource
    → Stopping
    → Result Unit
    → Launch
    → SharedState
    → Option (Result Unit × SharedState)
unfolding is_manual emit restart_managed
restart_runner_by_id is_temp refused missing id rebuild source x build spawn s =
    if not (is_temp id) && not (is_manual source)
    then some (err (validation (refused id)), s)
    else let s1 = emit (restart_started source rebuild) s in
      elim (get id s1.runners) [
        | none ↦ some (err (runner_not_found (missing id)), s1)
        | some a ↦ restart_managed a id rebuild source x build spawn s1
      ]
