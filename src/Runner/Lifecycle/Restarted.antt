-- ===== src/Runner/Lifecycle/Restarted.antt =====
-- How a restart ends: `restart_runner_by_id` of src/process/manager.rs.
use qontinui_supervisor.Prelude.{
  ℕ, ◌≡◌, ◌∙◌, inl, inr, refl, ap, String, Bool, true, false, none, some, List, ◌||◌, arith,
  eqb_iff, string_eq, push_bounded, Bool-cases, Option-cases, subst,
}
use qontinui_supervisor.Prelude.Assoc.{get}
use qontinui_supervisor.Runner.Reap.{stop_reap_lem}
use qontinui_supervisor.Runner.Lifecycle.{
  SharedState, runner_not_found, validation, process, RestartSource, restart_started,
  restart_completed, restart_failed, DiagnosticEventKind, Result, ok, err, modify_runner,
}
use qontinui_supervisor.Runner.Lifecycle.Start.{Launch, start_managed_runner}
use qontinui_supervisor.Runner.Lifecycle.Stop.{Stopping, begin_stop, finish_stop, stop_runner_by_id}
use qontinui_supervisor.Runner.Lifecycle.Confirmed.{is_confirmed}
use qontinui_supervisor.Runner.Lifecycle.Restart.{
  start_again, build_and_start, restart_managed, restart_runner_by_id, emit,
  diagnostics_buffer_size, is_manual,
}

-- The diagnostics buffer with one more event.
abbrev pub logged : DiagnosticEventKind → List DiagnosticEventKind → List DiagnosticEventKind
logged event events = push_bounded diagnostics_buffer_size event events

-- The last event says how a restart ended.
abbrev pub Closed :
    RestartSource → Bool → List DiagnosticEventKind → Result Unit × SharedState → Type 0
Closed source rebuild before (ok _, s) =
    s.diagnostics ≡ logged (restart_completed source rebuild) before
Closed source rebuild before (err e, s) = s.diagnostics ≡ logged (restart_failed source e) before

start_managed_runner-diagnostics :
    (a : ℕ) (spawn : Launch) (s : SharedState)
    → (start_managed_runner a spawn s).1.diagnostics ≡ s.diagnostics
unfolding start_managed_runner
start_managed_runner-diagnostics a spawn s = ground arith

start_again-Closed :
    (a : ℕ) (source : RestartSource) (rebuild : Bool) (spawn : Launch) (s : SharedState)
    → Closed source rebuild s.diagnostics (start_again a source rebuild spawn s)
unfolding start_again
start_again-Closed a source rebuild spawn s =
    ground (arith, start_managed_runner-diagnostics a spawn s)

build_and_start-Closed :
    (a : ℕ) (source : RestartSource) (rebuild : Bool) (build : Result Unit) (spawn : Launch)
    (s : SharedState)
    → Closed source rebuild s.diagnostics (build_and_start a source rebuild build spawn s)
unfolding build_and_start
build_and_start-Closed a source true (err e) spawn s = refl
build_and_start-Closed a source true (ok u) spawn s = start_again-Closed a source true spawn s
build_and_start-Closed a source false build spawn s = start_again-Closed a source false spawn s

begin_stop-diagnostics :
    (a : ℕ) (x : Stopping) (s : SharedState) → (begin_stop a x s).diagnostics ≡ s.diagnostics
unfolding begin_stop
begin_stop-diagnostics a x s = ground arith

finish_stop-diagnostics :
    (a : ℕ) (x : Stopping) (s : SharedState) → (finish_stop a x s).diagnostics ≡ s.diagnostics
unfolding finish_stop
finish_stop-diagnostics a x s = ground arith

stop_returns :
    (id : String) (x : Stopping) (s : SharedState)
    → (r : Result Unit) × (s' : SharedState) × (stop_runner_by_id id x s ≡ some (r, s'))
      × (s'.diagnostics ≡ s.diagnostics)
unfolding stop_runner_by_id
stop_returns id x s = elim (Option-cases (get id s.runners)) [
  | inl e ↦ (err (runner_not_found id), s, ground (arith, e), refl)
  | inr (a, e) ↦ elim (Bool-cases (is_confirmed x.port_free)) [
    | inl h ↦ (
      ok tt,
      finish_stop a x (begin_stop a x s),
      ground (arith, e, h, stop_reap_lem x.port_free),
      finish_stop-diagnostics a x (begin_stop a x s) ∙ begin_stop-diagnostics a x s,
    )
    | inr h ↦ (
      err (process x.message),
      begin_stop a x s,
      ground (arith, e, h, stop_reap_lem x.port_free),
      begin_stop-diagnostics a x s,
    )
  ]
]

restart_managed-Closed :
    (a : ℕ) (id : String) (rebuild : Bool) (source : RestartSource) (x : Stopping)
    (build : Result Unit) (spawn : Launch) (s : SharedState)
    → (o : Result Unit × SharedState) × (restart_managed a id rebuild source x build spawn s
        ≡ some o)
      × Closed source rebuild s.diagnostics o
unfolding restart_managed
restart_managed-Closed a id rebuild source x build spawn s =
    elim (Bool-cases (s.cells a).runner.running) [
      | inl h ↦ stopped_first h (stop_returns id x s1)
      | inr h ↦ (
        build_and_start a source rebuild build spawn s1,
        ground (arith, h, eqb_iff a a),
        build_and_start-Closed a source rebuild build spawn s1,
      )
    ]
  where
    s1 : SharedState
    s1 = modify_runner a (λ r. record r { restart_requested = true }) s

    stopped_first :
        (s.cells a).runner.running ≡ true
        → (r : Result Unit) × (s' : SharedState) × (stop_runner_by_id id x s1 ≡ some (r, s'))
          × (s'.diagnostics ≡ s1.diagnostics)
        → (o : Result Unit × SharedState) × (restart_managed a id rebuild source x build spawn s
            ≡ some o)
          × Closed source rebuild s.diagnostics o
    stopped_first h (err e, s', answer, same) = (
      (err e, emit (restart_failed source e) s'),
      unfold restart_managed in ground (arith, h, answer, eqb_iff a a),
      unfold emit in ap (logged (restart_failed source e)) same,
    )
    stopped_first h (ok u, s', answer, same) = (
      build_and_start a source rebuild build spawn s',
      unfold restart_managed in ground (arith, h, answer, eqb_iff a a),
      subst (λ d. Closed source rebuild d (build_and_start a source rebuild build spawn s')) same
          (build_and_start-Closed a source rebuild build spawn s'),
    )

-- An automated restart of a runner that is not temporary gives a validation error and changes nothing.
-- Any other restart is announced as started. If the id is not registered, it gives an error and no
-- further event. If it is, the restart ends, whatever the stop, the build and the spawn answer, and
-- emits exactly one more event: completed if it succeeds, and failed with its error if not.
pub restart_runner_by_id-Closed :
    (is_temp : String → Bool) (refused missing : String → String) (id : String) (rebuild : Bool)
    (source : RestartSource) (x : Stopping) (build : Result Unit) (spawn : Launch) (s : SharedState)
    → ((is_temp id || is_manual source) ≡ false
        → restart_runner_by_id is_temp refused missing id rebuild source x build spawn s
          ≡ some (err (validation (refused id)), s))
      × ((is_temp id || is_manual source) ≡ true
          → get id s.runners ≡ none
          → restart_runner_by_id is_temp refused missing id rebuild source x build spawn s
            ≡ some (err (runner_not_found (missing id)), emit (restart_started source rebuild) s))
      × ((is_temp id || is_manual source) ≡ true
          → (a : ℕ) → get id s.runners ≡ some a
          → (o : Result Unit × SharedState) × (restart_runner_by_id is_temp refused missing id
                rebuild source x build spawn s
              ≡ some o)
            × Closed source rebuild (logged (restart_started source rebuild) s.diagnostics) o)
unfolding restart_runner_by_id
restart_runner_by_id-Closed is_temp refused missing id rebuild source x build spawn s = (
  λ h. ground (arith, h),
  λ h e. ground (arith, h, e),
  λ h a e.
      let s1 = emit (restart_started source rebuild) s in
      let (o, answer, closed) = restart_managed-Closed a id rebuild source x build spawn s1 in
      (o, ground (arith, h, e, answer), closed),
)
