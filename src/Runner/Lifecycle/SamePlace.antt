-- ===== src/Runner/Lifecycle/SamePlace.antt =====
-- A restart of a running runner: `restart_runner_by_id` of src/process/manager.rs with the stop and
-- the start that it calls.
use qontinui_supervisor.Prelude.{
  ℕ, ◌≡◌, ◌⊎◌, String, Bool, true, false, Option, none, some, arith, ◌||◌, eqb_iff, string_eq,
}
use qontinui_supervisor.Prelude.Assoc.{get, get-remove}
use qontinui_supervisor.Runner.Reap.{stop_reap_lem}
use qontinui_supervisor.Binaries.{BuildProvenance}
use qontinui_supervisor.Runner.Lifecycle.{
  RunnerState, SharedState, RestartSource, restart_started, restart_completed, ok, publish_start,
  modify_runner, or_insert,
}
use qontinui_supervisor.Runner.Lifecycle.Start.{
  Spawned, launched, write_provenance, publish_spawned, get-or_insert,
}
use qontinui_supervisor.Runner.Lifecycle.Stop.{Stopping, begin_stop, finish_stop, stop_runner_by_id}
use qontinui_supervisor.Runner.Lifecycle.Confirmed.{is_confirmed}
use qontinui_supervisor.Runner.Lifecycle.Restart.{
  is_manual, emit, start_again, build_and_start, restart_managed, restart_runner_by_id,
}

-- The runner as a restart leaves it.
abbrev pub restarted : Spawned → RunnerState
restarted sp = record {
  process = some sp.child;
  running = true;
  started_at = some sp.now;
  restart_requested = false;
  stop_requested = false;
  pid = sp.pid;
}

-- A runner that has just been stopped by its id.
record Vacant (id : String) (a : ℕ) (s : SharedState) : Type 0 where
  not_running : (s.cells a).runner.running ≡ false
  same_id : (s.cells a).id ≡ id
  place : (get id s.runners ≡ none) ⊎ (get id s.runners ≡ some a)

stop-Vacant :
    (id : String) (a : ℕ) (x : Stopping) (s : SharedState)
    → get id s.runners ≡ some a
    → (s.cells a).id ≡ id
    → is_confirmed x.port_free ≡ true
    → (s' : SharedState) × (stop_runner_by_id id x s ≡ some (ok tt, s')) × Vacant id a s'
unfolding stop_runner_by_id begin_stop finish_stop
stop-Vacant id a x s e named h = (
  finish_stop a x (begin_stop a x s),
  ground (arith, e, h, stop_reap_lem x.port_free),
  record {
    not_running = ground (arith, eqb_iff a a);
    same_id = ground (arith, named, eqb_iff a a);
    place = ground (
      arith,
      e,
      named,
      eqb_iff a a,
      get-remove (s.cells a).id id s.runners,
      string_eq.same_iff (s.cells a).id id,
    );
  },
)

start_again-Vacant :
    (id : String) (a : ℕ) (source : RestartSource) (rebuild : Bool) (prov : Option BuildProvenance)
    (sp : Spawned) (s : SharedState)
    → Vacant id a s
    → (s' : SharedState) × (start_again a source rebuild (launched prov sp) s ≡ (ok tt, s'))
      × ((s'.cells a).runner ≡ restarted sp)
      × (get id s'.runners ≡ some a)
unfolding start_again publish_start
start_again-Vacant id a source rebuild prov sp s v =
    let s1 = record s { runners = or_insert (s.cells a).id a s.runners } in
    (
      emit (restart_completed source rebuild) (
          modify_runner a (λ r. record r { restart_requested = false })
            (publish_spawned a sp (write_provenance a prov s1))),
      ground (arith, v.not_running),
      unfold emit in unfold publish_spawned in ground (arith, eqb_iff a a),
      unfold emit in
          unfold publish_spawned in
          ground (arith, v.same_id, v.place, get-or_insert (s.cells a).id id a s.runners),
    )

-- A restart of a running runner that is registered under its own id, by hand or of a temporary
-- runner, succeeds if its port is found free, the build works and the spawn works. The runner then
-- runs under the new handle and pid with no stop or restart requested, and its id leads to the same
-- runner as before, also if the stop has taken a test runner out of the registry.
pub restart_runner_by_id_lem :
    (is_temp : String → Bool) (refused missing : String → String) (id : String) (rebuild : Bool)
    (source : RestartSource) (x : Stopping) (prov : Option BuildProvenance) (sp : Spawned) (a : ℕ)
    (s : SharedState)
    → (is_temp id || is_manual source) ≡ true
    → get id s.runners ≡ some a
    → (s.cells a).id ≡ id
    → (s.cells a).runner.running ≡ true
    → is_confirmed x.port_free ≡ true
    → (s' : SharedState) × (restart_runner_by_id is_temp refused missing id rebuild source x
          (ok tt)
          (launched prov sp)
          s
        ≡ some (ok tt, s'))
      × ((s'.cells a).runner ≡ restarted sp)
      × (get id s'.runners ≡ some a)
unfolding restart_runner_by_id restart_managed build_and_start emit
restart_runner_by_id_lem is_temp refused missing id rebuild source x prov sp a s may e named runs
      free =
    let s1 =
      modify_runner a (λ r. record r { restart_requested = true })
        (emit (restart_started source rebuild) s) in
    let (s2, stops, vacant) = stop-Vacant id a x s1 e (ground (arith, named, eqb_iff a a)) free in
    let (s3, starts, runner, place) = start_again-Vacant id a source rebuild prov sp s2 vacant in
    (s3, ground (arith, may, e, runs, stops, starts, eqb_iff a a), runner, place)
