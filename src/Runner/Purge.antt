-- ===== src/Runner/Purge.antt =====
-- The sweeps that take dead test runners out of the registry: `purge_stale_test_runners_core` and
-- `remove_runner` of src/routes/runners.rs, one round of `reap_stale_test_runners` of
-- src/process/manager.rs. The files that go with a runner and the process
-- on its port are left to the operating system.
pub mod Swept
mod Tests
use qontinui_supervisor.Prelude.{
  ℕ, String, ℤ, Bool, true, false, Option, none, some, List, [], ◌∷◌, not, ◌&&◌, ◌||◌, ltb,
  if◌then◌else◌, string_eq, ◌==◌,
}
use qontinui_supervisor.Prelude.Assoc.{get, remove}
use qontinui_supervisor.StoppedCache.{
  StopReason, crashed, reaped, graceful_stop, snapshot_from_managed, insert_and_evict,
}
use qontinui_supervisor.Runner.Lifecycle.{
  RunnerState, ManagedRunner, SharedState, SupervisorError, runner_not_found, validation, Result,
  ok, err, forget_orphan, managed, modify_runner,
}

-- What a sweep asks about: the kind of an id, the port of a runner, its owner and its age in seconds, the
-- slots of the build pool, and the readings of the clock for the snapshots.
pub record Sweep : Type 0 where
  pub is_temp_runner : String → Bool
  pub port_alive : ℕ → Bool
  pub requester_id : ℕ → Option String
  pub elapsed_secs : ℕ → ℕ
  pub any_slot_busy : Bool
  pub now : ℕ
  pub evicted_at : ℕ
  pub max_entries : ℕ
  pub ttl_secs : ℤ

abbrev pub min_age_secs : ℕ
min_age_secs = 120

module _ (x : Sweep) where
  -- The snapshot goes to the cache of stopped runners, the id out of the registry.
  unfoldable pub drop_runner : StopReason → String → ℕ → SharedState → SharedState
  unfolding snapshot_from_managed
  drop_runner reason id a s =
      let m = s.cells a in
      let snapshot = snapshot_from_managed (managed m) none reason x.now in
      record s {
        stopped_runners =
            insert_and_evict x.evicted_at x.max_entries x.ttl_secs snapshot s.stopped_runners;
        runners = remove id s.runners;
      }

  -- A runner of another owner, or of none, is off limits to a scoped purge.
  unfoldable pub owned_by : Option String → Option String → Bool
  owned_by none owner = true
  owned_by (some req) none = false
  owned_by (some req) (some owner) = owner == req

  -- The state of a runner that was running is set right first.
  unfoldable pub set_right : ℕ → SharedState → SharedState
  unfolding forget_orphan
  set_right a s = if (s.cells a).runner.running then modify_runner a forget_orphan s else s

  unfoldable pub alive : ℕ → SharedState → Bool
  alive a s = let m = s.cells a in m.runner.running && x.port_alive m.port

  -- The grace for a placeholder that a build is going to fill.
  unfoldable pub in_grace : Bool → ℕ → SharedState → Bool
  in_grace any_build_active a s = not (s.cells a).runner.running && any_build_active

  unfoldable pub purge_skips : Bool → Option String → ℕ → SharedState → Bool
  unfolding owned_by alive in_grace
  purge_skips respect_active_builds only_requester a s =
      not (x.is_temp_runner (s.cells a).id)
      || (not (owned_by only_requester (x.requester_id a))
          || (in_grace (respect_active_builds && x.any_slot_busy) a s || alive a s))

  unfoldable pub reap_skips : ℕ → SharedState → Bool
  unfolding alive in_grace
  reap_skips a s =
      not (x.is_temp_runner (s.cells a).id)
      || (ltb (x.elapsed_secs a) min_age_secs || (in_grace x.any_slot_busy a s || alive a s))

  -- The loop over the runners that the registry had.
  unfoldable pub sweep :
      (ℕ → SharedState → Bool) → StopReason → List ℕ → SharedState → List ℕ × SharedState
  unfolding set_right drop_runner
  sweep skips reason [] s = ([], s)
  sweep skips reason (a ∷ as_) s = elim (skips a s) [
    | true ↦ sweep skips reason as_ s
    | false ↦
        (let rest = sweep skips reason as_ (drop_runner reason (s.cells a).id a (set_right a s)) in
          (a ∷ rest.0, rest.1))
  ]

  abbrev pub values : List (String × ℕ) → List ℕ
  values [] = []
  values ((id, a) ∷ m) = a ∷ values m

  unfoldable pub purge_stale_test_runners_core :
      Bool → Option String → SharedState → List ℕ × SharedState
  unfolding sweep purge_skips
  purge_stale_test_runners_core respect_active_builds only_requester s =
      sweep (purge_skips respect_active_builds only_requester) crashed (values s.runners) s

  unfoldable pub reap_stale_test_runners : SharedState → List ℕ × SharedState
  unfolding sweep reap_skips
  reap_stale_test_runners s = sweep reap_skips reaped (values s.runners) s

  -- Without the settings on the disk.
  unfoldable pub remove_runner : String → SharedState → Result Unit × SharedState
  unfolding drop_runner
  remove_runner id s = elim (get id s.runners) [
    | none ↦ (err (runner_not_found id), s)
    | some a ↦
        (let m = s.cells a in
          if m.is_primary
          then (err (validation "Cannot remove the primary runner"), s)
          else if m.runner.running
          then (
            err (
                validation
                  "Runner must be stopped before removal. Call POST /runners/{id}/stop first."),
            s,
          )
          else (ok tt, drop_runner graceful_stop id a s))
  ]
