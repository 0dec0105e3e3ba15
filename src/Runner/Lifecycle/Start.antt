-- ===== src/Runner/Lifecycle/Start.antt =====
-- `start_managed_runner` and `start_runner_by_id` of src/process/manager.rs. What the spawn gives is
-- an argument.
use qontinui_supervisor.Prelude.{
  ℕ, ◌≡◌, String, true, false, Option, none, some, List, arith, is_some, if◌then◌else◌, string_eq,
}
use qontinui_supervisor.Prelude.Assoc.{get, get-insert}
use qontinui_supervisor.Binaries.{BuildProvenance}
use qontinui_supervisor.Runner.Lifecycle.{
  SharedState, SupervisorError, runner_already_running, runner_not_found, Result, ok, err,
  publish_start, write_cell, modify_legacy, or_insert,
}

-- What a spawn that worked leaves: the handle, the pid, where the child writes its panics, the early
-- log if its file could be opened, and the two readings of the clock.
pub record Spawned : Type 0 where
  pub child : ℕ
  pub pid : Option ℕ
  pub panic_log_dir : Option String
  pub early_log_path : Option String
  pub now : ℕ
  pub legacy_now : ℕ

-- The writes after the spawn.
unfoldable pub publish_spawned : ℕ → Spawned → SharedState → SharedState
unfolding publish_start
publish_spawned a sp s =
    let m = s.cells a in
    modify_legacy m.is_primary
      (λ r. record r {
        running = true;
        started_at = some sp.legacy_now;
        pid = sp.pid;
        stop_requested = false;
      })
      (write_cell a
        (record m {
          panic_log_dir = sp.panic_log_dir;
          recent_panic = none;
          early_log_path = sp.early_log_path;
          runner = publish_start (some sp.child) sp.pid sp.now m.runner;
        })
        s)

-- How far a start gets: no exe is resolved; one is, with its provenance if that is known, but the copy or
-- the spawn fails; or the spawn works.
pub data Launch : Type 0 where
  no_exe : SupervisorError → Launch
  no_spawn : Option BuildProvenance → SupervisorError → Launch
  launched : Option BuildProvenance → Spawned → Launch

-- The provenance of the resolved exe is written before the copy and the spawn.
unfoldable pub write_provenance : ℕ → Option BuildProvenance → SharedState → SharedState
write_provenance a prov s =
    let m = s.cells a in write_cell a (record m { build_provenance = prov }) s

unfoldable pub start_managed_runner : ℕ → Launch → SharedState → Result Unit × SharedState
unfolding or_insert write_provenance publish_spawned
start_managed_runner a launch s =
    let s' = record s { runners = or_insert (s.cells a).id a s.runners } in
    if (s.cells a).runner.running then (err runner_already_running, s') else elim launch [
      | no_exe e ↦ (err e, s')
      | no_spawn prov e ↦ (err e, write_provenance a prov s')
      | launched prov sp ↦ (ok tt, publish_spawned a sp (write_provenance a prov s'))
    ]

unfoldable pub start_runner_by_id : String → Launch → SharedState → Result Unit × SharedState
unfolding start_managed_runner
start_runner_by_id id launch s = elim (get id s.runners) [
  | none ↦ (err (runner_not_found id), s)
  | some a ↦ start_managed_runner a launch s
]

abbrev pub error_of : Launch → Option SupervisorError
error_of (no_exe e) = some e
error_of (no_spawn prov e) = some e
error_of (launched prov sp) = none

abbrev pub provenance_after : Launch → Option BuildProvenance → Option BuildProvenance
provenance_after (no_exe e) old = old
provenance_after (no_spawn prov e) old = prov
provenance_after (launched prov sp) old = prov

-- What a start promises: `ok` only for a runner that was not running and a spawn that worked, and
-- then the runner runs under the new handle and pid, with no stop requested and no old panic; every
-- error leaves all runners and the legacy state as they were, but for the provenance of the exe.
pub record Started (a : ℕ) (launch : Launch) (s : SharedState) (o : Result Unit × SharedState)
    : Type 0 where
  pub was_free : o.0 ≡ ok tt → (s.cells a).runner.running ≡ false
  pub runs :
      (prov : Option BuildProvenance) (sp : Spawned)
      → launch ≡ launched prov sp
      → o.0 ≡ ok tt
      → ((o.1.cells a).runner ≡ publish_start (some sp.child) sp.pid sp.now (s.cells a).runner)
        × ((o.1.cells a).recent_panic ≡ none)
  pub busy : (s.cells a).runner.running ≡ true → o.0 ≡ err runner_already_running
  pub fails :
      (e : SupervisorError)
      → (s.cells a).runner.running ≡ false
      → error_of launch ≡ some e
      → o.0 ≡ err e
  pub starts :
      (prov : Option BuildProvenance) (sp : Spawned)
      → (s.cells a).runner.running ≡ false
      → launch ≡ launched prov sp
      → o.0 ≡ ok tt
  pub provenance : (o.1.cells a).build_provenance ≡ (
      if (s.cells a).runner.running
      then (s.cells a).build_provenance
      else provenance_after launch (s.cells a).build_provenance)
  pub untouched :
      (e : SupervisorError)
      → o.0 ≡ err e
      → (o.1.cells a ≡ record (s.cells a) { build_provenance = (o.1.cells a).build_provenance })
        × (o.1.runner ≡ s.runner)
  pub others : (b : ℕ) → (b ≡ a → ⊥) → o.1.cells b ≡ s.cells b
  pub registered : is_some (get (s.cells a).id o.1.runners) ≡ true
  pub kept : (id : String) (b : ℕ) → get id s.runners ≡ some b → get id o.1.runners ≡ some b

pub get-or_insert :
    (k j : String) (v : ℕ) (m : List (String × ℕ))
    → (get j m ≡ none → k ≡ j → get j (or_insert k v m) ≡ some v)
      × ((b : ℕ) → get j m ≡ some b → get j (or_insert k v m) ≡ some b)
      × (is_some (get k (or_insert k v m)) ≡ true)
unfolding or_insert
get-or_insert k j v m = (
  λ e same. ground (arith, e, same, get-insert k j v m, string_eq.same_iff k j),
  λ b e. ground (arith, e, get-insert k j v m, string_eq.same_iff k j),
  ground (arith, get-insert k k v m, string_eq.same_iff k k),
)
