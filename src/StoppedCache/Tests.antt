-- ===== src/StoppedCache/Tests.antt =====
-- Runs of the model of src/process/stopped_cache.rs on concrete runners.
use qontinui_supervisor.Prelude.{ℕ, String, pos, none, [], ◌∷◌, Distinct, string_eq}
use qontinui_supervisor.Prelude.Assoc.{keys, insert}
use qontinui_supervisor.StoppedCache.{StoppedRunnerSnapshot, Cache, crashed, insert_and_evict}
use qontinui_supervisor.StoppedCache.Trim.{Evicted, insert_and_evict-Evicted}

abbrev stopped : String → ℕ → StoppedRunnerSnapshot
stopped id stopped_at = record {
  id = id;
  name = id;
  port = 9876;
  exit_code = none;
  exit_reason = crashed;
  stopped_at = stopped_at;
  last_log_lines = [];
  panic_stack = none;
  recent_panic = none;
  early_log_path = none;
  started_at = none;
  panic_log_dir = none;
}

abbrev cache : Cache
cache = ("a", stopped "a" 1) ∷ []

distinct : Distinct (keys cache)
distinct = ((λ h. h), tt)

insert_and_evict-Evicted_example :
    Evicted 10 1
      (pos 60)
      (insert "b" (stopped "b" 5) cache)
      (insert_and_evict 10 1 (pos 60) (stopped "b" 5) cache)
insert_and_evict-Evicted_example =
    insert_and_evict-Evicted 10 1 (pos 60) (stopped "b" 5) cache distinct
