-- ===== src/StoppedCache.antt =====
-- The post-mortem cache of stopped runners (src/process/stopped_cache.rs). The bounds are arguments,
-- as src/config.rs reads them from the environment.
pub mod Eviction
pub mod Trim
mod Tests
use qontinui_supervisor.Prelude.{
  ℕ, zero, suc, ◌-◌, String, ℤ, Bool, true, false, Option, none, some, List, [], ◌∷◌, ltb,
  if◌then◌else◌, length, drop, keep_if, ltb_ℤ, seconds_between, string_eq,
}
use qontinui_supervisor.Prelude.Assoc.{insert, remove}
use qontinui_supervisor.Logs.{LogEntry, LogState, history, snapshot_joined}

abbrev pub stopped_cache_log_cap : ℕ
stopped_cache_log_cap = 500

pub data StopReason : Type 0 where
  graceful_stop reaped crashed unknown : StopReason

-- `RecentPanic` of src/process/panic_log.rs
pub record RecentPanic : Type 0 where
  pub timestamp : ℕ
  pub payload : String
  pub location : Option String
  pub thread : Option String
  pub backtrace_preview : Option String
  pub runner_id : Option String
  pub pid : Option ℕ
  pub version : Option String
  pub file_path : String

pub record StoppedRunnerSnapshot : Type 0 where
  pub id : String
  pub name : String
  pub port : ℕ
  pub exit_code : Option ℤ
  pub exit_reason : StopReason
  pub stopped_at : ℕ
  pub last_log_lines : List LogEntry
  pub panic_stack : Option (List String)
  pub recent_panic : Option RecentPanic
  pub early_log_path : Option String
  pub started_at : Option ℕ
  pub panic_log_dir : Option String

abbrev pub Cache : Type 0
Cache = List (String × StoppedRunnerSnapshot)

-- `retain` on a map, with a test of the value.
unfoldable pub retain : (StoppedRunnerSnapshot → Bool) → Cache → Cache
retain p [] = []
retain p ((k, v) ∷ m) = let rest = retain p m in if p v then (k, v) ∷ rest else rest

-- `min_by_key` returns the first of several least entries.
unfoldable pub oldest : Cache → Option (String × StoppedRunnerSnapshot)
oldest [] = none
oldest (e ∷ m) = elim (oldest m) [
  | none ↦ some e
  | some o ↦ if ltb o.1.stopped_at e.1.stopped_at then some o else some e
]

-- One round of the loop body; `none` is the `break`.
evict_oldest : Cache → Option Cache
evict_oldest m = elim (oldest m) [ none ↦ none | some (k, v) ↦ some (remove k m) ]

-- `while cache.len() > max_entries`, on fuel.
unfoldable pub trim : ℕ → ℕ → Cache → Cache
unfolding evict_oldest oldest
trim zero max_entries m = m
trim (suc fuel) max_entries m = elim (ltb max_entries (length m)) [
  | false ↦ m
  | true ↦ elim (evict_oldest m) [ none ↦ m | some m' ↦ trim fuel max_entries m' ]
]

unfoldable pub fresh : ℕ → ℤ → StoppedRunnerSnapshot → Bool
fresh now ttl_secs v = ltb_ℤ (seconds_between now v.stopped_at) ttl_secs

-- `insert_and_evict_with_bounds`, with the instant that it reads. The loop runs at most once for each
-- entry.
unfoldable pub insert_and_evict : ℕ → ℕ → ℤ → StoppedRunnerSnapshot → Cache → Cache
unfolding trim retain fresh
insert_and_evict now max_entries ttl_secs snapshot cache =
    let kept = retain (fresh now ttl_secs) (insert snapshot.id snapshot cache) in
    trim (length kept) max_entries kept

-- What `snapshot_from_managed` reads of a runner.
pub record Managed : Type 0 where
  pub id : String
  pub name : String
  pub port : ℕ
  pub logs : LogState
  pub recent_panic : Option RecentPanic
  pub early_log_path : Option String
  pub panic_log_dir : Option String
  pub started_at : Option ℕ

unfoldable pub snapshot_from_managed : Managed → Option ℤ → StopReason → ℕ → StoppedRunnerSnapshot
unfolding history snapshot_joined
snapshot_from_managed m exit_code exit_reason now = record {
  id = m.id;
  name = m.name;
  port = m.port;
  exit_code = exit_code;
  exit_reason = exit_reason;
  stopped_at = now;
  last_log_lines = let all = history m.logs in drop (length all - stopped_cache_log_cap) all;
  panic_stack = snapshot_joined m.logs.panic_buffer;
  recent_panic = m.recent_panic;
  early_log_path = m.early_log_path;
  started_at = m.started_at;
  panic_log_dir = m.panic_log_dir;
}
