-- ===== src/CacheTelemetry.antt =====
-- The telemetry of the build cache (src/cache_telemetry.rs). Counters are 64-bit atomics, which wrap
-- around; a bucket is shared by all who hold it, so an entry of a map is its bucket's content.
pub mod Tally
mod Tests
use qontinui_supervisor.Prelude.{
  ℕ, ◌+◌, ◌%◌, ◌^◌, String, Bool, true, false, not, Option, none, some, List, [], ◌∷◌, ◌&&◌,
  if◌then◌else◌, string_eq,
}
use qontinui_supervisor.Prelude.Assoc.{get, insert}
use qontinui_supervisor.Submission.Cargo.{CacheEvent}

pub record Bucket : Type 0 where
  pub ac_hit : ℕ
  pub ac_miss : ℕ
  pub ac_write_ok : ℕ
  pub ac_write_fail : ℕ
  pub shadow_ts_reuse : ℕ
  pub hash_hit_ts_miss : ℕ
  pub ts_hit_hash_miss : ℕ

unfoldable pub empty : Bucket
empty = record {
  ac_hit = 0;
  ac_miss = 0;
  ac_write_ok = 0;
  ac_write_fail = 0;
  shadow_ts_reuse = 0;
  hash_hit_ts_miss = 0;
  ts_hit_hash_miss = 0;
}

-- `fetch_add(1, _)` under a condition.
abbrev pub add_if : Bool → ℕ → ℕ
add_if b n = if b then (n + 1) % 2 ^ 64 else n

abbrev pub is_ok : Option Bool → Bool
is_ok (some true) = true
is_ok _ = false

abbrev pub is_fail : Option Bool → Bool
is_fail (some false) = true
is_fail _ = false

unfoldable pub apply : CacheEvent → Bucket → Bucket
apply e b = record {
  ac_hit = add_if e.ac_hit b.ac_hit;
  ac_miss = add_if (not e.ac_hit) b.ac_miss;
  ac_write_ok = add_if (is_ok e.ac_write_ok) b.ac_write_ok;
  ac_write_fail = add_if (is_fail e.ac_write_ok) b.ac_write_fail;
  shadow_ts_reuse = add_if e.timestamp_would_reuse b.shadow_ts_reuse;
  hash_hit_ts_miss = add_if (e.ac_hit && not e.timestamp_would_reuse) b.hash_hit_ts_miss;
  ts_hit_hash_miss = add_if (not e.ac_hit && e.timestamp_would_reuse) b.ts_hit_hash_miss;
}

pub record CacheTelemetry : Type 0 where
  pub global : Bucket
  pub by_worker : List (String × Bucket)
  pub by_repo : List (String × Bucket)
  pub by_profile : List (String × Bucket)

unfoldable pub new : CacheTelemetry
unfolding empty
new = record { global = empty; by_worker = []; by_repo = []; by_profile = [] }

-- `CacheTelemetry::bucket`, with a default for a key that is new.
unfoldable pub bucket : String → List (String × Bucket) → Bucket
unfolding empty
bucket k m = elim (get k m) [ none ↦ empty | some b ↦ b ]

-- `bucket(map, k).apply(e)`
unfoldable pub apply_at : String → CacheEvent → List (String × Bucket) → List (String × Bucket)
unfolding bucket apply
apply_at k e m = insert k (apply e (bucket k m)) m

-- `CacheTelemetry::record`
unfoldable pub record_event : CacheEvent → CacheTelemetry → CacheTelemetry
unfolding apply apply_at
record_event e t = record {
  global = apply e t.global;
  by_worker = apply_at e.worker e t.by_worker;
  by_repo = apply_at e.repo e t.by_repo;
  by_profile = apply_at e.profile e t.by_profile;
}

-- The telemetry after these events, the latest first.
unfoldable pub recorded : List CacheEvent → CacheTelemetry
unfolding new record_event
recorded [] = new
recorded (e ∷ es) = record_event e (recorded es)
