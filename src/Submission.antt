-- ===== src/Submission.antt =====
-- Submitted builds: the types of src/build_submissions.rs and `CanonicalDiffKey` of
-- src/cache_key.rs. A `Uuid` is a number and an instant is in nanoseconds. A duration, which the
-- source turns into floating seconds, stays in whole milliseconds. `Value` stands for the JSON
-- values of `serde_json`.
pub mod Store
pub mod Eviction
pub mod Victims
pub mod Insert
pub mod Actions
pub mod Cargo
pub mod Outcomes
pub mod World
pub mod Reachable
pub mod InFlight
pub mod Tasks
mod Tests
use qontinui_supervisor.Prelude.{ℕ, ℤ, String, Bool, true, false, Option, none, some, List, [], ◌∷◌}

pub data BuildKind : Type 0 where
  check build release test : BuildKind

unfoldable pub cargo_args : BuildKind → List String
cargo_args check = "check" ∷ []
cargo_args build = "build" ∷ []
cargo_args release = "build" ∷ "--release" ∷ []
cargo_args test = "test" ∷ "--no-run" ∷ []

-- The text of an error, by the place that formats it.
pub data FailureText : Type 0 where
  reported : String → FailureText
  spawn_returned_http detached_returned_http : ℕ → FailureText
  pool_semaphore_closed : FailureText
  cargo_not_spawned : String → FailureText
  cargo_exited_with : Option ℤ → FailureText
  cargo_not_awaited : String → FailureText

pub data BuildStatus : Type 0 where
  queued : BuildStatus
  running : ℕ → BuildStatus
  succeeded : ℕ → ℕ → ℤ → BuildStatus
  failed : ℕ → ℕ → ℤ → Option ℤ → FailureText → BuildStatus

unfoldable pub is_terminal : BuildStatus → Bool
is_terminal (succeeded _ _ _) = true
is_terminal (failed _ _ _ _ _) = true
is_terminal _ = false

pub record CanonicalDiffKey : Type 0 where
  pub base_sha : String
  pub diff_sha : String
  pub rustc_version : String
  pub cargo_profile : String
  pub target_triple : String
  pub key : String

pub record SpawnOutcome (Value : Type 0) : Type 0 where
  pub http_status : ℕ
  pub port : ℕ
  pub body : Value

pub record DetachedOutcome (Value : Type 0) : Type 0 where
  pub http_status : ℕ
  pub body : Value

pub data CacheOutcome : Type 0 where
  hit miss disabled populated populate_failed : CacheOutcome

pub record BuildSubmission (Value : Type 0) : Type 0 where
  pub id : ℕ
  pub worktree_path : String
  pub source : Option String
  pub build_kind : BuildKind
  pub agent_id : Option String
  pub package_name : Option String
  pub features : List String
  pub base_ref : Option String
  pub submitted_at : ℕ
  pub status : BuildStatus
  pub cache_key : Option CanonicalDiffKey
  pub cache_outcome : Option CacheOutcome
  pub cache_hit : Bool
  pub stdout_tail : List String
  pub stderr_tail : List String
  pub spawn : Option (SpawnOutcome Value)
  pub detached : Option (DetachedOutcome Value)
