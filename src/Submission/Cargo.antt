-- ===== src/Submission/Cargo.antt =====
-- `run_submission` of src/build_submissions.rs: a cargo build with the content-addressed cache around
-- it. What the cache, the semaphore and the child process answer are arguments. Log lines are not
-- modelled.
use qontinui_supervisor.Prelude.{
  ℕ, ℤ, pos, String, Bool, true, false, Option, none, some, List, [], ◌∷◌, ◌++◌, eqb, if◌then◌else◌,
  length, drop, is_some, millis_between,
}
use qontinui_supervisor.Submission.{
  BuildKind, cargo_args, BuildStatus, running, succeeded, failed, pool_semaphore_closed,
  cargo_not_spawned, cargo_exited_with, cargo_not_awaited, CanonicalDiffKey, BuildSubmission, hit,
  miss, disabled, populated, populate_failed,
}

-- `CacheEvent` of src/cache_telemetry.rs
pub record CacheEvent : Type 0 where
  pub worker : String
  pub repo : String
  pub profile : String
  pub ac_hit : Bool
  pub ac_write_ok : Option Bool
  pub timestamp_would_reuse : Bool

abbrev pub tail_cap : ℕ
tail_cap = 500

-- One line for a tail: the oldest is removed if the tail is full.
unfoldable pub push_tail : ℕ → String → List String → List String
push_tail size line buf = (if eqb (length buf) size then drop 1 buf else buf) ++ line ∷ []

unfoldable pub capture_tail : ℕ → List String → List String → List String
unfolding push_tail
capture_tail size [] buf = buf
capture_tail size (line ∷ lines) buf = capture_tail size lines (push_tail size line buf)

package_args : Option String → List String
package_args none = []
package_args (some p) = "-p" ∷ p ∷ []

feature_args : List String → List String
feature_args [] = []
feature_args (f ∷ fs) = "--features" ∷ f ∷ feature_args fs

unfoldable pub build_args : BuildKind → Option String → List String → List String
unfolding cargo_args package_args feature_args
build_args kind package_name features =
    cargo_args kind ++ (package_args package_name ++ (feature_args features ++ "--locked" ∷ []))

-- How the child ended.
pub data Waited : Type 0 where
  exited : Option ℤ → Waited
  wait_failed : String → Waited

-- `ExitStatus::success`
abbrev pub is_clean : Waited → Bool
is_clean (exited (some (pos n))) = eqb n 0
is_clean _ = false

unfoldable pub waited_status : ℕ → ℕ → Waited → BuildStatus
waited_status started_at finished_at w =
    let duration = millis_between finished_at started_at in
    if is_clean w then succeeded started_at finished_at duration else elim w [
      | exited code ↦ failed started_at finished_at duration code (cargo_exited_with code)
      | wait_failed e ↦ failed started_at finished_at duration none (cargo_not_awaited e)
    ]

-- What the surroundings answer to one run, in the order in which they are asked.
pub record Surroundings : Type 0 where
  pub key : Option CanonicalDiffKey
  pub materialized : Bool  -- the cache has the action, and all its files were written
  pub looked_up_at : ℕ
  pub lookup_millis : ℤ
  pub permit : Bool
  pub started_at : ℕ  -- when the permit is given or refused
  pub not_spawned : Option String
  pub stdout_lines : List String
  pub stderr_lines : List String
  pub waited : Waited
  pub finished_at : ℕ
  pub populate_ok : Bool
  pub repo : String
  pub profile : String

module _ {Value : Type 0} where
  unfoldable pub keyed : Option CanonicalDiffKey → BuildSubmission Value → BuildSubmission Value
  keyed key sub = record sub {
    cache_key = key;
    cache_outcome = some (if is_some key then miss else disabled);
  }

  unfoldable pub hit_cache : ℕ → ℤ → BuildSubmission Value → BuildSubmission Value
  hit_cache now elapsed sub = record sub {
    cache_hit = true;
    cache_outcome = some hit;
    status = succeeded now now elapsed;
  }

  unfoldable pub refuse_permit : ℕ → BuildSubmission Value → BuildSubmission Value
  refuse_permit now sub = record sub { status = failed now now (pos 0) none pool_semaphore_closed }

  unfoldable pub start_cargo : ℕ → BuildSubmission Value → BuildSubmission Value
  start_cargo now sub = record sub { status = running now }

  unfoldable pub fail_spawn : ℕ → ℕ → String → BuildSubmission Value → BuildSubmission Value
  fail_spawn started_at now e sub = record sub {
    status = failed started_at now (millis_between now started_at) none (cargo_not_spawned e);
  }

  unfoldable pub finish_cargo :
      ℕ → ℕ → List String → List String → Waited → BuildSubmission Value → BuildSubmission Value
  unfolding capture_tail waited_status
  finish_cargo started_at finished_at stdout_lines stderr_lines w sub = record sub {
    stdout_tail = capture_tail tail_cap stdout_lines [];
    stderr_tail = capture_tail tail_cap stderr_lines [];
    status = waited_status started_at finished_at w;
  }

  unfoldable pub note_population : Bool → BuildSubmission Value → BuildSubmission Value
  note_population ok sub = record sub {
    cache_outcome = some (if ok then populated else populate_failed);
  }

  worker_of : BuildSubmission Value → String
  worker_of sub = elim sub.agent_id [ none ↦ "unknown" | some a ↦ a ]

  event : Surroundings → BuildSubmission Value → Bool → Option Bool → CacheEvent
  unfolding worker_of
  event x sub ac_hit ac_write_ok = record {
    worker = worker_of sub;
    repo = x.repo;
    profile = x.profile;
    ac_hit = ac_hit;
    ac_write_ok = ac_write_ok;
    timestamp_would_reuse = false;
  }

  -- From the exit of cargo on.
  unfoldable pub after_cargo :
      Surroundings → BuildSubmission Value → BuildSubmission Value × List CacheEvent
  unfolding finish_cargo note_population event
  after_cargo x sub =
      let done =
        finish_cargo x.started_at x.finished_at x.stdout_lines x.stderr_lines x.waited sub in
      elim x.key [
        | none ↦ (done, [])
        | some k ↦
            if is_clean x.waited
            then (note_population x.populate_ok done, event x sub false (some x.populate_ok) ∷ [])
            else (done, event x sub false none ∷ [])
      ]

  -- From the request for a permit on.
  unfoldable pub with_permit :
      Surroundings → BuildSubmission Value → BuildSubmission Value × List CacheEvent
  unfolding refuse_permit start_cargo fail_spawn after_cargo
  with_permit x sub =
      if x.permit
      then elim x.not_spawned [
        | some e ↦ (fail_spawn x.started_at x.finished_at e (start_cargo x.started_at sub), [])
        | none ↦ after_cargo x (start_cargo x.started_at sub)
      ]
      else (refuse_permit x.started_at sub, [])

  -- The whole task: what becomes of the submission, and the telemetry that it records.
  unfoldable pub run_submission :
      Surroundings → BuildSubmission Value → BuildSubmission Value × List CacheEvent
  unfolding keyed hit_cache with_permit
  run_submission x sub =
      let looked_up = keyed x.key sub in
      if is_some x.key
      then if x.materialized
        then (hit_cache x.looked_up_at x.lookup_millis looked_up, event x sub true none ∷ [])
        else with_permit x looked_up
      else with_permit x looked_up
