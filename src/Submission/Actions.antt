-- ===== src/Submission/Actions.antt =====
-- `submit_spawn` and `submit_detached` of src/build_submissions.rs: the submission that each makes,
-- and what its task writes. The JSON values and the text of an id come from other crates.
use qontinui_supervisor.Prelude.{
  ℕ, ◌≡◌, ◌≢◌, String, Bool, true, false, ◌&&◌, Option, none, some, List, [], ◌∷◌, ltb, leb,
  if◌then◌else◌, millis_between,
}
use qontinui_supervisor.Submission.{
  BuildKind, build, BuildStatus, queued, running, succeeded, failed, FailureText, reported,
  spawn_returned_http, detached_returned_http, BuildSubmission,
}
use qontinui_supervisor.Submission.Store.{Store, write_cell}

-- `serde_json::Value`: `get` of a key, `as_str`, a value from a text, and the insertion of a key into
-- an object, which leaves any other value as it is.
pub record Json : Type 1 where
  pub Value : Type 0
  pub get : Value → String → Option Value
  pub as_str : Value → Option String
  pub text : String → Value
  pub is_object : Value → Bool
  pub insert_key : String → Value → Value → Value
  pub as_str-text : (s : String) → as_str (text s) ≡ some s
  pub get-insert_key :
      (k : String) (x v : Value) → is_object v ≡ true → get (insert_key k x v) k ≡ some x
  pub get-insert_key_ne : (k j : String) (x v : Value) → k ≢ j → get (insert_key k x v) j ≡ get v j

abbrev or_else {ℓ} : {A : Type ℓ} → Option A → Option A → Option A
or_else none o = o
or_else (some a) o = some a

abbrev and_then {ℓ κ} : {A : Type ℓ} {B : Type κ} → Option A → (A → Option B) → Option B
and_then none f = none
and_then (some a) f = f a

-- A submission that waits, with nothing known of it yet.
unfoldable pub queued_submission :
    {Value : Type 0}
    → ℕ
    → ℕ
    → String
    → Option String
    → BuildKind
    → Option String
    → Option String
    → List String
    → Option String
    → BuildSubmission Value
queued_submission id now worktree_path source build_kind agent_id package_name features base_ref =
    record {
      id = id;
      worktree_path = worktree_path;
      source = source;
      build_kind = build_kind;
      agent_id = agent_id;
      package_name = package_name;
      features = features;
      base_ref = base_ref;
      submitted_at = now;
      status = queued;
      cache_key = none;
      cache_outcome = none;
      cache_hit = false;
      stdout_tail = [];
      stderr_tail = [];
      spawn = none;
      detached = none;
    }

-- What is done for a submission of either kind.
pub data Action : Type 0 where
  spawn_action : ℕ → Action
  detached_action : Action

unfoldable pub is_success : ℕ → Bool
is_success http_status = leb 200 http_status && ltb http_status 300

module _ (J : Json) (id_text : ℕ → String) where
  open J use {Value}

  unfoldable pub submit_spawn : ℕ → ℕ → String → String → Option String → Store Value → Store Value
  unfolding queued_submission
  submit_spawn id now worktree_path source agent_id = write_cell id (
      queued_submission id now worktree_path (some source) build agent_id none
        ("custom-protocol" ∷ []) none)

  unfoldable pub submit_detached : ℕ → ℕ → String → Option String → Store Value → Store Value
  unfolding queued_submission
  submit_detached id now worktree_path agent_id = write_cell id (
      queued_submission id now worktree_path none build agent_id none ("custom-protocol" ∷ []) none)

  -- The body with the submission's id in it.
  abbrev pub with_build_id : ℕ → Value → Value
  with_build_id id body = J.insert_key "build_id" (J.text (id_text id)) body

  abbrev str_at : Value → String → Option String
  str_at v k = and_then (J.get v k) J.as_str

  unfoldable pub spawn_reason : ℕ → Value → FailureText
  spawn_reason http_status body =
      elim (or_else (and_then (J.get body "build_result") (λ br. str_at br "error"))
        (or_else (str_at body "error") (str_at body "message"))) [
          | none ↦ spawn_returned_http http_status
          | some s ↦ reported s
        ]

  unfoldable pub detached_reason : ℕ → Value → FailureText
  detached_reason http_status body = elim (or_else (str_at body "error") (str_at body "message")) [
    | none ↦ detached_returned_http http_status
    | some s ↦ reported s
  ]

  unfoldable pub outcome_status : ℕ → ℕ → ℕ → FailureText → BuildStatus
  unfolding is_success
  outcome_status http_status started_at finished_at reason =
      let duration = millis_between finished_at started_at in
      if is_success http_status
      then succeeded started_at finished_at duration
      else failed started_at finished_at duration none reason

  unfoldable pub start_action : ℕ → BuildSubmission Value → BuildSubmission Value
  start_action now sub = record sub { status = running now }

  unfoldable pub finish_spawn :
      ℕ → ℕ → ℕ → ℕ → Value → List String → BuildSubmission Value → BuildSubmission Value
  unfolding outcome_status spawn_reason
  finish_spawn port started_at finished_at http_status body stderr_tail sub =
      let full = with_build_id sub.id body in
      record sub {
        stderr_tail = stderr_tail;
        spawn = some (record { http_status = http_status; port = port; body = full });
        status = outcome_status http_status started_at finished_at (spawn_reason http_status full);
      }

  unfoldable pub finish_detached : ℕ → ℕ → ℕ → Value → BuildSubmission Value → BuildSubmission Value
  unfolding outcome_status detached_reason
  finish_detached started_at finished_at http_status body sub =
      let full = with_build_id sub.id body in
      record sub {
        detached = some (record { http_status = http_status; body = full });
        status =
            outcome_status http_status started_at finished_at (detached_reason http_status full);
      }

  -- The end of an action; only a spawn reports lines of stderr.
  unfoldable pub finish_action :
      Action → ℕ → ℕ → ℕ → Value → List String → BuildSubmission Value → BuildSubmission Value
  unfolding finish_spawn finish_detached
  finish_action (spawn_action port) started_at finished_at http_status body stderr_tail =
      finish_spawn port started_at finished_at http_status body stderr_tail
  finish_action detached_action started_at finished_at http_status body stderr_tail =
      finish_detached started_at finished_at http_status body
