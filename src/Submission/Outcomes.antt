-- ===== src/Submission/Outcomes.antt =====
-- How submissions of src/build_submissions.rs end.
use qontinui_supervisor.Prelude.{
  ℕ, ◌<◌, ◌≤◌, ◌≡◌, refl, ◌∙◌, ◌↔◌, inl, inr, String, Bool, true, false, ◌&&◌, ◌||◌, Option, none,
  some, List, [], ◌∷◌, map, arith, Bool-cases, is_some, length, last_n, push_bounded, push_all,
  push_all-eq-last_n, length-append, length-drop, leb, if◌then◌else◌,
}
use qontinui_supervisor.Submission.{
  BuildStatus, succeeded, is_terminal, BuildSubmission, hit, miss, disabled, populated,
  populate_failed,
}
use qontinui_supervisor.Submission.Actions.{
  Json, Action, spawn_action, detached_action, is_success, finish_action, with_build_id,
}
use qontinui_supervisor.Submission.Cargo.{
  tail_cap, push_tail, capture_tail, Surroundings, is_clean, waited_status, run_submission,
}

abbrev pub is_succeeded : BuildStatus → Bool
is_succeeded (succeeded _ _ _) = true
is_succeeded _ = false

waited_outcome : (s f : ℕ) (w : _) → is_succeeded (waited_status s f w) ≡ is_clean w
unfolding waited_status
waited_outcome s f w = ground arith

pub waited_terminal : (s f : ℕ) (w : _) → is_terminal (waited_status s f w) ≡ true
unfolding waited_status is_terminal
waited_terminal s f w = ground arith

-- The cache answers the build.
abbrev pub from_cache : Surroundings → Bool
from_cache x = is_some x.key && x.materialized

-- Cargo runs to its end.
abbrev pub runs_cargo : Surroundings → Bool
runs_cargo x =
    if from_cache x then false else x.permit && (if is_some x.not_spawned then false else true)

module _ {Value : Type 0} (x : Surroundings) (sub : BuildSubmission Value) where
  -- Whatever the cache, the semaphore and the child process answer, the run ends with the submission
  -- in a terminal state, and it has succeeded exactly if the cache answered or cargo ran and exited
  -- with code 0.
  pub run_submission_outcome :
      (is_terminal (run_submission x sub).0.status ≡ true)
      × (is_succeeded (run_submission x sub).0.status
          ≡ (from_cache x || (runs_cargo x && is_clean x.waited)))
  unfolding run_submission is_terminal
  run_submission_outcome = ground (
    arith,
    waited_outcome x.started_at x.finished_at x.waited,
    waited_terminal x.started_at x.finished_at x.waited,
  )

  -- A run records exactly one event if it has a cache key and the cache answered or cargo ran, and
  -- none otherwise; the event is a hit exactly if the cache answered, and reports a write to the
  -- cache exactly if cargo succeeded, with what the write returned.
  pub run_submission_telemetry :
      map {B = Bool × Option Bool} (λ e. (e.ac_hit, e.ac_write_ok)) (run_submission x sub).1 ≡ (
        if is_some x.key && (from_cache x || runs_cargo x)
        then (from_cache x, if runs_cargo x && is_clean x.waited then some x.populate_ok else none)
          ∷ []
        else [])
  unfolding run_submission
  run_submission_telemetry = ground arith

  -- The submission keeps its identity, and tells of the cache: off without a key, a hit if the cache
  -- answered, else whether the artifact of a successful build was written, and a miss if there was
  -- none to write.
  pub run_submission_cache :
      ((run_submission x sub).0.id ≡ sub.id)
      × ((run_submission x sub).0.cache_key ≡ x.key)
      × ((run_submission x sub).0.cache_outcome
          ≡ some (
              if is_some x.key
              then if x.materialized
                then hit
                else if runs_cargo x && is_clean x.waited
                then if x.populate_ok then populated else populate_failed
                else miss
              else disabled))
  unfolding run_submission
  run_submission_cache = (ground arith, ground arith, ground arith)

module _ (size : ℕ) where
  push_tail-eq-push_bounded :
      (line : String) (buf : List String)
      → length buf ≤ size
      → push_tail size line buf ≡ push_bounded size line buf
  unfolding push_tail push_bounded
  push_tail-eq-push_bounded line buf h = ground arith

  length-push_bounded-le :
      (line : String) (buf : List String)
      → 0 < size
      → length buf ≤ size
      → length (push_bounded size line buf) ≤ size
  unfolding push_bounded
  length-push_bounded-le line buf p h = elim (Bool-cases (leb size (length buf))) [
    | inl e ↦ rw (e, length-append) (omega (arith, length-drop 1 buf))
    | inr e ↦ rw (e, length-append) (ground arith)
  ]

  capture_tail-eq-push_all :
      (lines buf : List String)
      → 0 < size
      → length buf ≤ size
      → capture_tail size lines buf ≡ push_all size lines buf
  unfolding capture_tail push_all
  capture_tail-eq-push_all [] buf p h = refl
  capture_tail-eq-push_all (line ∷ lines) buf p h = rw (push_tail-eq-push_bounded line buf h) (
      capture_tail-eq-push_all lines (push_bounded size line buf) p
        (length-push_bounded-le line buf p h))

-- The captured tail of an output is its last five hundred lines.
pub capture_tail-eq-last_n :
    (lines : List String) → capture_tail tail_cap lines [] ≡ last_n tail_cap lines
capture_tail-eq-last_n lines =
    capture_tail-eq-push_all tail_cap lines [] (omega arith) (omega arith)
    ∙ push_all-eq-last_n tail_cap lines (omega arith)

-- What a finished action has left, for a port if it was a spawn.
abbrev Stored : {Value : Type 0} → Action → ℕ → Value → BuildSubmission Value → Type 0
Stored (spawn_action port) http body sub =
    sub.spawn ≡ some (record { http_status = http; port = port; body = body })
Stored detached_action http body sub =
    sub.detached ≡ some (record { http_status = http; body = body })

module _ (J : Json) (id_text : ℕ → String) where
  -- A finished action whose body is a JSON object leaves its submission in a terminal state,
  -- succeeded exactly for an HTTP status from 200 to 299; the status and the body are stored, and
  -- the body holds the submission's id under `build_id`.
  pub finish_action_outcome :
      (a : Action) (started_at finished_at http : ℕ) (body : J.Value) (tail : List String)
      (sub : BuildSubmission J.Value)
      → J.is_object body ≡ true
      → let done = finish_action J id_text a started_at finished_at http body tail sub in
        let full = with_build_id J id_text sub.id body in
        (is_terminal done.status ≡ true)
        × ((is_succeeded done.status ≡ true) ↔ ((200 ≤ http) × (http < 300)))
        × Stored a http full done
        × (J.get full "build_id" ≡ some (J.text (id_text sub.id)))
  unfolding finish_action is_terminal is_success
  finish_action_outcome (spawn_action port) s f http body tail sub o = (
    ground arith,
    ((λ h. ground arith), (λ h. ground arith)),
    refl,
    J.get-insert_key "build_id" (J.text (id_text sub.id)) body o,
  )
  finish_action_outcome detached_action s f http body tail sub o = (
    ground arith,
    ((λ h. ground arith), (λ h. ground arith)),
    refl,
    J.get-insert_key "build_id" (J.text (id_text sub.id)) body o,
  )
