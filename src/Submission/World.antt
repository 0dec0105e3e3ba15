-- ===== src/Submission/World.antt =====
-- The tasks of src/build_submissions.rs side by side: each step is what one task does under one lock,
-- and the steps of different tasks come in any order. A task is addressed by its submission's id.
use qontinui_supervisor.Prelude.{
  ℕ, ℤ, ◌≡◌, ◌⊎◌, String, Bool, true, false, Option, none, some, List, eqb, if◌then◌else◌,
}
use qontinui_supervisor.Submission.{BuildSubmission, queued, CanonicalDiffKey}
use qontinui_supervisor.Submission.Store.{Store, new, write_cell, register, insert}
use qontinui_supervisor.Submission.Actions.{Json, Action, start_action, finish_action}
use qontinui_supervisor.Submission.Cargo.{
  Waited, is_clean, keyed, hit_cache, refuse_permit, start_cargo, fail_spawn, finish_cargo,
  note_population,
}

-- Where a task stands. `submitted` to `filling` are those of `run_submission`.
pub data Phase : Type 0 where
  created registered : Action → Phase
  executing : Action → ℕ → Phase
  submitted : Phase
  waiting : Option CanonicalDiffKey → Phase
  building : Option CanonicalDiffKey → ℕ → Phase
  filling done : Phase

pub record World (Value : Type 0) : Type 0 where
  pub store : Store Value
  pub phase : ℕ → Option Phase

abbrev pub set_phase : ℕ → Phase → (ℕ → Option Phase) → ℕ → Option Phase
set_phase k p phase j = if eqb k j then some p else phase j

abbrev pub map_some {ℓ} : {A : Type ℓ} → (A → A) → Option A → Option A
map_some f none = none
map_some f (some a) = some (f a)

abbrev pub modify_cell :
    {Value : Type 0}
    → ℕ
    → (BuildSubmission Value → BuildSubmission Value)
    → Store Value
    → Store Value
modify_cell k f s = record s { cells = λ j. if eqb k j then map_some f (s.cells k) else s.cells j }

module _ (J : Json) (id_text : ℕ → String) where
  -- What a task writes to its own cell as it goes from one place to the next.
  pub data Move : Phase → Phase → (BuildSubmission J.Value → BuildSubmission J.Value) → Type 0 where
    begins :
        (a : Action) (now : ℕ) → Move (registered a) (executing a now) (start_action J id_text now)
    finishes :
        (a : Action) (started_at finished_at http : ℕ) (body : J.Value) (tail : List String)
        → Move
            (executing a started_at)
            done
            (finish_action J id_text a started_at finished_at http body tail)
    derives_key : (key : Option CanonicalDiffKey) → Move submitted (waiting key) (keyed key)
    hits :
        (k : CanonicalDiffKey) (now : ℕ) (elapsed : ℤ)
        → Move (waiting (some k)) done (hit_cache now elapsed)
    is_refused :
        (key : Option CanonicalDiffKey) (now : ℕ) → Move (waiting key) done (refuse_permit now)
    is_admitted :
        (key : Option CanonicalDiffKey) (now : ℕ)
        → Move (waiting key) (building key now) (start_cargo now)
    fails_to_spawn :
        (key : Option CanonicalDiffKey) (started_at now : ℕ) (e : String)
        → Move (building key started_at) done (fail_spawn started_at now e)
    exits :
        (key : Option CanonicalDiffKey) (started_at finished_at : ℕ) (out err : List String)
        (w : Waited)
        → (key ≡ none) ⊎ (is_clean w ≡ false)
        → Move (building key started_at) done (finish_cargo started_at finished_at out err w)
    exits_clean :
        (k : CanonicalDiffKey) (started_at finished_at : ℕ) (out err : List String) (w : Waited)
        → is_clean w ≡ true
        → Move
            (building (some k) started_at)
            filling
            (finish_cargo started_at finished_at out err w)
    fills : (ok : Bool) → Move filling done (note_population ok)

  pub data Step (w : World J.Value) : World J.Value → Type 0 where
    -- `submit`
    submits :
        (sub : BuildSubmission J.Value)
        → w.phase sub.id ≡ none
        → sub.status ≡ queued
        → Step w (record { store = insert sub w.store; phase = set_phase sub.id submitted w.phase })
    -- `submit_spawn` and `submit_detached`
    creates :
        (a : Action) (sub : BuildSubmission J.Value)
        → w.phase sub.id ≡ none
        → sub.status ≡ queued
        → Step w (record {
          store = write_cell sub.id sub w.store;
          phase = set_phase sub.id (created a) w.phase;
        })
    registers :
        (a : Action) (k : ℕ)
        → w.phase k ≡ some (created a)
        → Step w (record { store = register k w.store; phase = set_phase k (registered a) w.phase })
    moves :
        (k : ℕ) (p p' : Phase) (f : BuildSubmission J.Value → BuildSubmission J.Value)
        → w.phase k ≡ some p
        → Move p p' f
        → Step w (record { store = modify_cell k f w.store; phase = set_phase k p' w.phase })

  pub data Reach (size_cap : ℕ) : World J.Value → Type 0 where
    here : Reach size_cap (record { store = new size_cap; phase = λ k. none })
    next : {w w' : World J.Value} → Reach size_cap w → Step w w' → Reach size_cap w'
