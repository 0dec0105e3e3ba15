-- ===== src/Submission/Tests.antt =====
-- Runs of the models of src/build_submissions.rs on concrete submissions.
use qontinui_supervisor.Prelude.{
  ℕ, ◌≡◌, ◌≢◌, refl, pos, String, Bool, true, false, Option, none, some, [], ◌∷◌, arith, string_eq,
  ◌==◌, if◌then◌else◌, map, Distinct,
}
use qontinui_supervisor.Submission.{
  check, succeeded, queued, is_terminal, BuildSubmission, CanonicalDiffKey, hit,
}
use qontinui_supervisor.Submission.Store.{new, insert, get, add_key}
use qontinui_supervisor.Submission.Insert.{Capped, insert-Capped}
use qontinui_supervisor.Submission.Actions.{Json}
use qontinui_supervisor.Submission.Cargo.{Surroundings, exited, run_submission, keyed, hit_cache}
use qontinui_supervisor.Submission.Outcomes.{
  is_succeeded, run_submission_outcome, run_submission_telemetry,
}
use qontinui_supervisor.Submission.World.{
  submitted, waiting, done, World, derives_key, hits, submits, moves, Reach, here, next, set_phase,
  modify_cell,
}
use qontinui_supervisor.Submission.Tasks.{in_flight_found, terminal_is_final}

-- A small kind of JSON.
data Value : Type 0 where
  str : String → Value
  object_end : Value
  entry : String → Value → Value → Value

abbrev get_key : Value → String → Option Value
get_key (str s) k = none
get_key object_end k = none
get_key (entry j x rest) k = if j == k then some x else get_key rest k

abbrev as_str : Value → Option String
as_str (str s) = some s
as_str _ = none

abbrev is_object : Value → Bool
is_object (str s) = false
is_object _ = true

abbrev insert_key : String → Value → Value → Value
insert_key k x (str s) = str s
insert_key k x object_end = entry k x object_end
insert_key k x (entry j y rest) = entry k x (entry j y rest)

get-insert_key :
    (k : String) (x v : Value) → is_object v ≡ true → get_key (insert_key k x v) k ≡ some x
get-insert_key k x (str s) h = absurd (ground (arith, h))
get-insert_key k x object_end h = ground (arith, string_eq.same_iff k k)
get-insert_key k x (entry j y rest) h = ground (arith, string_eq.same_iff k k)

get-insert_key_ne :
    (k j : String) (x v : Value) → k ≢ j → get_key (insert_key k x v) j ≡ get_key v j
get-insert_key_ne k j x (str s) h = refl
get-insert_key_ne k j x object_end h = ground (arith, string_eq.same_iff k j, h)
get-insert_key_ne k j x (entry i y rest) h = ground (arith, string_eq.same_iff k j, h)

abbrev json : Json
json = record {
  Value = Value;
  get = get_key;
  as_str = as_str;
  text = str;
  is_object = is_object;
  insert_key = insert_key;
  as_str-text = λ s. refl;
  get-insert_key = get-insert_key;
  get-insert_key_ne = get-insert_key_ne;
}

abbrev id_text : ℕ → String
id_text n = "an id"

abbrev sample : BuildSubmission Value
sample = record {
  id = 7;
  worktree_path = "/work/app";
  source = none;
  build_kind = check;
  agent_id = none;
  package_name = none;
  features = [];
  base_ref = none;
  submitted_at = 100;
  status = queued;
  cache_key = none;
  cache_outcome = none;
  cache_hit = false;
  stdout_tail = [];
  stderr_tail = [];
  spawn = none;
  detached = none;
}

abbrev sample_key : CanonicalDiffKey
sample_key = record {
  base_sha = "a";
  diff_sha = "b";
  rustc_version = "1";
  cargo_profile = "check";
  target_triple = "t";
  key = "k";
}

abbrev start : World Value
start = record { store = new 16; phase = λ k. none }

abbrev after_submit : World Value
after_submit = record {
  store = insert sample start.store;
  phase = set_phase 7 submitted start.phase;
}

Reach-submit : Reach json id_text 16 after_submit
Reach-submit = next here (submits sample refl refl)

abbrev after_key : World Value
after_key = record {
  store = modify_cell 7 (keyed (some sample_key)) after_submit.store;
  phase = set_phase 7 (waiting (some sample_key)) after_submit.phase;
}

Reach-key : Reach json id_text 16 after_key
Reach-key =
    next Reach-submit
      (moves 7 submitted (waiting (some sample_key)) _ refl (derives_key (some sample_key)))

in_flight_found_example :
    (sub : BuildSubmission Value) × (get 7 after_key.store ≡ some sub)
    × (is_terminal sub.status ≡ false)
in_flight_found_example =
    in_flight_found json id_text 7 (waiting (some sample_key)) Reach-key refl refl

abbrev hit_sample : BuildSubmission Value
hit_sample = record sample {
  cache_key = some sample_key;
  cache_outcome = some hit;
  cache_hit = true;
  status = succeeded 200 200 (pos 3);
}

abbrev after_hit : World Value
after_hit = record {
  store = modify_cell 7 (hit_cache 200 (pos 3)) after_key.store;
  phase = set_phase 7 done after_key.phase;
}

Reach-hit : Reach json id_text 16 after_hit
Reach-hit =
    next Reach-key (moves 7 (waiting (some sample_key)) done _ refl (hits sample_key 200 (pos 3)))

abbrev other : BuildSubmission Value
other = record sample { id = 8; submitted_at = 300 }

abbrev after_other : World Value
after_other = record {
  store = insert other after_hit.store;
  phase = set_phase 8 submitted after_hit.phase;
}

hit_cell : after_hit.store.cells 7 ≡ some hit_sample
unfolding insert keyed hit_cache new
hit_cell = refl

terminal_is_final_example :
    (sub : BuildSubmission Value) × (after_other.store.cells 7 ≡ some sub)
    × (sub.status ≡ succeeded 200 200 (pos 3))
unfolding is_terminal
terminal_is_final_example =
    terminal_is_final json id_text 7 hit_sample Reach-hit hit_cell refl (submits other refl refl)

distinct : Distinct after_hit.store.submissions
unfolding insert new
distinct = ((λ h. h), tt)

insert-Capped_example :
    Capped
      (insert other after_hit.store).cells
      after_hit.store.size_cap
      (add_key 8 after_hit.store.submissions)
      (insert other after_hit.store).submissions
insert-Capped_example = insert-Capped other after_hit.store distinct

abbrev surroundings : Surroundings
surroundings = record {
  key = some sample_key;
  materialized = false;
  looked_up_at = 110;
  lookup_millis = pos 2;
  permit = true;
  started_at = 120;
  not_spawned = none;
  stdout_lines = "line" ∷ [];
  stderr_lines = [];
  waited = exited (some (pos 0));
  finished_at = 220;
  populate_ok = true;
  repo = "app";
  profile = "check";
}

run_submission_outcome_example :
    (is_terminal (run_submission surroundings sample).0.status ≡ true)
    × (is_succeeded (run_submission surroundings sample).0.status ≡ true)
run_submission_outcome_example = run_submission_outcome surroundings sample

run_submission_telemetry_example :
    map {B = Bool × Option Bool}
      (λ e. (e.ac_hit, e.ac_write_ok))
      (run_submission surroundings sample).1
    ≡ (false, some true) ∷ []
run_submission_telemetry_example = run_submission_telemetry surroundings sample
