-- ===== src/DevAction/States/Tests.antt =====
-- A tree with a source that is newer than the built interface (src/dev_action/states.rs, tests).
use qontinui_supervisor.Prelude.{
  ℕ, ◌+◌, ◌*◌, ◌≤◌, ◌≡◌, refl, sym, ap, true, Option, none, some, [], ◌∷◌, if◌then◌else◌, All,
  is_some, ◌==◌, string_eq, map,
}
use qontinui_supervisor.DevAction.States.{
  Eval, is_true, is_false, DevStateEval, FilePath, Metadata, FileSystem, resolved, Observed,
  eval_bool, legacy_exe_fallback_from_slot, modified_of, dist_missing_from_metadata,
  dist_stale_from_mtimes, newest, slots_empty_from_paths, consider_all, newest_frontend_src_mtime,
  legacy_fallback, primary_down_from, is_before, lkg_stale_from_times, evaluate_all,
}
use qontinui_supervisor.DevAction.States.Judged.{IsJudged, all_states, evaluate_all-IsJudged}

abbrev file : ℕ → Option Metadata
file modified = some (record { is_file = true; len = 7; modified = some modified })

abbrev metadata : FilePath → Option Metadata
metadata (npm ∷ name ∷ []) = file 2000000000
metadata (npm ∷ dir ∷ name ∷ []) =
    if dir == "src" then file 5000000000 else if dir == "dist" then file 3000000000 else none
metadata _ = none

abbrev tree : FileSystem
tree = record { metadata = metadata; read_dir = λ p. some (none ∷ some "App.tsx" ∷ []) }

abbrev observed : Observed
observed = record {
  npm_dir = "npm" ∷ [];
  target_dirs = ("slot-0" ∷ []) ∷ [];
  lkg_built_at = some 5500000000;
  primary_responding = some true;
}

abbrev unix_epoch : ℕ
unix_epoch = 1000000000

abbrev from_timestamp : ℕ → Option ℕ
from_timestamp s = some (unix_epoch + s * 1000000000)

abbrev value : Option ℕ → ℕ
value none = 0
value (some t) = t

abbrev eval_of : DevStateEval → Eval
eval_of s = s.eval

stale_interface :
    map eval_of (evaluate_all unix_epoch from_timestamp tree observed (resolved none))
    ≡ is_true ∷ is_true ∷ is_false ∷ is_true ∷ is_false ∷ is_false ∷ []
unfolding evaluate_all eval_bool legacy_exe_fallback_from_slot modified_of
    dist_missing_from_metadata dist_stale_from_mtimes newest slots_empty_from_paths consider_all
    newest_frontend_src_mtime legacy_fallback primary_down_from is_before lkg_stale_from_times
stale_interface = refl

timestamp : (s t : ℕ) → from_timestamp s ≡ some t → t ≡ unix_epoch + s * 1000000000
timestamp s t e = sym (ap value e)

in_range : (s : ℕ) → s ≤ 8210266876799 → is_some (from_timestamp s) ≡ true
in_range s h = refl

evaluate_all-IsJudged_example :
    (map (λ s. s.state) (evaluate_all unix_epoch from_timestamp tree observed (resolved none))
      ≡ all_states)
    × All
        (λ s. IsJudged unix_epoch 8210266876799 tree observed (resolved none) s.state s.eval)
        (evaluate_all unix_epoch from_timestamp tree observed (resolved none))
evaluate_all-IsJudged_example =
    evaluate_all-IsJudged unix_epoch 8210266876799 from_timestamp timestamp in_range tree observed
      (resolved none)
