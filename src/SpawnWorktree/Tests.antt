-- ===== src/SpawnWorktree/Tests.antt =====
-- A sweep over a workspace with containers of each kind (src/spawn_worktree.rs, tests).
use qontinui_supervisor.Prelude.{
  ℕ, ◌*◌, ◌≡◌, refl, String, true, Option, none, some, List, [], ◌∷◌, map, ◌==◌, string_eq,
}
use qontinui_supervisor.SpawnWorktree.{
  Worktree, absent, status, deletes, Entry, Reason, younger, active_build,
  awaiting_double_retention, PruneReport, prune_spawn_worktrees_with_window,
}
use qontinui_supervisor.SpawnWorktree.Swept.{Swept}

abbrev hour : ℕ
hour = 3600000000000

abbrev container : String → ℕ → Worktree → Entry
container name mtime wt = record {
  file_name = some name;
  is_dir = true;
  mtime = some mtime;
  runner_wt = wt;
  schemas_wt = absent;
  removal = deletes;
}

abbrev entries : List (Option Entry)
entries =
    some (container "src" 0 absent)
    ∷ some (container ".spawn-old" 0 (status ""))
    ∷ some (container ".spawn-dirty" 0 (status " M lib.rs"))
    ∷ some (container ".spawn-new" (59 * hour) absent)
    ∷ some (container ".spawn-busy" 0 absent)
    ∷ none
    ∷ some (container ".spawn-unread" 0 absent)
    ∷ []

abbrev report : PruneReport
report =
    prune_spawn_worktrees_with_window (λ s. s == "") (λ n. n == ".spawn-busy") (some (some entries))
      none none (60 * hour)

abbrev reason : Entry × Reason → Reason
reason k = k.1

keeps_three : map reason report.kept ≡ awaiting_double_retention ∷ younger ∷ active_build ∷ []
unfolding prune_spawn_worktrees_with_window
keeps_three = refl
