-- ===== src/SpawnWorktree.antt =====
-- The sweep over the scratch worktrees of spawned runners (src/spawn_worktree.rs,
-- `prune_spawn_worktrees_with_window` and what it calls). Times and ages are in nanoseconds. What git and
-- the file system answer about a directory stands in its entry; the text of a status is judged by
-- `is_blank`, the trim of the standard library.
pub mod Swept
mod Tests
use text.Mathlib.Text.{starts_with}
use qontinui_supervisor.Prelude.{
  ℕ, zero, suc, ◌+◌, ◌-◌, ◌*◌, ◌^◌, ◌≡◌, String, Bool, true, false, not, Option, none, some, List,
  [], ◌∷◌, ◌&&◌, ◌||◌, ltb, leb, if◌then◌else◌, keep_if,
}

-- A worktree inside of a container, and what `git status --porcelain` says in it.
pub data Worktree : Type 0 where
  absent git_failed : Worktree
  status : String → Worktree

-- What comes of the removal: git has deleted the directory with the registration of its worktree, or it
-- is deleted then, or that fails.
pub data Removal : Type 0 where
  gone deletes : Removal
  fails : String → Removal

-- An entry of the workspace root; a name is `none` if it is not valid UTF-8.
pub record Entry : Type 0 where
  pub file_name : Option String
  pub is_dir : Bool
  pub mtime : Option ℕ
  pub runner_wt : Worktree
  pub schemas_wt : Worktree
  pub removal : Removal

abbrev pub spawn_dir_prefix : String
spawn_dir_prefix = ".spawn-"

abbrev pub default_spawn_retention_hours : ℕ
default_spawn_retention_hours = 48

-- The variable of the environment, if it is set and holds a number.
unfoldable pub retention_hours : Option ℕ → ℕ
retention_hours none = default_spawn_retention_hours
retention_hours (some h) = h

abbrev pub max_secs : ℕ
max_secs = 2 ^ 64 - 1

abbrev pub at_most : ℕ → ℕ → ℕ
at_most bound n = if leb n bound then n else bound

-- The window in nanoseconds, and twice the window; both saturate.
unfoldable pub retention : ℕ → ℕ
retention window_hours = at_most max_secs (window_hours * 3600) * 1000000000

unfoldable pub double_retention : ℕ → ℕ
unfolding retention
double_retention window_hours =
    at_most (max_secs * 1000000000 + 999999999) (2 * retention window_hours)

unfoldable pub window : Option ℕ → Option ℕ → ℕ
unfolding retention_hours
window none env = retention_hours env
window (some h) env = h

-- A modification in the future has no age.
unfoldable pub dir_age : ℕ → Option ℕ → Option ℕ
dir_age now none = none
dir_age now (some mtime) = if leb mtime now then some (now - mtime) else none

pub data Reason : Type 0 where
  active_build age_unknown younger awaiting_double_retention : Reason

pub data Fate : Type 0 where
  ignored removed : Fate
  kept : Reason → Fate
  failed : String → Fate

-- A directory is given by its entry.
pub record PruneReport : Type 0 where
  pub removed : List Entry
  pub kept : List (Entry × Reason)
  pub failed : List (Entry × String)

unfoldable pub empty : PruneReport
empty = record { removed = []; kept = []; failed = [] }

unfoldable pub remove_spawn_container : Removal → Fate
remove_spawn_container gone = removed
remove_spawn_container deletes = removed
remove_spawn_container (fails e) = failed e

unfoldable pub report_fate : Entry → Fate → PruneReport → PruneReport
report_fate e ignored r = r
report_fate e removed r = record r { removed = e ∷ r.removed }
report_fate e (kept why) r = record r { kept = (e, why) ∷ r.kept }
report_fate e (failed why) r = record r { failed = (e, why) ∷ r.failed }

module _ (is_blank : String → Bool) where
  unfoldable pub is_dirty : Worktree → Bool
  is_dirty absent = false
  is_dirty git_failed = false
  is_dirty (status out) = not (is_blank out)

  unfoldable pub container_has_dirty_worktree : Entry → Bool
  unfolding is_dirty
  container_has_dirty_worktree e = is_dirty e.runner_wt || is_dirty e.schemas_wt

module _ (is_blank : String → Bool) (is_active : String → Bool) where
  unfoldable pub judge_age : ℕ → Entry → Option ℕ → Fate
  unfolding retention double_retention container_has_dirty_worktree remove_spawn_container
  judge_age hours e none = kept age_unknown
  judge_age hours e (some age) =
      if ltb age (retention hours)
      then kept younger
      else if container_has_dirty_worktree is_blank e && ltb age (double_retention hours)
      then kept awaiting_double_retention
      else remove_spawn_container e.removal

  unfoldable pub judge_name : ℕ → ℕ → Entry → Option String → Fate
  unfolding judge_age dir_age
  judge_name hours now e none = ignored
  judge_name hours now e (some name) =
      if not (starts_with name spawn_dir_prefix)
      then ignored
      else if not e.is_dir
      then ignored
      else if is_active name
      then kept active_build
      else judge_age hours e (dir_age now e.mtime)

  -- The body of the loop.
  unfoldable pub judge : ℕ → ℕ → Entry → Fate
  unfolding judge_name
  judge hours now e = judge_name hours now e e.file_name

  -- The listing ends, or breaks off with an error, which is `none`.
  unfoldable pub sweep : ℕ → ℕ → List (Option Entry) → PruneReport
  unfolding judge report_fate empty
  sweep hours now [] = empty
  sweep hours now (none ∷ entries) = empty
  sweep hours now (some e ∷ entries) = report_fate e (judge hours now e) (sweep hours now entries)

  -- Without its roots, or without a listing of the workspace, nothing is pruned.
  unfoldable pub prune_spawn_worktrees_with_window :
      Option (Option (List (Option Entry))) → Option ℕ → Option ℕ → ℕ → PruneReport
  unfolding sweep window empty
  prune_spawn_worktrees_with_window none window_hours env now = empty
  prune_spawn_worktrees_with_window (some none) window_hours env now = empty
  prune_spawn_worktrees_with_window (some (some entries)) window_hours env now =
      sweep (window window_hours env) now entries
