-- ===== src/DevAction/States.antt =====
-- The dev-states that the supervisor judges before an action (src/dev_action/states.rs). A time is a
-- number of nanoseconds, whose zero comes before the Unix epoch; `from_timestamp` of chrono, which
-- fails out of its range, is a parameter. The files are read from one snapshot of the file system.
pub mod Judged
mod Tests
use qontinui_supervisor.Prelude.{
  ℕ, ◌-◌, ◌/◌, ◌^◌, String, Bool, true, false, not, Option, none, some, List, [], ◌∷◌, ◌++◌, map,
  ◌&&◌, ltb, leb, if◌then◌else◌, any_of, is_some,
}

-- `Eval` and `DevState` of the shared types, of which the source uses these.
pub data Eval : Type 0 where
  is_true is_false unknown : Eval

pub data DevState : Type 0 where
  slots_empty legacy_exe_fallback lkg_stale dist_stale dist_missing primary_down : DevState

pub record DevStateEval : Type 0 where
  pub state : DevState
  pub eval : Eval

abbrev pub FilePath : Type 0
FilePath = List String

pub record Metadata : Type 0 where
  pub is_file : Bool
  pub len : ℕ
  pub modified : Option ℕ

-- An entry of a directory is `none` if it cannot be read.
pub record FileSystem : Type 0 where
  pub metadata : FilePath → Option Metadata
  pub read_dir : FilePath → Option (List (Option String))

pub data SlotResolution : Type 0 where
  resolved : Option ℕ → SlotResolution
  not_evaluated : SlotResolution

-- What `evaluate_all` reads of the supervisor: the directories of the configuration and of the build
-- slots, when the last known good executable was built, and whether the primary runner responds, if
-- there is one.
pub record Observed : Type 0 where
  pub npm_dir : FilePath
  pub target_dirs : List FilePath
  pub lkg_built_at : Option ℕ
  pub primary_responding : Option Bool

abbrev pub join : FilePath → String → FilePath
join p name = p ++ (name ∷ [])

unfoldable pub eval_bool : Bool → Eval
eval_bool b = if b then is_true else is_false

unfoldable pub legacy_exe_fallback_from_slot : Option ℕ → Eval
unfolding eval_bool
legacy_exe_fallback_from_slot slot_id = eval_bool (not (is_some slot_id))

unfoldable pub modified_of : Option Metadata → Option ℕ
modified_of none = none
modified_of (some meta) = meta.modified

unfoldable pub dist_missing_from_metadata : Option Metadata → Eval
dist_missing_from_metadata none = is_true
dist_missing_from_metadata (some meta) =
    if meta.is_file && ltb 0 meta.len then is_false else is_true

unfoldable pub dist_stale_from_mtimes : Option ℕ → Option ℕ → Eval
unfolding eval_bool
dist_stale_from_mtimes (some dist) (some src) = eval_bool (ltb dist src)
dist_stale_from_mtimes none _ = unknown
dist_stale_from_mtimes (some _) none = unknown

-- The newer of two, the first one if they are equal.
unfoldable pub newest : Option ℕ → Option ℕ → Option ℕ
newest n none = n
newest none (some m) = some m
newest (some cur) (some m) = some (if leb m cur then cur else m)

-- The entries that can be read.
abbrev pub flatten : FilePath → List (Option String) → List FilePath
flatten p [] = []
flatten p (none ∷ es) = flatten p es
flatten p (some name ∷ es) = join p name ∷ flatten p es

abbrev pub entries : FilePath → Option (List (Option String)) → List FilePath
entries p none = []
entries p (some es) = flatten p es

module _ (fs : FileSystem) where
  abbrev pub mtime : FilePath → Option ℕ
  mtime p = modified_of (fs.metadata p)

  abbrev pub exists : FilePath → Bool
  exists p = is_some (fs.metadata p)

  unfoldable pub slots_empty_from_paths : List FilePath → Eval
  unfolding eval_bool
  slots_empty_from_paths slot_exe_paths = eval_bool (not (any_of exists slot_exe_paths))

  unfoldable pub consider_all : Option ℕ → List FilePath → Option ℕ
  unfolding newest modified_of
  consider_all n [] = n
  consider_all n (p ∷ ps) = consider_all (newest n (mtime p)) ps

  -- `index.html` and the immediate entries of `src`.
  abbrev pub sources : FilePath → List FilePath
  sources npm_dir =
      join npm_dir "index.html" ∷ (let src = join npm_dir "src" in entries src (fs.read_dir src))

  unfoldable pub newest_frontend_src_mtime : FilePath → Option ℕ
  unfolding consider_all
  newest_frontend_src_mtime npm_dir = consider_all none (sources npm_dir)

abbrev pub slot_exe : FilePath → FilePath
slot_exe target_dir = join (join target_dir "debug") "qontinui-runner.exe"

abbrev pub dist_index : FilePath → FilePath
dist_index npm_dir = join (join npm_dir "dist") "index.html"

unfoldable pub legacy_fallback : SlotResolution → Eval
unfolding legacy_exe_fallback_from_slot
legacy_fallback (resolved id) = legacy_exe_fallback_from_slot id
legacy_fallback not_evaluated = unknown

unfoldable pub primary_down_from : Option Bool → Eval
unfolding eval_bool
primary_down_from none = unknown
primary_down_from (some responding) = eval_bool (not responding)

module _ (unix_epoch : ℕ) (from_timestamp : ℕ → Option ℕ) where
  -- The build against the time of the source in whole seconds.
  unfoldable pub is_before : ℕ → Option ℕ → Eval
  unfolding eval_bool
  is_before built none = unknown
  is_before built (some s) = eval_bool (ltb built s)

  unfoldable pub lkg_stale_from_times : Option ℕ → Option ℕ → Eval
  unfolding is_before
  lkg_stale_from_times (some built) (some src) =
      if ltb src unix_epoch
      then unknown
      else is_before built (from_timestamp ((src - unix_epoch) / 1000000000))
  lkg_stale_from_times none _ = unknown
  lkg_stale_from_times (some _) none = unknown

  unfoldable pub evaluate_all : FileSystem → Observed → SlotResolution → List DevStateEval
  unfolding slots_empty_from_paths legacy_fallback lkg_stale_from_times newest_frontend_src_mtime
      dist_stale_from_mtimes dist_missing_from_metadata primary_down_from
  evaluate_all fs o slot_id =
      let dist = fs.metadata (dist_index o.npm_dir) in
      let newest_src = newest_frontend_src_mtime fs o.npm_dir in
      record { state = slots_empty; eval = slots_empty_from_paths fs (map slot_exe o.target_dirs) }
      ∷ record { state = legacy_exe_fallback; eval = legacy_fallback slot_id }
      ∷ record { state = lkg_stale; eval = lkg_stale_from_times o.lkg_built_at newest_src }
      ∷ record { state = dist_stale; eval = dist_stale_from_mtimes (modified_of dist) newest_src }
      ∷ record { state = dist_missing; eval = dist_missing_from_metadata dist }
      ∷ record { state = primary_down; eval = primary_down_from o.primary_responding }
      ∷ []
