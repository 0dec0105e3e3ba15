-- ===== src/LkgCoverage.antt =====
-- Whether the last known good exe contains a file (src/routes/lkg_coverage.rs): the paths of a query, their
-- resolution against the project, and the decision. A text is its bytes; what std::path makes of a
-- text is a parameter.
pub mod Params
pub mod Query
pub mod Contained
pub mod Covered
mod Tests
use qontinui_supervisor.Prelude.{
  ℕ, zero, suc, ◌+◌, ◌-◌, ◌*◌, ◌≡◌, String, Bool, true, false, not, Option, none, some, List, [],
  ◌∷◌, ◌++◌, ◌&&◌, ◌||◌, ltb, leb, eqb, if◌then◌else◌, is_some, seconds_between, ℤ, pos, negsuc,
  ltb_ℤ, ◌==◌, string_eq,
}
use qontinui_supervisor.LkgCoverage.Params.{Bytes}

pub data Component : Type 0 where
  prefix : String → Component
  root_dir cur_dir parent_dir : Component
  normal : String → Component

abbrev pub FilePath : Type 0
FilePath = List Component

-- `PathBuf::pop`, on the components from the last one on: a root or a prefix stays.
unfoldable pub pop : FilePath → FilePath
pop [] = []
pop (normal s ∷ out) = out
pop (c ∷ out) = c ∷ out

unfoldable pub push : Component → FilePath → FilePath
unfolding pop
push cur_dir out = out
push parent_dir out = pop out
push c out = c ∷ out

-- From the last component on.
unfoldable pub normalize_onto : FilePath → FilePath → FilePath
unfolding push
normalize_onto out [] = out
normalize_onto out (c ∷ cs) = normalize_onto (push c out) cs

abbrev pub rev_onto : FilePath → FilePath → FilePath
rev_onto acc [] = acc
rev_onto acc (c ∷ cs) = rev_onto (c ∷ acc) cs

unfoldable pub lexical_normalize : FilePath → FilePath
unfolding normalize_onto
lexical_normalize p = rev_onto [] (normalize_onto [] p)

abbrev pub same_component : Component → Component → Bool
same_component (prefix s) (prefix t) = s == t
same_component root_dir root_dir = true
same_component cur_dir cur_dir = true
same_component parent_dir parent_dir = true
same_component (normal s) (normal t) = s == t
same_component _ _ = false

-- `Path::starts_with`, by whole components.
abbrev pub starts_with : FilePath → FilePath → Bool
starts_with p [] = true
starts_with [] (c ∷ cs) = false
starts_with (a ∷ p) (c ∷ cs) =
    let rest = starts_with p cs in if same_component a c then rest else false

abbrev pub prefix_of : FilePath → FilePath
prefix_of (prefix s ∷ _) = prefix s ∷ []
prefix_of _ = []

-- `Path::join`: a root replaces all but the prefix, a prefix replaces all.
unfoldable pub join : FilePath → FilePath → FilePath
join base (root_dir ∷ cs) = prefix_of base ++ (root_dir ∷ cs)
join base (prefix s ∷ cs) = prefix s ∷ cs
join base cs = base ++ cs

unfoldable pub resolve_path : Bool → FilePath → FilePath → Option FilePath
unfolding lexical_normalize join
resolve_path is_absolute submitted project_dir =
    if is_absolute
    then some (lexical_normalize submitted)
    else (let normalized = lexical_normalize (join project_dir submitted) in
        if starts_with normalized (lexical_normalize project_dir) then some normalized else none)

pub data Reason : Type 0 where
  covered covered_but_stale not_covered no_lkg file_not_found : Reason

-- Positive: the file is newer.
unfoldable pub decide_coverage : Option ℕ → Option ℕ → Bool × Option ℤ × Reason
decide_coverage (some lkg) (some m) =
    let file_newer = seconds_between m lkg in
    if ltb_ℤ (pos 0) file_newer
    then (false, some file_newer, not_covered)
    else (true, some file_newer, covered)
decide_coverage none _ = (false, none, no_lkg)
decide_coverage (some _) none = (false, none, file_not_found)

pub record FileCoverage : Type 0 where
  pub path : Bytes
  pub exists : Bool
  pub file_mtime : Option ℕ
  pub covered : Bool
  pub file_newer_than_lkg_secs : Option ℤ
  pub reason : Reason

abbrev pub lkg_stale_threshold_secs : ℕ
lkg_stale_threshold_secs = 86400

unfoldable pub promote_reason : Bool → Reason → Reason
promote_reason true covered = covered_but_stale
promote_reason _ r = r

unfoldable pub compute_lkg_age : Option ℕ → ℕ → Option ℤ × Bool
compute_lkg_age (some built_at) now =
    let age = seconds_between now built_at in (some age, ltb_ℤ (pos lkg_stale_threshold_secs) age)
compute_lkg_age none now = (none, false)

pub record CoverageResponse : Type 0 where
  pub lkg_built_at : Option ℕ
  pub lkg_age_secs : Option ℤ
  pub lkg_stale : Bool
  pub files : List FileCoverage
  pub all_covered : Bool

abbrev pub all_files : List FileCoverage → Bool
all_files [] = true
all_files (f ∷ fs) = let rest = all_files fs in if f.covered then rest else false

abbrev pub is_empty {ℓ} : {A : Type ℓ} → List A → Bool
is_empty [] = true
is_empty (_ ∷ _) = false

abbrev pub mtime_of : (FilePath → Option ℕ) → Option FilePath → Option ℕ
mtime_of read_file_mtime none = none
mtime_of read_file_mtime (some p) = read_file_mtime p

-- `Path::is_absolute` and `Path::components`, and the times of the files.
module _ (is_absolute : Bytes → Bool) (components : Bytes → FilePath)
    (read_file_mtime : FilePath → Option ℕ) where
  unfoldable pub coverage_for_resolved : Bytes → Option FilePath → Option ℕ → Bool → FileCoverage
  unfolding decide_coverage promote_reason
  coverage_for_resolved echo_path resolved lkg_at lkg_stale =
      let mtime = mtime_of read_file_mtime resolved in
      let decided = decide_coverage lkg_at mtime in
      record {
        path = echo_path;
        exists = is_some mtime;
        file_mtime = mtime;
        covered = decided.0;
        file_newer_than_lkg_secs = decided.1;
        reason = promote_reason (decided.0 && lkg_stale) decided.2;
      }

  unfoldable pub coverage_of : FilePath → Option ℕ → Bool → List Bytes → List FileCoverage
  unfolding coverage_for_resolved resolve_path
  coverage_of project_dir lkg_at lkg_stale [] = []
  coverage_of project_dir lkg_at lkg_stale (raw ∷ requested) =
      coverage_for_resolved raw (resolve_path (is_absolute raw) (components raw) project_dir) lkg_at
        lkg_stale
      ∷ coverage_of project_dir lkg_at lkg_stale requested

  unfoldable pub build_coverage_response : List Bytes → FilePath → Option ℕ → ℕ → CoverageResponse
  unfolding coverage_of compute_lkg_age
  build_coverage_response requested project_dir lkg_at now =
      let age = compute_lkg_age lkg_at now in
      let files = coverage_of project_dir lkg_at age.1 requested in
      record {
        lkg_built_at = lkg_at;
        lkg_age_secs = age.0;
        lkg_stale = age.1;
        files = files;
        all_covered = not (is_empty files) && all_files files;
      }
