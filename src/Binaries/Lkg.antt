-- ===== src/Binaries/Lkg.antt =====
-- The copy of the last known good exe: `update_lkg_after_success` of src/build_monitor.rs and
-- `load_lkg_from_disk` of src/state.rs. An operation of the file system that fails is an outcome. The
-- shim that goes along is not modelled: it has files of its own and never fails the update.
pub mod Updated
pub mod Builds
pub mod Tasks
pub mod Vouched
mod Tests
use qontinui_supervisor.Prelude.{
  ℕ, ◌≡◌, String, Bool, true, false, not, Option, none, some, eqb, if◌then◌else◌,
}
use qontinui_supervisor.Binaries.{BuildSource, is_vouched, BuildProvenance, LkgInfo}

-- An exe with the tree that it was built from, which nobody can read off it.
pub record Exe : Type 0 where
  pub source : BuildSource
  pub size : ℕ

-- What a file holds: an exe, or so many bytes of one.
pub data Content : Type 0 where
  whole : Exe → Content
  torn : ℕ → Content

unfoldable pub len : Content → ℕ
len (whole e) = e.size
len (torn n) = n

-- The exes of the slots; the directory `lkg` with its temporary files, of which each slot has its own.
pub record Files : Type 0 where
  pub slot : ℕ → Option Content
  pub exe : Option Content
  pub meta : Option LkgInfo
  pub tmp_exe : ℕ → Option Content

pub record Outcomes : Type 0 where
  pub creates_dir : Bool
  pub copies : Bool
  pub copied_bytes : ℕ
  pub stats : Bool
  pub renames_exe : Bool
  pub writes_meta : Bool
  pub renames_meta : Bool

pub data Failure : Type 0 where
  exe_not_found create_dir copy stat rename_exe write_meta rename_meta : Failure

pub data Result : Type 0 where
  ok : Result
  err : Failure → Result

abbrev pub put : {A : Type 0} → ℕ → A → (ℕ → A) → ℕ → A
put k a f j = if eqb j k then a else f j

unfoldable pub info_of : String → ℕ → ℕ → BuildProvenance → LkgInfo
info_of now k exe_size provenance = record {
  built_at = now;
  source_slot = k;
  exe_size = exe_size;
  sha = provenance.sha;
  source = provenance.source;
}

unfoldable pub copy_exe : ℕ → Content → Files → Files
copy_exe k c fs = record fs { tmp_exe = put k (some c) fs.tmp_exe }

unfoldable pub publish_exe : ℕ → Files → Files
publish_exe k fs = record fs { exe = fs.tmp_exe k; tmp_exe = put k none fs.tmp_exe }

-- The disk, and what the supervisor has in memory.
pub record Lkg : Type 0 where
  pub files : Files
  pub last_known_good : Option LkgInfo

module _ (o : Outcomes) (now : String) (k : ℕ) (provenance : BuildProvenance) where
  -- From `lkg.json` on.
  unfoldable pub record_info : ℕ → Lkg → Result × Lkg
  unfolding info_of
  record_info exe_size s =
      if not o.writes_meta
      then (err write_meta, s)
      else if not o.renames_meta
      then (err rename_meta, s)
      else (let info = info_of now k exe_size provenance in
          (
            ok,
            record {
              files = (let fs = s.files in record fs { meta = some info });
              last_known_good = some info;
            },
          ))

  -- From the copy on; a copy that fails leaves some bytes.
  unfoldable pub promote : Content → Lkg → Result × Lkg
  unfolding copy_exe publish_exe record_info len
  promote c s =
      if not o.copies
      then (err copy, record s { files = copy_exe k (torn o.copied_bytes) s.files })
      else (let copied = record s { files = copy_exe k c s.files } in
          if not o.stats
          then (err stat, copied)
          else if not o.renames_exe
          then (err rename_exe, copied)
          else record_info (len c) (record copied { files = publish_exe k copied.files }))

  unfoldable pub update_lkg_after_success : Lkg → Result × Lkg
  unfolding promote is_vouched
  update_lkg_after_success s =
      if not (is_vouched provenance.source) then (ok, s) else elim (s.files.slot k) [
        | none ↦ (err exe_not_found, s)
        | some c ↦ if not o.creates_dir then (err create_dir, s) else promote c s
      ]

unfoldable pub load_lkg_from_disk : Files → Option LkgInfo
load_lkg_from_disk fs = elim fs.exe [ none ↦ none | some c ↦ fs.meta ]
