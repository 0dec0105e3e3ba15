-- ===== src/Binaries/Tests.antt =====
-- A pool of three slots, as the start of a runner finds it (src/process/manager.rs, tests).
use qontinui_supervisor.Prelude.{
  ℕ, ◌≡◌, refl, String, Bool, true, false, none, some, List, [], ◌∷◌, eqb,
}
use qontinui_supervisor.Binaries.{
  ExePath, slot_exe, legacy_exe, BuildSource, live_tree, override, BuildProvenance, Disk, Pool, Key,
  foreign_exe, err, detect_slot_sha_drift,
}
use qontinui_supervisor.Binaries.Start.{find_source_exe}
use qontinui_supervisor.Binaries.Gated.{Explained, find_source_exe-Explained}
use qontinui_supervisor.Binaries.Drift.{Reports, detect_slot_sha_drift-Reports}

abbrev built_from : BuildSource → String → BuildProvenance
built_from source sha = record {
  sha = some sha;
  source = source;
  built_from = "runner";
  built_at = "noon";
}

abbrev has_exe : ExePath → Bool
has_exe (slot_exe k) = eqb k 1
has_exe legacy_exe = true
has_exe _ = false

abbrev disk : Disk
disk = record {
  exists = has_exe;
  sidecar = λ k. some (built_from override "abc");
  mtime = λ p. none;
}

abbrev pool : Pool
pool = record { slots = 0 ∷ 1 ∷ 2 ∷ []; last_successful_slot = some 2; last_known_good = none }

-- The slot of the last successful build has lost its exe; the one that is left is foreign.
managed_is_refused :
    (find_source_exe disk pool false none).1 ≡ err (foreign_exe 1 (built_from override "abc"))
unfolding find_source_exe
managed_is_refused = refl

find_source_exe-Explained_example :
    Explained disk pool false none
      (find_source_exe disk pool false none).0
      (find_source_exe disk pool false none).1
find_source_exe-Explained_example = find_source_exe-Explained disk pool false none

abbrev keys : List (ℕ × Key)
keys =
    (2, (some "b", some live_tree))
    ∷ (0, (none, none))
    ∷ (1, (some "a", some live_tree))
    ∷ (3, (some "a", some override))
    ∷ []

detect_slot_sha_drift-Reports_example :
    Reports 1
      (some "a", some live_tree)
      (λ c. true)
      keys
      (detect_slot_sha_drift 1 (some "a", some live_tree) keys)
detect_slot_sha_drift-Reports_example =
    detect_slot_sha_drift-Reports 1 (some "a", some live_tree) (λ c. true) keys
