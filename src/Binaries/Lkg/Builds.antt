-- ===== src/Binaries/Lkg/Builds.antt =====
-- Builds side by side: from the claim of a slot to the record of the last known good exe
-- (src/build_monitor.rs, `run_cargo_build_with_dir_detailed` and `update_lkg_after_success`). The guard
-- of the slot is dropped when cargo is done, so another build may claim the slot while the exe in it is
-- still being promoted.
use qontinui_supervisor.Prelude.{
  ℕ, zero, suc, ◌≡◌, String, Bool, true, false, Option, none, some, List, [], ◌∷◌, any_of, eqb,
  get_elem?,
}
use qontinui_supervisor.Binaries.{BuildSource, is_vouched, BuildProvenance, LkgInfo}
use qontinui_supervisor.Binaries.Lkg.{
  Exe, Content, whole, torn, len, Files, put, info_of, copy_exe, publish_exe, load_lkg_from_disk,
}

-- Where a build stands: cargo runs; it has succeeded; the sidecar is written, or its writing has
-- failed; the exe is copied; the copy has become the exe of the directory `lkg`; the record is written.
pub data Task : Type 0 where
  compiling : ℕ → BuildSource → Task
  built stamped : ℕ → BuildProvenance → Task
  copied renamed : ℕ → BuildProvenance → ℕ → Task
  recorded : ℕ → LkgInfo → Task

unfoldable pub slot_of : Task → ℕ
slot_of (compiling k _) = k
slot_of (built k _) = k
slot_of (stamped k _) = k
slot_of (copied k _ _) = k
slot_of (renamed k _ _) = k
slot_of (recorded k _) = k

pub record World : Type 0 where
  pub files : Files
  pub sidecar : ℕ → Option BuildProvenance
  pub last_successful_slot : Option ℕ
  pub last_known_good : Option LkgInfo
  pub tasks : List Task

abbrev pub replace_at : List Task → ℕ → Task → List Task
replace_at [] i t = []
replace_at (x ∷ xs) zero t = t ∷ xs
replace_at (x ∷ xs) (suc i) t = x ∷ replace_at xs i t

abbrev pub remove_at : List Task → ℕ → List Task
remove_at [] i = []
remove_at (x ∷ xs) zero = xs
remove_at (x ∷ xs) (suc i) = x ∷ remove_at xs i

-- Another build has not finished with the slot.
unfoldable pub in_use : ℕ → List Task → Bool
unfolding slot_of
in_use k ts = any_of (λ t. eqb (slot_of t) k) ts

unfoldable pub link : ℕ → Content → Files → Files
link k c fs = record fs { slot = put k (some c) fs.slot }

-- A step, and whether it claims a slot that is in use. Cargo writes the exe of the tree that it
-- compiles, and has written it whole when it succeeds.
pub data Step (w : World) : Bool → World → Type 0 where
  claims :
      (k : ℕ) (source : BuildSource)
      → Step w (in_use k w.tasks) (record w { tasks = compiling k source ∷ w.tasks })
  links :
      (i k : ℕ) (e : Exe)
      → get_elem? w.tasks i ≡ some (compiling k e.source)
      → Step w false (record w { files = link k (whole e) w.files })
  links_some :
      (i k n : ℕ) (source : BuildSource)
      → get_elem? w.tasks i ≡ some (compiling k source)
      → Step w false (record w { files = link k (torn n) w.files })
  ends :
      (i : ℕ) (t : Task)
      → get_elem? w.tasks i ≡ some t
      → Step w false (record w { tasks = remove_at w.tasks i })
  succeeds :
      (i k : ℕ) (e : Exe) (provenance : BuildProvenance)
      → get_elem? w.tasks i ≡ some (compiling k e.source)
      → w.files.slot k ≡ some (whole e)
      → provenance.source ≡ e.source
      → Step w false (record w {
        last_successful_slot = some k;
        tasks = replace_at w.tasks i (built k provenance);
      })
  stamps :
      (i k : ℕ) (provenance : BuildProvenance)
      → get_elem? w.tasks i ≡ some (built k provenance)
      → Step w false (record w {
        sidecar = put k (some provenance) w.sidecar;
        tasks = replace_at w.tasks i (stamped k provenance);
      })
  fails_to_stamp :
      (i k : ℕ) (provenance : BuildProvenance)
      → get_elem? w.tasks i ≡ some (built k provenance)
      → Step w false (record w { tasks = replace_at w.tasks i (stamped k provenance) })
  copies :
      (i k : ℕ) (provenance : BuildProvenance) (c : Content)
      → get_elem? w.tasks i ≡ some (stamped k provenance)
      → is_vouched provenance.source ≡ true
      → w.files.slot k ≡ some c
      → Step w false (record w {
        files = copy_exe k c w.files;
        tasks = replace_at w.tasks i (copied k provenance (len c));
      })
  fails_to_copy :
      (i k n : ℕ) (provenance : BuildProvenance)
      → get_elem? w.tasks i ≡ some (stamped k provenance)
      → is_vouched provenance.source ≡ true
      → Step w false (record w { files = copy_exe k (torn n) w.files; tasks = remove_at w.tasks i })
  publishes :
      (i k exe_size : ℕ) (provenance : BuildProvenance)
      → get_elem? w.tasks i ≡ some (copied k provenance exe_size)
      → Step w false (record w {
        files = publish_exe k w.files;
        tasks = replace_at w.tasks i (renamed k provenance exe_size);
      })
  records :
      (i k exe_size : ℕ) (provenance : BuildProvenance) (now : String)
      → get_elem? w.tasks i ≡ some (renamed k provenance exe_size)
      → Step w false (record w {
        files = (let fs = w.files in record fs { meta = some (info_of now k exe_size provenance) });
        tasks = replace_at w.tasks i (recorded k (info_of now k exe_size provenance));
      })
  remembers :
      (i k : ℕ) (info : LkgInfo)
      → get_elem? w.tasks i ≡ some (recorded k info)
      → Step w false (record w { last_known_good = some info; tasks = remove_at w.tasks i })
  -- `resolve_lkg_exe` finds no exe.
  forgets : w.files.exe ≡ none → Step w false (record w { last_known_good = none })
  -- The supervisor stops at any point and starts again.
  restarts : Step w false (record w {
    last_successful_slot = none;
    last_known_good = load_lkg_from_disk w.files;
    tasks = [];
  })

pub data Run (w : World) : List Bool → World → Type 0 where
  rest : Run w [] w
  act :
      {overlaps : Bool} {before : List Bool} {w' w'' : World}
      → Run w before w'
      → Step w' overlaps w''
      → Run w (overlaps ∷ before) w''
