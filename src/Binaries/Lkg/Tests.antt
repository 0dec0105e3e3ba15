-- ===== src/Binaries/Lkg/Tests.antt =====
-- Two builds side by side, and the races that the slot's early release leaves open
-- (src/build_monitor.rs).
use qontinui_supervisor.Prelude.{
  ℕ, zero, suc, ◌≡◌, refl, Bool, true, false, none, some, List, [], ◌∷◌,
}
use qontinui_supervisor.Binaries.{
  BuildSource, live_tree, origin_main, override, is_vouched, BuildProvenance, ok,
}
use qontinui_supervisor.Binaries.Start.{start_provenance_gate}
use qontinui_supervisor.Binaries.Lkg.{
  Exe, Content, whole, torn, len, Files, Outcomes, write_meta, put, info_of, copy_exe, publish_exe,
  Lkg, record_info, promote, update_lkg_after_success,
}
use qontinui_supervisor.Binaries.Lkg as Lkg
use qontinui_supervisor.Binaries.Lkg.Updated.{Left, update_lkg_after_success-Left}
use qontinui_supervisor.Binaries.Lkg.Builds.{
  compiling, stamped, slot_of, World, in_use, link, claims, links, ends, succeeds, stamps, copies,
  publishes, records, remembers, Run, rest, act,
}
use qontinui_supervisor.Binaries.Lkg.Tasks.{VouchedExe, Sound}
use qontinui_supervisor.Binaries.Lkg.Vouched.{AllCalm, lkg_stays_vouched}

abbrev provenance : BuildSource → BuildProvenance
provenance source = record {
  sha = some "abc";
  source = source;
  built_from = "runner";
  built_at = "noon";
}

abbrev exe : BuildSource → Exe
exe source = record { source = source; size = 7 }

abbrev start : World
start = record {
  files = record { slot = λ k. none; exe = none; meta = none; tmp_exe = λ k. none };
  sidecar = λ k. none;
  last_successful_slot = none;
  last_known_good = none;
  tasks = [];
}

abbrev calm : ℕ → List Bool
calm zero = []
calm (suc n) = false ∷ calm n

-- A vouched build in slot 0, which is promoted, and a foreign one in slot 1.
abbrev side_by_side : (w : World) × Run start (calm 10) w
unfolding in_use slot_of len link copy_exe is_vouched
side_by_side = (
  _,
  act
      (act
        (act
          (act
            (act
              (act
                (act
                  (act (act (act rest (claims 0 live_tree)) (claims 1 override))
                    (links 1 0 (exe live_tree) refl))
                  (links 0 1 (exe override) refl))
                (succeeds 1 0 (exe live_tree) (provenance live_tree) refl refl refl))
              (stamps 1 0 (provenance live_tree) refl))
            (copies 1 0 (provenance live_tree) (whole (exe live_tree)) refl refl refl))
          (publishes 1 0 7 (provenance live_tree) refl))
        (records 1 0 7 (provenance live_tree) "noon" refl))
      (remembers 1 0 (info_of "noon" 0 7 (provenance live_tree)) refl),
)

promoted : (side_by_side.0).files.exe ≡ some (whole (exe live_tree))
unfolding in_use slot_of len link copy_exe is_vouched publish_exe
promoted = refl

start-Sound : Sound start
start-Sound = record { exe = tt; meta = tt; memory = tt; tasks = tt }

all_calm : (n : ℕ) → AllCalm (calm n)
all_calm zero = tt
all_calm (suc n) = (refl, all_calm n)

lkg_stays_vouched_example : Sound side_by_side.0
lkg_stays_vouched_example =
    lkg_stays_vouched start side_by_side.0 (calm 10) side_by_side.1 (all_calm 10) start-Sound

-- A foreign build claims the slot between the success of a vouched one and its promotion: the foreign
-- exe becomes the last known good one.
abbrev race :
    (w : World) × Run start (false ∷ false ∷ false ∷ false ∷ true ∷ false ∷ false ∷ false ∷ []) w
unfolding in_use slot_of len link copy_exe is_vouched
race = (
  _,
  act
      (act
        (act
          (act
            (act
              (act (act (act rest (claims 0 live_tree)) (links 0 0 (exe live_tree) refl))
                (succeeds 0 0 (exe live_tree) (provenance live_tree) refl refl refl))
              (claims 0 override))
            (links 0 0 (exe override) refl))
          (stamps 1 0 (provenance live_tree) refl))
        (copies 1 0 (provenance live_tree) (whole (exe override)) refl refl refl))
      (publishes 1 0 7 (provenance live_tree) refl),
)

race_promotes_foreign : VouchedExe (race.0).files.exe → ⊥
unfolding in_use slot_of len link copy_exe is_vouched publish_exe
race_promotes_foreign h = cc h

-- A foreign build that fails after cargo has written the exe leaves the sidecar of the build before it,
-- and the gate lets a managed runner have the foreign exe.
abbrev stale_sidecar : (w : World) × Run start (calm 8) w
unfolding in_use slot_of len link
stale_sidecar = (
  _,
  act
      (act
        (act
          (act
            (act
              (act (act (act rest (claims 0 live_tree)) (links 0 0 (exe live_tree) refl))
                (succeeds 0 0 (exe live_tree) (provenance live_tree) refl refl refl))
              (stamps 0 0 (provenance live_tree) refl))
            (ends 0 (stamped 0 (provenance live_tree)) refl))
          (claims 0 override))
        (links 0 0 (exe override) refl))
      (ends 0 (compiling 0 override) refl),
)

stale_sidecar_passes :
    ((stale_sidecar.0).files.slot 0 ≡ some (whole (exe override)))
    × ((stale_sidecar.0).last_successful_slot ≡ some 0)
    × (start_provenance_gate false 0 ((stale_sidecar.0).sidecar 0) ≡ ok none)
unfolding in_use slot_of len link start_provenance_gate
stale_sidecar_passes = (refl, refl, refl)

abbrev only_meta_fails : Outcomes
only_meta_fails = record {
  creates_dir = true;
  copies = true;
  copied_bytes = 0;
  stats = true;
  renames_exe = true;
  writes_meta = false;
  renames_meta = true;
}

abbrev disk : Lkg.Lkg
disk = record {
  files = record {
    slot = λ k. some (whole (exe origin_main));
    exe = some (whole (record { source = live_tree; size = 5 }));
    meta = some (info_of "noon" 1 5 (provenance live_tree));
    tmp_exe = λ k. none;
  };
  last_known_good = some (info_of "noon" 1 5 (provenance live_tree));
}

update_lkg_after_success-Left_example :
    Left "noon" 0
      (provenance origin_main)
      disk
      (is_vouched (provenance origin_main).source)
      (disk.files.slot 0)
      (update_lkg_after_success only_meta_fails "noon" 0 (provenance origin_main) disk)
update_lkg_after_success-Left_example =
    update_lkg_after_success-Left "noon" 0 (provenance origin_main) disk only_meta_fails
