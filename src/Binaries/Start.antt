-- ===== src/Binaries/Start.antt =====
-- The exe that a start deploys and the record that it keeps of it: the pinned exe, or the picked slot
-- behind the gate on its provenance (src/process/manager.rs).
use qontinui_supervisor.Prelude.{
  ℕ, Bool, true, false, Option, none, some, List, [], ◌∷◌, ◌++◌, eqb, if◌then◌else◌, find_first,
}
use qontinui_supervisor.Binaries.{
  ExePath, lkg_exe, override, same_source, BuildProvenance, LkgInfo, Disk, Pool, Warning,
  unknown_provenance, legacy_unknown, override_missing, foreign_exe, Result, ok, err, to_list,
  resolve_source_exe_with_slot,
}

unfoldable pub start_provenance_gate : Bool → ℕ → Option BuildProvenance → Result (Option Warning)
start_provenance_gate true slot_id prov = ok none
start_provenance_gate false slot_id none = ok (some (unknown_provenance slot_id))
start_provenance_gate false slot_id (some prov) =
    if same_source prov.source override then err (foreign_exe slot_id prov) else ok none

-- What a start has resolved: the exe, and the provenance that is recorded for the runner.
pub record Resolved : Type 0 where
  pub source_exe : ExePath
  pub build_provenance : Option BuildProvenance

abbrev pub is_lkg : ExePath → Bool
is_lkg lkg_exe = true
is_lkg _ = false

module _ (d : Disk) (pool : Pool) where
  unfoldable pub lkg_provenance : ExePath → Option LkgInfo → Option BuildProvenance
  lkg_provenance p none = none
  lkg_provenance p (some info) =
      if is_lkg p
      then some (record {
        sha = info.sha;
        source = info.source;
        built_from = "target-pool/lkg/qontinui-runner.exe";
        built_at = info.built_at;
      })
      else none

  unfoldable pub pinned : ExePath → List Warning × Result Resolved
  unfolding lkg_provenance
  pinned p =
      if d.exists p
      then (
        [],
        ok (record { source_exe = p; build_provenance = lkg_provenance p pool.last_known_good }),
      )
      else ([], err (override_missing p))

  -- The sidecar of the slot, which is looked up in the pool.
  unfoldable pub picked_provenance : ℕ → Option BuildProvenance
  picked_provenance picked_id = elim (find_first (λ k. eqb k picked_id) pool.slots) [
    | none ↦ none
    | some k ↦ d.sidecar k
  ]

  unfoldable pub gated :
      Bool → ℕ → ExePath → Result (Option Warning) → List Warning × Result Resolved
  unfolding picked_provenance
  gated is_temp picked_id resolved_path (err e) = ([], err e)
  gated is_temp picked_id resolved_path (ok w) = (
    to_list w,
    ok (record { source_exe = resolved_path; build_provenance = picked_provenance picked_id }),
  )

  unfoldable pub after_pick : Bool → Result (Option ℕ × ExePath) → List Warning × Result Resolved
  unfolding gated start_provenance_gate
  after_pick is_temp (err e) = ([], err e)
  after_pick is_temp (ok (some picked_id, resolved_path)) =
      gated is_temp picked_id resolved_path
        (start_provenance_gate is_temp picked_id (picked_provenance picked_id))
  after_pick is_temp (ok (none, resolved_path)) = (
    if is_temp then [] else legacy_unknown resolved_path ∷ [],
    ok (record { source_exe = resolved_path; build_provenance = none }),
  )

  -- The part of `start_exe_mode_for_runner` that finds the exe.
  unfoldable pub find_source_exe : Bool → Option ExePath → List Warning × Result Resolved
  unfolding pinned after_pick resolve_source_exe_with_slot
  find_source_exe is_temp (some p) = pinned p
  find_source_exe is_temp none =
      let found = resolve_source_exe_with_slot d pool in
      let last = after_pick is_temp found.1 in (found.0 ++ last.0, last.1)

  -- `resolve_lkg_exe`, which forgets a record whose exe is gone.
  unfoldable pub resolve_lkg_exe : Pool × Option ExePath
  resolve_lkg_exe = elim pool.last_known_good [
    | none ↦ (pool, none)
    | some info ↦
        if d.exists lkg_exe
        then (pool, some lkg_exe)
        else (record pool { last_known_good = none }, none)
  ]
