-- ===== src/LkgCoverage/Covered.antt =====
-- What a response says about each file (src/routes/lkg_coverage.rs, `build_coverage_response`).
use qontinui_supervisor.Prelude.{
  ℕ, ◌+◌, ◌-◌, ◌*◌, ◌/◌, ◌≡◌, refl, sym, ◌∙◌, arith, Bool, true, false, not, Option, none, some,
  List, [], ◌∷◌, ◌&&◌, leb, ltb, if◌then◌else◌, is_some, seconds_between, ℤ, pos, ltb_ℤ, negate,
  zero, suc, Bool-cases, inl, inr,
}
use qontinui_supervisor.LkgCoverage.Params.{Bytes}
use qontinui_supervisor.LkgCoverage.{
  FilePath, resolve_path, Reason, covered, covered_but_stale, not_covered, no_lkg, file_not_found,
  decide_coverage, FileCoverage, lkg_stale_threshold_secs, promote_reason, compute_lkg_age,
  all_files, is_empty, mtime_of, coverage_for_resolved, coverage_of, build_coverage_response,
}

-- The file was there before the build, or less than a second after it.
abbrev pub contains : Option ℕ → Option ℕ → Bool
contains (some lkg) (some m) = ltb m (lkg + 1000000000)
contains none _ = false
contains (some lkg) none = false

-- The build is older than a day, by a second or more.
abbrev pub outdated : Option ℕ → ℕ → Bool
outdated none now = false
outdated (some lkg) now = leb (lkg + 86401 * 1000000000) now

abbrev pub expected : Bool → Option ℕ → Option ℕ → Reason
expected stale none m = no_lkg
expected stale (some lkg) none = file_not_found
expected stale (some lkg) (some m) =
    if ltb m (lkg + 1000000000) then (if stale then covered_but_stale else covered) else not_covered

not_above_negate : (k n : ℕ) → ltb_ℤ (pos k) (negate n) ≡ false
not_above_negate k zero = ground arith
not_above_negate k (suc n) = ground arith

-- More than `k` whole seconds after.
seconds_after : (k a b : ℕ) → ltb_ℤ (pos k) (seconds_between a b) ≡ leb (b + (k + 1) * 1000000000) a
seconds_after k a b = elim (Bool-cases (leb b a)) [
  | inl y ↦ rw y (ground (arith, y))
  | inr n ↦ rw n (not_above_negate k ((b - a) / 1000000000) ∙ sym (later n))
]
  where
    later : leb b a ≡ false → leb (b + (k + 1) * 1000000000) a ≡ false
    later n = ground (arith, n)

covered_iff : (m lkg : ℕ) → ltb_ℤ (pos 0) (seconds_between m lkg) ≡ not (ltb m (lkg + 1000000000))
covered_iff m lkg = seconds_after 0 m lkg ∙ ground arith

-- What is said about one file.
pub record IsCoverage (stale : Bool) (lkg modified : Option ℕ) (f : FileCoverage) : Type 0 where
  pub mtime : f.file_mtime ≡ modified
  pub exists : f.exists ≡ is_some modified
  pub covered : f.covered ≡ contains lkg modified
  pub reason : f.reason ≡ expected stale lkg modified

decide_by :
    (stale newer has : Bool) (z : Option ℤ)
    → newer ≡ not has
    → (let d : Bool × Option ℤ × Reason =
          if newer then (false, z, not_covered) else (true, z, covered) in
        (d.0 ≡ has)
        × (promote_reason (d.0 && stale) d.2
            ≡ (if has then (if stale then covered_but_stale else covered) else not_covered)))
unfolding promote_reason
decide_by stale true false z e = (refl, refl)
decide_by true false true z e = (refl, refl)
decide_by false false true z e = (refl, refl)
decide_by stale true true z e = absurd (ground (arith, e))
decide_by stale false false z e = absurd (ground (arith, e))

decide_lem :
    (stale : Bool) (lkg mtime : Option ℕ)
    → (let d = decide_coverage lkg mtime in
        (d.0 ≡ contains lkg mtime) × (promote_reason (d.0 && stale) d.2 ≡ expected stale lkg mtime))
unfolding decide_coverage promote_reason
decide_lem stale none m = (refl, refl)
decide_lem stale (some lkg) none = (refl, refl)
decide_lem stale (some lkg) (some m) =
    decide_by stale _ _ (some (seconds_between m lkg)) (covered_iff m lkg)

stale_lem : (lkg : Option ℕ) (now : ℕ) → (compute_lkg_age lkg now).1 ≡ outdated lkg now
unfolding compute_lkg_age
stale_lem none now = refl
stale_lem (some lkg) now = seconds_after lkg_stale_threshold_secs now lkg

module _ (is_absolute : Bytes → Bool) (components : Bytes → FilePath)
    (read_file_mtime : FilePath → Option ℕ) (project_dir : FilePath) where
  -- The time of the file that a text names.
  abbrev pub mtime : Bytes → Option ℕ
  mtime raw = mtime_of read_file_mtime (resolve_path (is_absolute raw) (components raw) project_dir)

  abbrev pub Covers : Bool → Option ℕ → List Bytes → List FileCoverage → Type 0
  Covers stale lkg [] [] = Unit
  Covers stale lkg (raw ∷ requested) (f ∷ fs) =
      (f.path ≡ raw) × IsCoverage stale lkg (mtime raw) f × Covers stale lkg requested fs
  Covers stale lkg _ _ = ⊥

  abbrev pub all_contained : Option ℕ → List Bytes → Bool
  all_contained lkg [] = true
  all_contained lkg (raw ∷ requested) =
      let rest = all_contained lkg requested in if contains lkg (mtime raw) then rest else false

  coverage_of-Covers :
      (stale : Bool) (lkg : Option ℕ) (requested : List Bytes)
      → (let fs =
            coverage_of is_absolute components read_file_mtime project_dir lkg stale requested in
          Covers stale lkg requested fs × (all_files fs ≡ all_contained lkg requested))
  unfolding coverage_of coverage_for_resolved
  coverage_of-Covers stale lkg [] = (tt, refl)
  coverage_of-Covers stale lkg (raw ∷ requested) =
      let d = decide_lem stale lkg (mtime raw) in
      let later = coverage_of-Covers stale lkg requested in
      (
        (refl, record { mtime = refl; exists = refl; covered = d.0; reason = d.1 }, later.0),
        rw (d.0, later.1) refl,
      )

  same_length :
      (stale : Bool) (lkg : Option ℕ) (requested : List Bytes)
      → is_empty
          (coverage_of is_absolute components read_file_mtime project_dir lkg stale requested)
        ≡ is_empty requested
  unfolding coverage_of
  same_length stale lkg [] = refl
  same_length stale lkg (raw ∷ requested) = refl

  -- The response names the requested files in their order. A file is covered exactly if the last known
  -- good exe was built after its last change, or less than a second before; a reason says which of the
  -- five cases it is, and the exe counts as stale from a day and a second on. All files are covered
  -- exactly if there is one and each of them is.
  pub build_coverage_response-Covers :
      (requested : List Bytes) (lkg : Option ℕ) (now : ℕ)
      → (let r =
            build_coverage_response is_absolute components read_file_mtime requested project_dir lkg
              now in
          Covers (outdated lkg now) lkg requested r.files
          × (r.all_covered ≡ not (is_empty requested) && all_contained lkg requested)
          × (r.lkg_stale ≡ outdated lkg now))
  unfolding build_coverage_response
  build_coverage_response-Covers requested lkg now =
      let stale = (compute_lkg_age lkg now).1 in
      let c = coverage_of-Covers stale lkg requested in
      (
        rw (← stale_lem lkg now) c.0,
        rw (same_length stale lkg requested, c.1) refl,
        stale_lem lkg now,
      )
