-- ===== src/ArtifactCache/Filled.antt =====
-- What a cache hit leaves in a worktree: `try_materialize_hit` of src/build_submissions.rs.
use qontinui_supervisor.Prelude.{
  ℕ, ◌≡◌, ◌≢◌, ◌↔◌, inl, inr, refl, ◌∙◌, ℤ, pos, negsuc, Bool, true, Option, some, List, [], ◌∷◌,
  arith, length, PartialEq, In, Distinct, Option-cases,
}
use qontinui_supervisor.Reapi.{Utf8, OutputFile, ActionResult, as_i64}
use qontinui_supervisor.ArtifactCache.{
  Remote, eqb_ℤ, cas_get, materialize, try_materialize_hit, write_file,
}

pub eqb_ℤ_iff : (a b : ℤ) → (eqb_ℤ a b ≡ true) ↔ (a ≡ b)
unfolding eqb_ℤ
eqb_ℤ_iff (pos m) (pos n) = ground arith
eqb_ℤ_iff (negsuc m) (negsuc n) = ground arith
eqb_ℤ_iff (pos m) (negsuc n) = ground arith
eqb_ℤ_iff (negsuc m) (pos n) = ground arith

module _ (U : Utf8) (R : Remote U.Text) {File : Type 0} ⦃e : PartialEq File⦄
    (file_at : U.Text → File) where
  open U use {Text}
  open R use {State}

  -- The files that the targets of an action result lead to.
  abbrev pub targets : List (OutputFile U) → List File
  targets [] = []
  targets (f ∷ fs) = file_at f.path ∷ targets fs

  abbrev pub Files : Type 0
  Files = File → Option (List ℕ)

  -- The file is there, with the bytes of its blob, as many as the entry says.
  pub record IsThere (enabled : Bool) (st : State) (can_write : Text → Bool) (f : OutputFile U)
      (files : Files) : Type 0 where
    pub bytes : List ℕ
    pub blob : cas_get U R enabled f.digest.hash st ≡ some bytes
    pub size : as_i64 (length bytes) ≡ f.digest.size_bytes
    pub writable : can_write f.path ≡ true
    pub content : files (file_at f.path) ≡ some bytes

  abbrev pub AllThere : Bool → State → (Text → Bool) → List (OutputFile U) → Files → Type 0
  AllThere enabled st can_write [] files = Unit
  AllThere enabled st can_write (f ∷ fs) files =
      IsThere enabled st can_write f files × AllThere enabled st can_write fs files

  -- Only these files are written.
  materialize_elsewhere :
      (enabled : Bool) (st : State) (can_write : Text → Bool) (fs : List (OutputFile U))
      (files : Files) (p : File)
      → (In p (targets fs) → ⊥)
      → (materialize U R file_at enabled st can_write fs files).1 p ≡ files p
  unfolding materialize
  materialize_elsewhere enabled st can_write [] files p h = refl
  materialize_elsewhere enabled st can_write (f ∷ fs) files p h =
      elim (Option-cases (cas_get U R enabled f.digest.hash st)) [
        | inl gone ↦ ground (arith, gone)
        | inr (bytes, blob) ↦
            let later =
              materialize_elsewhere enabled st can_write fs
                (write_file U R file_at (file_at f.path) bytes files) p (λ i. h (inr i)) in
            ground (
              arith,
              blob,
              later,
              e.same_iff (file_at f.path) p,
              λ (same : p ≡ file_at f.path). h (inl same),
            )
      ]

  -- What a success says of the first file.
  pub materialize_first :
      (enabled : Bool) (st : State) (can_write : Text → Bool) (f : OutputFile U)
      (fs : List (OutputFile U)) (files : Files)
      → (materialize U R file_at enabled st can_write (f ∷ fs) files).0 ≡ true
      → (bytes : List ℕ) × (cas_get U R enabled f.digest.hash st ≡ some bytes)
        × (as_i64 (length bytes) ≡ f.digest.size_bytes)
        × (can_write f.path ≡ true)
        × (materialize U R file_at enabled st can_write (f ∷ fs) files
            ≡ materialize U R file_at enabled st can_write fs
                (write_file U R file_at (file_at f.path) bytes files))
  unfolding materialize
  materialize_first enabled st can_write f fs files h =
      elim (Option-cases (cas_get U R enabled f.digest.hash st)) [
        | inl gone ↦ absurd (ground (arith, gone, h))
        | inr (bytes, blob) ↦ (
          bytes,
          blob,
          ground (arith, blob, h, eqb_ℤ_iff (as_i64 (length bytes)) f.digest.size_bytes),
          ground (arith, blob, h),
          ground (arith, blob, h),
        )
      ]

  materialize-AllThere :
      (enabled : Bool) (st : State) (can_write : Text → Bool) (fs : List (OutputFile U))
      (files : Files)
      → Distinct (targets fs)
      → (materialize U R file_at enabled st can_write fs files).0 ≡ true
      → AllThere enabled st can_write fs (materialize U R file_at enabled st can_write fs files).1
  materialize-AllThere enabled st can_write [] files d h = tt
  materialize-AllThere enabled st can_write (f ∷ fs) files d h =
      let (bytes, blob, size, may, on) = materialize_first enabled st can_write f fs files h in
      let files' = write_file U R file_at (file_at f.path) bytes files in
      rw on (
        record {
          bytes = bytes;
          blob = blob;
          size = size;
          writable = may;
          content =
              materialize_elsewhere enabled st can_write fs files' (file_at f.path) d.0
              ∙ ground (arith, e.same_iff (file_at f.path) (file_at f.path));
        },
        materialize-AllThere enabled st can_write fs files' d.1 (rw (← on) h),
      )

  -- Whatever the server answers, whichever files can be written and whichever file each path leads to: if
  -- a cache hit is reported as materialized, the action result names a file, and if its paths lead to
  -- distinct files, each of these holds the bytes of its blob, as many as its digest says. In any case no
  -- file is changed, within the worktree or outside, that no path of the action result leads to.
  pub try_materialize_hit-AllThere :
      (enabled : Bool) (st : State) (can_write : Text → Bool) (ar : ActionResult U) (files : Files)
      → let r = try_materialize_hit U R file_at enabled st can_write ar files in
        (r.0 ≡ true
          → (ar.output_files ≢ [])
            × (Distinct (targets ar.output_files)
                → AllThere enabled st can_write ar.output_files r.1))
        × ((p : File) → (In p (targets ar.output_files) → ⊥) → r.1 p ≡ files p)
  unfolding try_materialize_hit
  try_materialize_hit-AllThere enabled st can_write ar files = go ar.output_files ar.exit_code
    where
      go :
          (fs : List (OutputFile U)) (code : ℤ)
          → let r =
              try_materialize_hit U R file_at enabled st can_write
                (record { output_files = fs; exit_code = code })
                files in
            (r.0 ≡ true
              → (fs ≢ []) × (Distinct (targets fs) → AllThere enabled st can_write fs r.1))
            × ((p : File) → (In p (targets fs) → ⊥) → r.1 p ≡ files p)
      go [] code = unfold try_materialize_hit in (λ t. absurd (ground (arith, t)), λ p n. refl)
      go (f ∷ fs) code =
          unfold try_materialize_hit in
          (
            λ t. (
              λ n. absurd (ground (arith, n)),
              λ d. materialize-AllThere enabled st can_write (f ∷ fs) files d t,
            ),
            λ p n. materialize_elsewhere enabled st can_write (f ∷ fs) files p n,
          )
