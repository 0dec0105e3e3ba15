-- ===== src/ArtifactCache.antt =====
-- The content-addressed artifact cache: the client of src/bazel_remote.rs, and what
-- src/build_submissions.rs puts into the cache and takes out of it. The cache server is a service, so
-- its answers are a parameter, as is the hash.
pub mod Filled
pub mod RoundTrip
mod Tests
use qontinui_supervisor.Prelude.{
  ℕ, ◌+◌, ◌-◌, ◌*◌, ◌^◌, ℤ, pos, negsuc, Bool, true, false, not, Option, none, some, List, [], ◌∷◌,
  ◌&&◌, eqb, leb, ltb, if◌then◌else◌, length, find_first, PartialEq, ◌==◌,
}
use qontinui_supervisor.Reapi.{Utf8, OutputFile, ActionResult, as_i64, encode, decode}
use qontinui_supervisor.Reapi.Wire.{ok, err}

-- Where the server keeps an action result, and a blob.
pub data Url (Text : Type 0) : Type 0 where
  ac cas : Text → Url Text

-- The server: the answer to a GET or PUT is its status and body, or none if the transport failed.
pub record Remote (Text : Type 0) : Type 1 where
  pub State : Type 0
  pub get : Url Text → State → Option (ℕ × List ℕ)
  pub put : Url Text → List ℕ → State → Option ℕ × State

-- `StatusCode::is_success`
unfoldable pub is_success : ℕ → Bool
is_success status = leb 200 status && ltb status 300

unfoldable pub eqb_ℤ : ℤ → ℤ → Bool
eqb_ℤ (pos m) (pos n) = eqb m n
eqb_ℤ (negsuc m) (negsuc n) = eqb m n
eqb_ℤ (pos m) (negsuc n) = false
eqb_ℤ (negsuc m) (pos n) = false

abbrev pub map_option {ℓ κ} : {A : Type ℓ} {B : Type κ} → (A → B) → Option A → Option B
map_option f none = none
map_option f (some a) = some (f a)

module _ (U : Utf8) (R : Remote U.Text) where
  open U use {Text}
  open R use {State}

  -- The two GETs, with a switch for the integration.
  unfoldable pub body_of : Option (ℕ × List ℕ) → Option (List ℕ)
  body_of none = none
  body_of (some (status, body)) = if eqb status 200 then some body else none

  unfoldable pub ac_get : Bool → Text → State → Option (ActionResult U)
  unfolding body_of
  ac_get enabled key st = if not enabled then none else elim (body_of (R.get (ac key) st)) [
    | none ↦ none
    | some body ↦ elim (decode U body) [ ok ar ↦ some ar | err e ↦ none ]
  ]

  unfoldable pub cas_get : Bool → Text → State → Option (List ℕ)
  unfolding body_of
  cas_get enabled sha st = if not enabled then none else body_of (R.get (cas sha) st)

  -- The two PUTs.
  unfoldable pub put_ok : Option ℕ × State → Bool × State
  unfolding is_success
  put_ok (none, st) = (false, st)
  put_ok (some status, st) = (is_success status, st)

  unfoldable pub cas_put : Bool → Text → List ℕ → State → Bool × State
  unfolding put_ok
  cas_put enabled sha body st =
      if not enabled then (false, st) else put_ok (R.put (cas sha) body st)

  unfoldable pub ac_put : Bool → Text → ActionResult U → State → Bool × State
  unfolding put_ok
  ac_put enabled key ar st =
      if not enabled then (false, st) else put_ok (R.put (ac key) (encode U ar) st)

  -- A file that may be the artifact of a build: its path in the worktree, what the file system says of
  -- it, and what reading it gives.
  pub record Candidate : Type 0 where
    pub rel : Text
    pub is_file : Bool
    pub modified : Option ℕ
    pub content : Option (List ℕ)

  -- Not older than the start of the build, with a grace of two seconds.
  unfoldable pub is_current : ℕ → Candidate → Bool
  is_current built_after c = c.is_file && elim c.modified [
    | none ↦ true
    | some mtime ↦ not (ltb mtime (built_after - 2 * 1000000000))
  ]

  -- `discover_artifacts`, from the list of candidates on.
  unfoldable pub discover_artifacts : ℕ → List Candidate → List Candidate
  unfolding is_current
  discover_artifacts built_after cs = elim (find_first (is_current built_after) cs) [
    | none ↦ []
    | some c ↦ c ∷ []
  ]

  -- The entry of an artifact.
  abbrev pub output_file : (List ℕ → Text) → Text → List ℕ → OutputFile U
  output_file sha rel bytes = record {
    path = rel;
    digest = record { hash = sha bytes; size_bytes = as_i64 (length bytes) };
    is_executable = true;
  }

  -- The loop of `populate_cache`.
  unfoldable pub put_blobs :
      (List ℕ → Text) → Bool → List Candidate → State → Option (List (OutputFile U)) × State
  unfolding cas_put
  put_blobs sha enabled [] st = (some [], st)
  put_blobs sha enabled (c ∷ cs) st = elim c.content [
    | none ↦ (none, st)
    | some bytes ↦
        let (done, st1) = cas_put enabled (sha bytes) bytes st in
        let rest = put_blobs sha enabled cs st1 in
        if done
        then (map_option (λ files. output_file sha c.rel bytes ∷ files) rest.0, rest.1)
        else (none, st1)
  ]

  abbrev pub action_result : List (OutputFile U) → ActionResult U
  action_result files = record { output_files = files; exit_code = pos 0 }

  -- `populate_cache`
  unfoldable pub populate_cache :
      (List ℕ → Text) → Bool → Text → ℕ → List Candidate → State → Bool × State
  unfolding discover_artifacts put_blobs ac_put
  populate_cache sha enabled key built_after cs st = elim (discover_artifacts built_after cs) [
    | [] ↦ (false, st)
    | a ∷ artifacts ↦
        let (files, st1) = put_blobs sha enabled (a ∷ artifacts) st in
        elim files [ none ↦ (false, st1) | some fs ↦ ac_put enabled key (action_result fs) st1 ]
  ]

  -- `file_at` is the file that the system reaches by the path of an output, joined to the worktree:
  -- two paths may lead to one file, and an absolute path or one with `..` to a file outside.
  module _ {File : Type 0} ⦃e : PartialEq File⦄ (file_at : Text → File) where
    abbrev pub write_file : File → List ℕ → (File → Option (List ℕ)) → File → Option (List ℕ)
    write_file path bytes files p = if path == p then some bytes else files p

    -- The loop of `try_materialize_hit`; `can_write` tells the paths whose directory can be made and
    -- whose file can be written.
    unfoldable pub materialize :
        Bool
        → State
        → (Text → Bool)
        → List (OutputFile U)
        → (File → Option (List ℕ))
        → Bool × (File → Option (List ℕ))
    unfolding cas_get eqb_ℤ
    materialize enabled st can_write [] files = (true, files)
    materialize enabled st can_write (f ∷ fs) files = elim (cas_get enabled f.digest.hash st) [
      | none ↦ (false, files)
      | some bytes ↦
          let rest =
            materialize enabled st can_write fs (write_file (file_at f.path) bytes files) in
          if not (eqb_ℤ (as_i64 (length bytes)) f.digest.size_bytes)
          then (false, files)
          else if can_write f.path
          then rest
          else (false, files)
    ]

    -- `try_materialize_hit`
    unfoldable pub try_materialize_hit :
        Bool
        → State
        → (Text → Bool)
        → ActionResult U
        → (File → Option (List ℕ))
        → Bool × (File → Option (List ℕ))
    unfolding materialize
    try_materialize_hit enabled st can_write ar files = elim ar.output_files [
      | [] ↦ (false, files)
      | f ∷ fs ↦ materialize enabled st can_write (f ∷ fs) files
    ]
