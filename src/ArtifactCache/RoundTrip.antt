-- ===== src/ArtifactCache/RoundTrip.antt =====
-- From a build that fills the cache to a hit in another worktree: `populate_cache` and
-- `try_materialize_hit` of src/build_submissions.rs over src/bazel_remote.rs and src/reapi.rs.
use qontinui_supervisor.Prelude.{
  ℕ, ◌≡◌, ◌≢◌, ◌∙◌, refl, sym, ap, Bool, true, Option, none, some, List, [], ◌∷◌, arith, length,
  find_first, PartialEq, Option-cases, Bool-cases, inl, inr,
}
use qontinui_supervisor.Reapi.{Utf8, ActionResult, as_i64, encode}
use qontinui_supervisor.Reapi.Results.{IsActionResult, decode-encode}
use qontinui_supervisor.ArtifactCache.{
  Url, ac, cas, Remote, is_success, body_of, put_ok, ac_get, cas_get, cas_put, ac_put, Candidate,
  is_current, discover_artifacts, output_file, put_blobs, action_result, populate_cache,
  materialize, try_materialize_hit, write_file,
}
use qontinui_supervisor.ArtifactCache.Filled.{eqb_ℤ_iff}

-- What the server promises: a body that it took is the answer at its place, and at other places
-- nothing changes.
pub record Keeps {Text : Type 0} (R : Remote Text) : Type 0 where
  pub stored :
      (u : Url Text) (body : List ℕ) (st st' : R.State) (status : ℕ)
      → R.put u body st ≡ (some status, st')
      → is_success status ≡ true
      → R.get u st' ≡ some (200, body)
  pub elsewhere :
      (u v : Url Text) (body : List ℕ) (st : R.State)
      → u ≢ v
      → R.get v (R.put u body st).1 ≡ R.get v st

module _ (U : Utf8) (R : Remote U.Text) where
  open U use {Text}
  open R use {State}

  -- A PUT that reports success has stored its body.
  put_taken :
      Keeps R
      → (u : Url Text) (body : List ℕ) (st st' : State) → put_ok U R (R.put u body st) ≡ (true, st')
      → (R.get u st' ≡ some (200, body)) × ((R.put u body st).1 ≡ st')
  put_taken k u body st st' = go (R.put u body st).0 (R.put u body st).1 refl
    where
      go :
          (o : Option ℕ) (st1 : State)
          → R.put u body st ≡ (o, st1)
          → put_ok U R (o, st1) ≡ (true, st')
          → (R.get u st' ≡ some (200, body)) × (st1 ≡ st')
      go none st1 e h = unfold put_ok in absurd (ground (arith, h))
      go (some status) st1 e h = (
        k.stored u body st st' status
            (unfold put_ok in e ∙ ap (λ s. (some status, s)) (ap (λ p. p.1) h))
            (unfold put_ok in ap (λ p. p.0) h),
        unfold put_ok in ap (λ p. p.1) h,
      )

  -- The entry that a build with this artifact leaves.
  abbrev pub entry : (List ℕ → Text) → Text → List ℕ → ActionResult U
  entry sha rel bytes = action_result U R (output_file U R sha rel bytes ∷ [])

  -- What `populate_cache` has done when it reports success.
  pub record Populated (sha : List ℕ → Text) (key : Text) (built_after : ℕ)
      (cs : List (Candidate U R)) (st' : State) : Type 0 where
    pub artifact : Candidate U R
    pub bytes : List ℕ
    pub found : find_first (is_current U R built_after) cs ≡ some artifact
    pub read : artifact.content ≡ some bytes
    pub blob : R.get (cas (sha bytes)) st' ≡ some (200, bytes)
    pub result : R.get (ac key) st' ≡ some (200, encode U (entry sha artifact.rel bytes))

  populate_cache-Populated :
      Keeps R
      → (sha : List ℕ → Text) (key : Text) (built_after : ℕ) (cs : List (Candidate U R))
        (st st' : State)
      → populate_cache U R sha true key built_after cs st ≡ (true, st')
      → Populated sha key built_after cs st'
  unfolding populate_cache put_blobs discover_artifacts cas_put ac_put
  populate_cache-Populated k sha key built_after cs st st' h =
      elim (Option-cases (find_first (is_current U R built_after) cs)) [
        | inl e ↦ absurd (ground (arith, e, h))
        | inr (c, e) ↦ elim (Option-cases c.content) [
          | inl unread ↦ absurd (ground (arith, e, unread, h))
          | inr (bytes, read) ↦
              let p = put_ok U R (R.put (cas (sha bytes)) bytes st) in
              let q = put_ok U R (R.put (ac key) (encode U (entry sha c.rel bytes)) p.1) in
              elim (Bool-cases p.0) [
                | inl done ↦
                    let last : q ≡ (true, st') = ground (arith, e, read, done, h) in
                    let first =
                      put_taken k (cas (sha bytes)) bytes st p.1 (ap (λ b. (b, p.1)) done) in
                    let second =
                      put_taken k (ac key) (encode U (entry sha c.rel bytes)) p.1 st' last in
                    record {
                      artifact = c;
                      bytes = bytes;
                      found = e;
                      read = read;
                      blob =
                          ap (R.get (cas (sha bytes))) (sym second.1)
                          ∙ k.elsewhere (ac key) (cas (sha bytes)) _ p.1 (λ x. ground (arith, x))
                          ∙ first.0;
                      result = second.0;
                    }
                | inr failed ↦ absurd (ground (arith, e, read, failed, h))
              ]
        ]
      ]

  module _ {File : Type 0} ⦃e : PartialEq File⦄ (file_at : Text → File) where
    entry-try_materialize_hit :
        (sha : List ℕ → Text) (rel : Text) (bytes : List ℕ) (st : State) (can_write : Text → Bool)
        (files : File → Option (List ℕ))
        → R.get (cas (sha bytes)) st ≡ some (200, bytes)
        → can_write rel ≡ true
        → try_materialize_hit U R file_at true st can_write (entry sha rel bytes) files
          ≡ (true, write_file U R file_at (file_at rel) bytes files)
    unfolding try_materialize_hit materialize cas_get
    entry-try_materialize_hit sha rel bytes st can_write files blob may =
        let n = as_i64 (length bytes) in ground (arith, blob, may, (eqb_ℤ_iff n n).1 refl)

    -- A build that reports that it has filled the cache gives every later build with the same key its
    -- artifact, if the server keeps what it takes and the entry's texts and numbers fit the wire
    -- format: the lookup finds the entry, with exit code zero and one file, the first candidate that is
    -- current; and in any worktree where that file can be written, the hit is materialized, the file
    -- has the artifact's bytes, and no other file is changed.
    pub populate_then_hit :
        Keeps R
        → (sha : List ℕ → Text) (key : Text) (built_after : ℕ) (cs : List (Candidate U R))
          (st st' : State)
        → populate_cache U R sha true key built_after cs st ≡ (true, st')
        → ((c : Candidate U R) (bytes : List ℕ)
            → find_first (is_current U R built_after) cs ≡ some c
            → c.content ≡ some bytes
            → IsActionResult U (entry sha c.rel bytes))
        → (c : Candidate U R) × (bytes : List ℕ) × (find_first (is_current U R built_after) cs
            ≡ some c)
          × (c.content ≡ some bytes)
          × (ac_get U R true key st' ≡ some (entry sha c.rel bytes))
          × ((can_write : Text → Bool) (files : File → Option (List ℕ))
              → can_write c.rel ≡ true
              → try_materialize_hit U R file_at true st' can_write (entry sha c.rel bytes) files
                ≡ (true, write_file U R file_at (file_at c.rel) bytes files))
    unfolding ac_get body_of
    populate_then_hit k sha key built_after cs st st' h fits =
        let done = populate_cache-Populated k sha key built_after cs st st' h in
        let c = done.artifact in
        let bytes = done.bytes in
        let ar = entry sha c.rel bytes in
        (
          c,
          bytes,
          done.found,
          done.read,
          rw (done.result, decode-encode U ar (fits c bytes done.found done.read)) refl,
          λ can_write files may.
              entry-try_materialize_hit sha c.rel bytes st' can_write files done.blob may,
        )
