-- ===== src/SymbolWatcher/Claims.antt =====
-- The claims that the watcher of src/symbol_watcher/mod.rs holds.
use qontinui_supervisor.Prelude.{
  ℕ, suc, ◌≡◌, refl, sym, ◌∙◌, ap, subst, inl, inr, arith, String, Bool, not, ◌&&◌, ◌||◌, none,
  some, List, [], ◌∷◌, ◌++◌, string_eq, ◌==◌, is_some, Bool-cases,
}
use Prim.Native.String
use Prim.Native.String.{◌++◌ as concat}
use qontinui_supervisor.Prelude.Assoc
use qontinui_supervisor.SymbolWatcher.{
  Symbol, SymbolDiff, compute_diff, has_name, is_empty, is_nil, known, update, forget,
}
use qontinui_supervisor.SymbolWatcher.Diffs.{
  has_name-added, has_name-removed, has_name-modified, is_empty-names, nil_has_name,
}
use qontinui_supervisor.SymbolWatcher.Events.{
  FileSystem, Metadata, make_resource_key, SymbolWatcher, acquire_all, release_all, handle_deletion,
  handle_diff, handle_event, place, find_repo_root, relative_repo_path, name_or_unknown,
}

abbrev rest_of : String → String
rest_of String.[] = ""
rest_of (String.◌∷◌ c p) = p

concat_cancel : (p a b : String) → concat p a ≡ concat p b → a ≡ b
concat_cancel String.[] a b h = sym (String.append.nil a) ∙ h ∙ String.append.nil b
concat_cancel (String.◌∷◌ c p) a b h =
    concat_cancel p a b (ap rest_of (sym (String.append.cons c p a) ∙ h ∙ String.append.cons c p b))

pub key_of_name :
    (repo rel_file a b : String)
    → (make_resource_key repo rel_file a == make_resource_key repo rel_file b) ≡ (a == b)
unfolding make_resource_key
key_of_name repo rel_file a b =
    let p = concat (concat (concat repo ":") rel_file) ":" in
    ground (
      arith,
      string_eq.same_iff (concat p a) (concat p b),
      string_eq.same_iff a b,
      concat_cancel p a b,
    )

has_name-append :
    (n : String) (xs ys : List Symbol) → has_name n (xs ++ ys) ≡ (has_name n xs || has_name n ys)
unfolding has_name
has_name-append n [] ys = refl
has_name-append n (x ∷ xs) ys = ground (arith, has_name-append n xs ys)

module _ (F : FileSystem) where
  -- The claim of a file's symbol is active.
  abbrev pub is_active : String → SymbolWatcher F → Bool
  is_active key w = is_some (Assoc.get key w.active)

  module _ (repo rel_file n : String) where
    acquire_all-is_active :
        (symbols : List Symbol) (now : ℕ → ℕ) (i : ℕ) (w : SymbolWatcher F)
        → let key = make_resource_key repo rel_file n in
          is_active key (acquire_all F now i repo rel_file symbols w)
          ≡ (has_name n symbols || is_active key w)
    unfolding acquire_all has_name
    acquire_all-is_active [] now i w = refl
    acquire_all-is_active (s ∷ symbols) now i w =
        let key = make_resource_key repo rel_file in
        acquire_all-is_active symbols now (suc i) _
        ∙ rw (Assoc.get-insert (key s.name) (key n), key_of_name repo rel_file s.name n)
            (ground arith)

    release_all-is_active :
        (symbols : List Symbol) (metadata : Symbol → Metadata) (w : SymbolWatcher F)
        → let key = make_resource_key repo rel_file n in
          is_active key (release_all F metadata repo rel_file symbols w)
          ≡ (not (has_name n symbols) && is_active key w)
    unfolding release_all has_name
    release_all-is_active [] metadata w = refl
    release_all-is_active (s ∷ symbols) metadata w =
        let key = make_resource_key repo rel_file in
        release_all-is_active symbols metadata _
        ∙ rw (Assoc.get-remove (key s.name) (key n), key_of_name repo rel_file s.name n)
            (ground arith)

  acquire_all-memory :
      (symbols : List Symbol) (now : ℕ → ℕ) (i : ℕ) (repo rel_file : String) (w : SymbolWatcher F)
      → (acquire_all F now i repo rel_file symbols w).memory ≡ w.memory
  unfolding acquire_all
  acquire_all-memory [] now i repo rel_file w = refl
  acquire_all-memory (s ∷ symbols) now i repo rel_file w =
      acquire_all-memory symbols now (suc i) repo rel_file _

  release_all-memory :
      (symbols : List Symbol) (metadata : Symbol → Metadata) (repo rel_file : String)
      (w : SymbolWatcher F)
      → (release_all F metadata repo rel_file symbols w).memory ≡ w.memory
  unfolding release_all
  release_all-memory [] metadata repo rel_file w = refl
  release_all-memory (s ∷ symbols) metadata repo rel_file w =
      release_all-memory symbols metadata repo rel_file _

  handle_diff-memory :
      (now : ℕ → ℕ) (repo rel_file : String) (d : SymbolDiff) (w : SymbolWatcher F)
      → (handle_diff F now repo rel_file d w).memory ≡ w.memory
  unfolding handle_diff
  handle_diff-memory now repo rel_file d w = elim (Bool-cases (is_empty d)) [
    | inl e ↦ rw e refl
    | inr e ↦ rw e (
        release_all-memory d.removed _ repo rel_file _
        ∙ acquire_all-memory (d.added ++ d.modified) now 0 repo rel_file w)
  ]

  handle_diff-is_active :
      (now : ℕ → ℕ) (repo rel_file n : String) (prior current : List Symbol) (w : SymbolWatcher F)
      → let key = make_resource_key repo rel_file n in
        is_active key w ≡ has_name n prior
        → is_active key (handle_diff F now repo rel_file (compute_diff prior current) w)
          ≡ has_name n current
  unfolding handle_diff
  handle_diff-is_active now repo rel_file n prior current w h =
      let d = compute_diff prior current in
      elim (Bool-cases (is_empty d)) [
        | inl e ↦ rw e (h ∙ sym (is_empty-names prior current n e))
        | inr e ↦ rw e (
            release_all-is_active repo rel_file n d.removed _ _
            ∙ ap (λ b. not (has_name n d.removed) && b)
                (acquire_all-is_active repo rel_file n (d.added ++ d.modified) now 0 w)
            ∙ rw (h, has_name-append n d.added d.modified)
                (ground (
                  arith,
                  has_name-added prior current n,
                  has_name-removed prior current n,
                  has_name-modified prior current n,
                )))
      ]

  known-insert :
      (path : F.FilePath) (symbols : List Symbol) (files : List (F.FilePath × List Symbol))
      → known ⦃e = F.path_eq⦄ path (Assoc.insert ⦃e = F.path_eq⦄ path symbols files) ≡ symbols
  unfolding known
  known-insert path symbols files =
      rw (known, Assoc.get-insert_self ⦃e = F.path_eq⦄ path symbols files) refl

  known-remove :
      (path : F.FilePath) (files : List (F.FilePath × List Symbol))
      → known ⦃e = F.path_eq⦄ path (Assoc.remove ⦃e = F.path_eq⦄ path files) ≡ []
  unfolding known
  known-remove path files =
      rw
        (
          known,
          Assoc.get-remove ⦃e = F.path_eq⦄ path path files,
          (F.path_eq.same_iff path path).1 refl,
        )
        refl

  module _ (path : F.FilePath) where
    -- The active claims under the file's own keys are those of these symbols.
    unfoldable pub Claimed : List Symbol → SymbolWatcher F → Type 0
    Claimed symbols w =
        (n : String)
        → is_active (make_resource_key (place F path).0 (place F path).1 n) w ≡ has_name n symbols

    -- A save of a readable file, whose remembered symbols are the claimed ones, remembers the symbols
    -- that the file now has and leaves claimed exactly these.
    pub handle_event-Claimed :
        (extract_symbols : String → String → List Symbol) (now : ℕ → ℕ) (extension source : String)
        (w : SymbolWatcher F)
        → F.read_to_string path ≡ some source
        → Claimed (known ⦃e = F.path_eq⦄ path w.memory) w
        → let after = handle_event F extract_symbols now path extension w in
          (known ⦃e = F.path_eq⦄ path after.memory ≡ extract_symbols extension source)
          × Claimed (extract_symbols extension source) after
    unfolding handle_event update Claimed
    handle_event-Claimed extract_symbols now extension source w r h =
        let symbols = extract_symbols extension source in
        let d = compute_diff (known ⦃e = F.path_eq⦄ path w.memory) symbols in
        rw (r, handle_event)
          (
            ap (known ⦃e = F.path_eq⦄ path)
                  (handle_diff-memory now (place F path).0 (place F path).1 d _)
                ∙ known-insert path symbols w.memory,
            λ n. handle_diff-is_active now (place F path).0 (place F path).1 n _ symbols _ (h n),
          )

    place_root :
        (root : F.FilePath)
        → find_repo_root F path ≡ some root
        → place F path ≡ (name_or_unknown F (some root), relative_repo_path F root path)
    unfolding place
    place_root root g = rw (g, place) refl

    -- When a save finds that a file of a repository is gone, and the remembered symbols of the file
    -- are the claimed ones, nothing of it is remembered or claimed any more.
    pub handle_event-deleted :
        (extract_symbols : String → String → List Symbol) (now : ℕ → ℕ) (extension : String)
        (root : F.FilePath) (w : SymbolWatcher F)
        → F.read_to_string path ≡ none
        → find_repo_root F path ≡ some root
        → Claimed (known ⦃e = F.path_eq⦄ path w.memory) w
        → let after = handle_event F extract_symbols now path extension w in
          (known ⦃e = F.path_eq⦄ path after.memory ≡ []) × Claimed [] after
    unfolding handle_event handle_deletion forget Claimed
    handle_event-deleted extract_symbols now extension root w r g h =
        let prior = known ⦃e = F.path_eq⦄ path w.memory in
        let claimed =
          subst (λ q. (n : String) → is_active (make_resource_key q.0 q.1 n) w ≡ has_name n prior)
            (place_root root g) h in
        rw (r, place_root root g, g, handle_event)
          (elim (Bool-cases (is_nil prior)) [
            | inl e ↦ rw e (known-remove path w.memory, λ n. claimed n ∙ nil_has_name n prior e)
            | inr e ↦ rw e (
              ap (known ⦃e = F.path_eq⦄ path) (release_all-memory prior _ _ _ _)
                  ∙ known-remove path w.memory,
              λ n. release_all-is_active _ _ n prior _ _ ∙ rw (claimed n) (ground arith),
            )
          ])
