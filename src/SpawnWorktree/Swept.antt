-- ===== src/SpawnWorktree/Swept.antt =====
-- Which directories a sweep removes and which it keeps (src/spawn_worktree.rs).
use text.Mathlib.Text.{starts_with}
use qontinui_supervisor.Prelude.{
  ℕ, ◌≡◌, map, keep_if, String, Bool, true, false, not, Option, none, some, List, [], ◌∷◌, ◌&&◌,
  ◌||◌, leb, All,
}
use qontinui_supervisor.SpawnWorktree.{
  Removal, fails, Entry, spawn_dir_prefix, retention, double_retention, dir_age, Fate, ignored,
  removed, kept, failed, PruneReport, container_has_dirty_worktree,
}

-- A directory with the prefix of the supervisor.
abbrev pub named : Option String → Bool
named none = false
named (some name) = starts_with name spawn_dir_prefix

abbrev pub ours : Entry → Bool
ours e = named e.file_name && e.is_dir

module _ (is_blank : String → Bool) (is_active : String → Bool) (hours now : ℕ) where
  abbrev pub active : Option String → Bool
  active none = false
  active (some name) = is_active name

  -- No build is in it, and it has aged past the window, or past twice the window if it is dirty.
  abbrev pub expired : Option ℕ → Bool → Bool
  expired none dirty = false
  expired (some age) dirty =
      leb (retention hours) age && (not dirty || leb (double_retention hours) age)

  abbrev pub may_remove : Entry → Bool
  may_remove e =
      ours e
      && (not (active e.file_name)
          && expired (dir_age now e.mtime) (container_has_dirty_worktree is_blank e))

  -- The removal of the directory is refused.
  abbrev pub refuses : Removal → Bool
  refuses (fails why) = true
  refuses _ = false

  abbrev pub Justified : Entry → Fate → Type 0
  Justified e ignored = ours e ≡ false
  Justified e (kept why) = (ours e ≡ true) × (may_remove e ≡ false)
  Justified e removed = (may_remove e ≡ true) × (refuses e.removal ≡ false)
  Justified e (failed why) = (may_remove e ≡ true) × (e.removal ≡ fails why)

  -- The entries that the sweep reads: up to the first error of the listing.
  abbrev pub readable : List (Option Entry) → List Entry
  readable [] = []
  readable (none ∷ entries) = []
  readable (some e ∷ entries) = e ∷ readable entries

  -- The entries of each list of the report, in the order of the listing.
  pub record Swept (entries : List (Option Entry)) (r : PruneReport) : Type 0 where
    pub removed :
        r.removed ≡ keep_if (λ e. may_remove e && not (refuses e.removal)) (readable entries)
    pub failed :
        map (λ f. f.0) r.failed
        ≡ keep_if (λ e. may_remove e && refuses e.removal) (readable entries)
    pub kept :
        map (λ k. k.0) r.kept ≡ keep_if (λ e. ours e && not (may_remove e)) (readable entries)
    pub reasons : All (λ f. f.0.removal ≡ fails f.1) r.failed

abbrev pub entries_of : Option (Option (List (Option Entry))) → List (Option Entry)
entries_of none = []
entries_of (some none) = []
entries_of (some (some entries)) = entries
