-- ===== src/SymbolWatcher/Roots.antt =====
-- The search for the repository of a file, src/symbol_watcher/mod.rs.
use qontinui_supervisor.Prelude.{
  ℕ, zero, suc, ◌<◌, ◌≡◌, refl, ◌⊎◌, inl, inr, arith, true, false, Option, none, some, Bool-cases,
  Option-cases,
}
use qontinui_supervisor.SymbolWatcher.Events.{FileSystem, find_up, find_repo_root}

module _ (F : FileSystem) where
  open F use {FilePath, parent, depth, has_git, depth-parent}

  -- `Nearest p r`: going up from `p`, the first directory with a `.git` is `r`.
  pub data Nearest : FilePath → FilePath → Type 0 where
    here : {p : FilePath} → has_git p ≡ true → Nearest p p
    above : {p q r : FilePath} → has_git p ≡ false → parent p ≡ some q → Nearest q r → Nearest p r

  -- `Bare p`: neither `p` nor any directory above it has a `.git`.
  pub data Bare : FilePath → Type 0 where
    at_top : {p : FilePath} → has_git p ≡ false → parent p ≡ none → Bare p
    below : {p q : FilePath} → has_git p ≡ false → parent p ≡ some q → Bare q → Bare p

  abbrev Searched : FilePath → Option FilePath → Type 0
  Searched p none = Bare p
  Searched p (some r) = Nearest p r

  climb :
      (p q : FilePath) (o : Option FilePath)
      → has_git p ≡ false
      → parent p ≡ some q
      → Searched q o
      → Searched p o
  climb p q none e up h = below e up h
  climb p q (some r) e up h = above e up h

  find_up-Searched : (fuel : ℕ) (p : FilePath) → depth p < fuel → Searched p (find_up F fuel p)
  unfolding find_up
  find_up-Searched zero p h = absurd (omega arith)
  find_up-Searched (suc fuel) p h = elim (Bool-cases (has_git p)) [
    | inl e ↦ rw e (here e)
    | inr e ↦ elim (Option-cases (parent p)) [
      | inl top ↦ rw (e, top) (at_top e top)
      | inr (q, up) ↦
          rw (e, up)
            (climb p q _ e up (find_up-Searched fuel q (omega (arith, h, depth-parent p q up))))
    ]
  ]

  found :
      {p : FilePath} (o : Option FilePath)
      → Searched p o
      → ((r : FilePath) × (o ≡ some r) × Nearest p r) ⊎ ((o ≡ none) × Bare p)
  found none h = inr (refl, h)
  found (some r) h = inl (r, refl, h)

  -- The search ends: it gives the nearest directory with a `.git`, starting at the path itself, or
  -- nothing if there is none up to the root.
  pub find_repo_root_lem :
      (p : FilePath)
      → ((r : FilePath) × (find_repo_root F p ≡ some r) × Nearest p r)
        ⊎ ((find_repo_root F p ≡ none) × Bare p)
  unfolding find_repo_root
  find_repo_root_lem p = found _ (find_up-Searched (suc (depth p)) p (omega arith))
