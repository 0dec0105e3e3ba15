-- ===== src/SymbolWatcher.antt =====
-- The symbol watcher (src/symbol_watcher/): it claims the symbols of each file that is saved and
-- releases the claims of those that are gone. This file is diff.rs; the operations of the watcher
-- are in Events.
pub mod Events
pub mod Diffs
pub mod Claims
pub mod Sweep
pub mod Roots
mod Tests
use qontinui_supervisor.Prelude.{
  ℕ, String, Bool, true, false, not, ◌&&◌, ◌||◌, Option, none, some, List, [], ◌∷◌, map, eqb,
  if◌then◌else◌, ◌==◌, PartialEq, string_eq, keep_if,
}
use qontinui_supervisor.Prelude.Assoc

pub record Symbol : Type 0 where
  pub name : String
  pub start_line : ℕ
  pub end_line : ℕ

pub record SymbolDiff : Type 0 where
  pub added : List Symbol
  pub modified : List Symbol
  pub removed : List Symbol

abbrev pub is_nil : {A : Type 0} → List A → Bool
is_nil [] = true
is_nil (x ∷ xs) = false

unfoldable pub is_empty : SymbolDiff → Bool
is_empty d = is_nil d.added && (is_nil d.modified && is_nil d.removed)

-- The symbols of that name are there: `HashSet::contains` on the set of their names.
unfoldable pub has_name : String → List Symbol → Bool
has_name n [] = false
has_name n (s ∷ symbols) = let rest = has_name n symbols in if s.name == n then true else rest

unfoldable pub same_name : String → List Symbol → Option Symbol
same_name n [] = none
same_name n (s ∷ symbols) = let rest = same_name n symbols in if s.name == n then some s else rest

unfoldable pub has_moved : Symbol → List Symbol → Bool
unfolding same_name
has_moved s prior = elim (same_name s.name prior) [
  | none ↦ false
  | some p ↦ not (eqb p.start_line s.start_line) || not (eqb p.end_line s.end_line)
]

unfoldable pub compute_diff : List Symbol → List Symbol → SymbolDiff
unfolding has_name has_moved
compute_diff prior current = record {
  added = keep_if (λ s. not (has_name s.name prior)) current;
  modified = keep_if (λ s. has_name s.name prior && has_moved s prior) current;
  removed = keep_if (λ s. not (has_name s.name current)) prior;
}

-- `SymbolMemory`, by the path of the file.
module _ {FilePath : Type 0} ⦃e : PartialEq FilePath⦄ where
  unfoldable pub known : FilePath → List (FilePath × List Symbol) → List Symbol
  known path files = elim (Assoc.get path files) [ none ↦ [] | some symbols ↦ symbols ]

  unfoldable pub update :
      FilePath
      → List Symbol
      → List (FilePath × List Symbol)
      → SymbolDiff × List (FilePath × List Symbol)
  unfolding known compute_diff
  update path symbols files =
      (compute_diff (known path files) symbols, Assoc.insert path symbols files)

  unfoldable pub forget :
      FilePath → List (FilePath × List Symbol) → List Symbol × List (FilePath × List Symbol)
  unfolding known
  forget path files = (known path files, Assoc.remove path files)
