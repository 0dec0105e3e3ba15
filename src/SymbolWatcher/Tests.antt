-- ===== src/SymbolWatcher/Tests.antt =====
-- Runs of the model of src/symbol_watcher/ on a concrete tree of files.
use qontinui_supervisor.Prelude.{
  ℕ, zero, suc, ◌<◌, ◌≡◌, refl, String, Option, none, some, List, [], ◌∷◌, arith, nat_eq, string_eq,
  eqb, if◌then◌else◌,
}
use qontinui_supervisor.Prelude.Assoc
use qontinui_supervisor.SymbolWatcher.{Symbol, has_name, known}
use qontinui_supervisor.SymbolWatcher.Events.{
  FileSystem, resource_key, make_resource_key, SymbolWatcher, place, handle_event, find_repo_root,
}
use qontinui_supervisor.SymbolWatcher.Claims.{Claimed, key_of_name, handle_event-Claimed}
use qontinui_supervisor.SymbolWatcher.Sweep.{WellKeyed}

-- A chain of directories: 0 is the root, 1 a repository, 2 a file in it, 3 a file that is gone.
abbrev parent : ℕ → Option ℕ
parent zero = none
parent (suc n) = if eqb n 2 then some 1 else some n

abbrev name_of : ℕ → Option String
name_of n = if eqb n 1 then some "repo" else some "a.rs"

depth-parent : (p q : ℕ) → parent p ≡ some q → q < p
depth-parent zero q h = ground (arith, h)
depth-parent (suc n) q h = ground (arith, h)

abbrev files : FileSystem
files = record {
  FilePath = ℕ;
  path_eq = nat_eq;
  parent = parent;
  depth = λ n. n;
  file_name = name_of;
  lossy_name = name_of;
  has_git = λ n. eqb n 1;
  strip_prefix = λ r n. some n;
  with_slashes = λ n. "a.rs";
  read_to_string = λ n. if eqb n 2 then some "fn f" else none;
  depth-parent = depth-parent;
}

abbrev symbol : String → ℕ → Symbol
symbol name start_line = record { name = name; start_line = start_line; end_line = 9 }

abbrev extract : String → String → List Symbol
extract extension source = symbol "f" 3 ∷ []

abbrev idle : SymbolWatcher files
idle = record { idle_ttl = 300; machine_id = "m"; memory = []; active = []; requests = [] }

nothing-Claimed : (path : ℕ) → Claimed files path (known ⦃e = nat_eq⦄ path idle.memory) idle
unfolding Claimed known has_name Assoc.get
nothing-Claimed path n = refl

handle_event-Claimed_example :
    let after = handle_event files extract (λ i. i) 2 "rs" idle in
    (known ⦃e = nat_eq⦄ 2 after.memory ≡ symbol "f" 3 ∷ [])
    × Claimed files 2 (symbol "f" 3 ∷ []) after
handle_event-Claimed_example =
    handle_event-Claimed files 2 extract (λ i. i) "rs" "fn f" idle refl (nothing-Claimed 2)

in_repo : find_repo_root files 3 ≡ some 1
unfolding find_repo_root
in_repo = refl

abbrev saved : SymbolWatcher files
saved = record idle {
  memory = (3, symbol "g" 1 ∷ []) ∷ [];
  active =
      (
        "repo:a.rs:g",
        record { repo = "repo"; rel_file = "a.rs"; symbol_name = "g"; last_acquired_at = 50 },
      )
      ∷ [];
}

g-Claimed : Claimed files 3 (known ⦃e = nat_eq⦄ 3 saved.memory) saved
unfolding Claimed known has_name Assoc.get place make_resource_key
g-Claimed n = ground (arith, key_of_name "repo" "a.rs" "g" n)

well_keyed : WellKeyed saved.active
unfolding resource_key
well_keyed = ((λ h. h), refl, tt)
