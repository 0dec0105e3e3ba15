-- ===== src/SymbolWatcher/Events.antt =====
-- The operations of the watcher: src/symbol_watcher/mod.rs and the requests of coord_client.rs.
-- The file system and the extraction of symbols by tree-sitter are parameters. A run collects the
-- requests that it makes; their outcomes are only logged by the code.
use qontinui_supervisor.Prelude.{
  ℕ, zero, suc, ◌-◌, ◌<◌, ◌≡◌, String, Bool, Option, none, some, List, [], ◌∷◌, ◌++◌, leb,
  if◌then◌else◌, PartialEq, string_eq, keep_if,
}
use Prim.Native.String.{◌++◌ as concat}
use qontinui_supervisor.Prelude.Assoc
use qontinui_supervisor.SymbolWatcher.{Symbol, SymbolDiff, is_empty, is_nil, update, forget}

-- What the watcher asks `std::path` and `std::fs`; `depth` counts the components of a path.
pub record FileSystem : Type 1 where
  pub FilePath : Type 0
  pub path_eq : PartialEq FilePath
  pub parent : FilePath → Option FilePath
  pub depth : FilePath → ℕ
  pub file_name : FilePath → Option String
  pub lossy_name : FilePath → Option String
  pub has_git : FilePath → Bool
  pub strip_prefix : FilePath → FilePath → Option FilePath
  pub with_slashes : FilePath → String
  pub read_to_string : FilePath → Option String
  pub depth-parent : (p q : FilePath) → parent p ≡ some q → depth q < depth p

pub data Metadata : Type 0 where
  placed : String → String → ℕ → ℕ → Metadata
  reasoned : String → String → String → Metadata

pub record ClaimRequestWire : Type 0 where
  pub kind : String
  pub resource_key : String
  pub machine_id : String
  pub ttl_seconds : Option ℕ
  pub metadata : Metadata

abbrev pub symbol_claim_ttl_seconds : ℕ
symbol_claim_ttl_seconds = 300

unfoldable pub for_symbol : String → String → Metadata → ClaimRequestWire
for_symbol machine_id resource_key metadata = record {
  kind = "symbol";
  resource_key = resource_key;
  machine_id = machine_id;
  ttl_seconds = some symbol_claim_ttl_seconds;
  metadata = metadata;
}

unfoldable pub make_resource_key : String → String → String → String
make_resource_key repo rel_file symbol =
    concat (concat (concat (concat repo ":") rel_file) ":") symbol

pub record ActiveClaim : Type 0 where
  pub repo : String
  pub rel_file : String
  pub symbol_name : String
  pub last_acquired_at : ℕ

unfoldable pub resource_key : ActiveClaim → String
unfolding make_resource_key
resource_key c = make_resource_key c.repo c.rel_file c.symbol_name

pub data Request : Type 0 where
  acquire release : ClaimRequestWire → Request

module _ (F : FileSystem) where
  open F use {
    FilePath, path_eq, parent, depth, file_name, lossy_name, has_git, strip_prefix, with_slashes,
    read_to_string,
  }

  unfoldable pub find_up : ℕ → FilePath → Option FilePath
  find_up zero cursor = none
  find_up (suc fuel) cursor =
      if has_git cursor
      then some cursor
      else elim (parent cursor) [ none ↦ none | some up ↦ find_up fuel up ]

  -- One step for each component of the path, and one for the root.
  unfoldable pub find_repo_root : FilePath → Option FilePath
  unfolding find_up
  find_repo_root start = find_up (suc (depth start)) start

  unfoldable pub relative_repo_path : FilePath → FilePath → String
  relative_repo_path root file = elim (strip_prefix root file) [
    | none ↦ with_slashes file
    | some rel ↦ with_slashes rel
  ]

  unfoldable pub name_or_unknown : Option FilePath → String
  name_or_unknown none = "unknown-repo"
  name_or_unknown (some p) = elim (file_name p) [ none ↦ "unknown-repo" | some name ↦ name ]

  -- The repository and the file's path in it, also for a file outside any repository.
  unfoldable pub place : FilePath → String × String
  unfolding find_repo_root relative_repo_path name_or_unknown
  place path = elim (find_repo_root path) [
    | some root ↦ (name_or_unknown (some root), relative_repo_path root path)
    | none ↦ (name_or_unknown (parent path), elim (lossy_name path) [ none ↦ "" | some f ↦ f ])
  ]

  pub record SymbolWatcher : Type 0 where
    pub idle_ttl : ℕ
    pub machine_id : String
    pub memory : List (FilePath × List Symbol)
    pub active : List (String × ActiveClaim)
    pub requests : List Request

  -- `now i` is the instant when the i-th claim of the loop is entered.
  unfoldable pub acquire_all :
      (ℕ → ℕ) → ℕ → String → String → List Symbol → SymbolWatcher → SymbolWatcher
  unfolding make_resource_key for_symbol
  acquire_all now i repo rel_file [] w = w
  acquire_all now i repo rel_file (sym ∷ symbols) w =
      let key = make_resource_key repo rel_file sym.name in
      acquire_all now (suc i) repo rel_file symbols (record w {
        active =
            Assoc.insert key
              (record {
                repo = repo;
                rel_file = rel_file;
                symbol_name = sym.name;
                last_acquired_at = now i;
              })
              w.active;
        requests =
            w.requests
            ++ acquire
                (for_symbol w.machine_id key (placed rel_file repo sym.start_line sym.end_line))
              ∷ [];
      })

  unfoldable pub release_all :
      (Symbol → Metadata) → String → String → List Symbol → SymbolWatcher → SymbolWatcher
  unfolding make_resource_key for_symbol
  release_all metadata repo rel_file [] w = w
  release_all metadata repo rel_file (sym ∷ symbols) w =
      let key = make_resource_key repo rel_file sym.name in
      release_all metadata repo rel_file symbols (record w {
        active = Assoc.remove key w.active;
        requests = w.requests ++ release (for_symbol w.machine_id key (metadata sym)) ∷ [];
      })

  unfoldable pub handle_deletion : FilePath → SymbolWatcher → SymbolWatcher
  unfolding forget find_repo_root relative_repo_path name_or_unknown release_all
  handle_deletion path w =
      let f = forget ⦃e = path_eq⦄ path w.memory in
      let v = record w { memory = f.1 } in
      if is_nil f.0 then v else elim (find_repo_root path) [
        | none ↦ v
        | some root ↦
            let repo = name_or_unknown (some root) in
            let rel_file = relative_repo_path root path in
            release_all (λ sym. reasoned rel_file repo "file_deleted") repo rel_file f.0 v
      ]

  unfoldable pub handle_diff :
      (ℕ → ℕ) → String → String → SymbolDiff → SymbolWatcher → SymbolWatcher
  unfolding is_empty acquire_all release_all
  handle_diff now repo rel_file diff w =
      if is_empty diff
      then w
      else release_all (λ sym. placed rel_file repo sym.start_line sym.end_line) repo rel_file
          diff.removed (acquire_all now 0 repo rel_file (diff.added ++ diff.modified) w)

  -- A save of the file at `path` with this extension.
  unfoldable pub handle_event :
      (String → String → List Symbol) → (ℕ → ℕ) → FilePath → String → SymbolWatcher → SymbolWatcher
  unfolding handle_deletion handle_diff update place
  handle_event extract_symbols now path extension w = elim (read_to_string path) [
    | none ↦ handle_deletion path w
    | some source ↦
        let p = place path in
        let u = update ⦃e = path_eq⦄ path (extract_symbols extension source) w.memory in
        handle_diff now p.0 p.1 u.0 (record w { memory = u.1 })
  ]

  abbrev pub values : List (String × ActiveClaim) → List ActiveClaim
  values [] = []
  values ((key, claim) ∷ active) = claim ∷ values active

  -- The first, locked part of `sweep_idle`.
  unfoldable pub stale_claims : ℕ → SymbolWatcher → List ActiveClaim
  stale_claims now w = keep_if (λ c. leb w.idle_ttl (now - c.last_acquired_at)) (values w.active)

  unfoldable pub release_claims : List ActiveClaim → SymbolWatcher → SymbolWatcher
  unfolding resource_key for_symbol
  release_claims [] w = w
  release_claims (claim ∷ stale) w =
      let key = resource_key claim in
      release_claims stale (record w {
        active = Assoc.remove key w.active;
        requests =
            w.requests
            ++ release (
                for_symbol w.machine_id key (reasoned claim.rel_file claim.repo "idle_ttl_expired"))
              ∷ [];
      })

  unfoldable pub sweep_idle : ℕ → SymbolWatcher → SymbolWatcher
  unfolding stale_claims release_claims
  sweep_idle now w = release_claims (stale_claims now w) w
