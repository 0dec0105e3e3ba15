-- ===== src/Submission/Store.antt =====
-- `BuildSubmissionStore` of src/build_submissions.rs. Every submission lies in a cell of its own (an
-- `Arc<RwLock<…>>`), which its task holds on to after the map has dropped it. The cells are addressed
-- by the submission's id, since each id is fresh and gets one cell. `submissions` lists the keys of
-- the map in some order of iteration.
use qontinui_supervisor.Prelude.{
  ℕ, ◌+◌, ◌-◌, Bool, true, false, Option, none, some, List, [], ◌∷◌, map, ltb, leb, eqb,
  if◌then◌else◌, length,
}
use qontinui_supervisor.Prelude.Sort.{sort_by_key}
use qontinui_supervisor.Submission.{BuildSubmission, is_terminal}

pub record Store (Value : Type 0) : Type 0 where
  pub cells : ℕ → Option (BuildSubmission Value)
  pub submissions : List ℕ
  pub size_cap : ℕ

pub record Candidate : Type 0 where
  pub id : ℕ
  pub submitted_at : ℕ
  pub is_term : Bool

-- `map.remove(&k)`
unfoldable pub remove_key : ℕ → List ℕ → List ℕ
remove_key k [] = []
remove_key k (j ∷ ks) = let rest = remove_key k ks in if eqb j k then rest else j ∷ rest

-- The loop over the candidates, oldest first.
unfoldable pub evict : ℕ → ℕ → List Candidate → List ℕ → List ℕ
unfolding remove_key
evict to_remove removed [] keys = keys
evict to_remove removed (c ∷ cs) keys =
    let rest =
      evict to_remove (if c.is_term then removed + 1 else removed) cs
        (if c.is_term then remove_key c.id keys else keys) in
    if leb to_remove removed then keys else rest

unfoldable pub has_key : ℕ → List ℕ → Bool
has_key k [] = false
has_key k (j ∷ ks) = let rest = has_key k ks in if eqb j k then true else rest

-- `map.insert(id, arc)`: the key is there afterwards, once.
unfoldable pub add_key : ℕ → List ℕ → List ℕ
unfolding has_key
add_key k keys = if has_key k keys then keys else k ∷ keys

module _ {Value : Type 0} where
  unfoldable pub new : ℕ → Store Value
  new size_cap = record {
    cells = λ k. none;
    submissions = [];
    size_cap = if ltb size_cap 16 then 16 else size_cap;
  }

  -- The write of one cell.
  abbrev pub write_cell : ℕ → BuildSubmission Value → Store Value → Store Value
  write_cell k sub s = record s { cells = λ j. if eqb k j then some sub else s.cells j }

  abbrev pub submitted_at : (ℕ → Option (BuildSubmission Value)) → ℕ → ℕ
  submitted_at cells k = elim (cells k) [ none ↦ 0 | some sub ↦ sub.submitted_at ]

  abbrev pub in_terminal : (ℕ → Option (BuildSubmission Value)) → ℕ → Bool
  in_terminal cells k = elim (cells k) [ none ↦ false | some sub ↦ is_terminal sub.status ]

  unfoldable pub candidate : (ℕ → Option (BuildSubmission Value)) → ℕ → Candidate
  unfolding is_terminal
  candidate cells k = record {
    id = k;
    submitted_at = submitted_at cells k;
    is_term = in_terminal cells k;
  }

  unfoldable pub enforce_cap : Store Value → Store Value
  unfolding candidate evict
  enforce_cap s =
      if ltb s.size_cap (length s.submissions)
      then record s {
        submissions =
            evict (length s.submissions - s.size_cap) 0
              (sort_by_key (λ c. c.submitted_at) (map (candidate s.cells) s.submissions))
              s.submissions;
      }
      else s

  -- `map.insert(id, arc)` of a cell that is there already.
  unfoldable pub register : ℕ → Store Value → Store Value
  unfolding add_key
  register k s = record s { submissions = add_key k s.submissions }

  -- `BuildSubmissionStore::insert`
  unfoldable pub insert : BuildSubmission Value → Store Value → Store Value
  unfolding register enforce_cap
  insert sub s = enforce_cap (register sub.id (write_cell sub.id sub s))

  -- `BuildSubmissionStore::get`, with what the cell holds then.
  unfoldable pub get : ℕ → Store Value → Option (BuildSubmission Value)
  unfolding has_key
  get k s = if has_key k s.submissions then s.cells k else none
