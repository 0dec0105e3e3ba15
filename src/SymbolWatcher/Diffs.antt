-- ===== src/SymbolWatcher/Diffs.antt =====
-- What the diff of src/symbol_watcher/diff.rs holds.
use qontinui_supervisor.Prelude.{
  ◌≡◌, refl, String, ◌↔◌, Bool, true, false, not, ◌&&◌, List, [], ◌∷◌, arith, string_eq, keep_if,
  In,
}
use qontinui_supervisor.SymbolWatcher.{
  Symbol, has_name, same_name, has_moved, compute_diff, is_empty, is_nil,
}

module _ {A : Type 0} (p : A → Bool) where
  In-keep_if : (a : A) (xs : List A) → In a (keep_if p xs) ↔ (In a xs × (p a ≡ true))
  In-keep_if a [] = ground arith
  In-keep_if a (x ∷ xs) = ground (arith, In-keep_if a xs)

has_moved→has_name :
    (s : Symbol) (prior : List Symbol) → has_moved s prior ≡ true → has_name s.name prior ≡ true
unfolding has_moved has_name same_name
has_moved→has_name s [] h = ground arith
has_moved→has_name s (p ∷ prior) h = ground (arith, has_moved→has_name s prior)

-- The names of the symbols that pass a test on their names.
pub has_name-keep_if :
    (p : String → Bool) (n : String) (symbols : List Symbol)
    → has_name n (keep_if (λ s. p s.name) symbols) ≡ (has_name n symbols && p n)
unfolding has_name
has_name-keep_if p n [] = refl
has_name-keep_if p n (s ∷ symbols) =
    ground (arith, string_eq.same_iff s.name n, has_name-keep_if p n symbols)

not-true : (b : Bool) → (not b ≡ true) ↔ (b ≡ false)
not-true b = ground arith

-- A symbol of the file is added if its name was not there before, and modified if the first symbol of
-- its name stood elsewhere before; a symbol from before is removed if its name is gone.
pub compute_diff_iff :
    (prior current : List Symbol) (s : Symbol)
    → let d = compute_diff prior current in
      (In s d.added ↔ (In s current × (has_name s.name prior ≡ false)))
      × (In s d.modified ↔ (In s current × (has_moved s prior ≡ true)))
      × (In s d.removed ↔ (In s prior × (has_name s.name current ≡ false)))
unfolding compute_diff
compute_diff_iff prior current s =
    let a = In-keep_if (λ t. not (has_name t.name prior)) s current in
    let m = In-keep_if (λ t. has_name t.name prior && has_moved t prior) s current in
    let r = In-keep_if (λ t. not (has_name t.name current)) s prior in
    let n = has_moved→has_name s prior in
    (ground (arith, a), ground (arith, m, n), ground (arith, r))

pub nil_has_name :
    (n : String) (symbols : List Symbol) → is_nil symbols ≡ true → has_name n symbols ≡ false
unfolding has_name
nil_has_name n [] h = refl
nil_has_name n (s ∷ symbols) h = ground (arith, h)

module _ (p : String → Bool) (q : Symbol → Bool) (n : String) where
  has_name-keep_both :
      (symbols : List Symbol)
      → has_name n (keep_if (λ s. p s.name && q s) symbols) ≡ true
      → (has_name n symbols ≡ true) × (p n ≡ true)
  unfolding has_name
  has_name-keep_both [] h = ground (arith, h)
  has_name-keep_both (s ∷ symbols) h =
      ground (arith, h, string_eq.same_iff s.name n, has_name-keep_both symbols)

-- The names of the three lists.
pub has_name-added :
    (prior current : List Symbol) (n : String)
    → has_name n (compute_diff prior current).added ≡ (has_name n current && not (has_name n prior))
unfolding compute_diff
has_name-added prior current n = has_name-keep_if (λ m. not (has_name m prior)) n current

pub has_name-removed :
    (prior current : List Symbol) (n : String)
    → has_name n (compute_diff prior current).removed
      ≡ (has_name n prior && not (has_name n current))
unfolding compute_diff
has_name-removed prior current n = has_name-keep_if (λ m. not (has_name m current)) n prior

pub has_name-modified :
    (prior current : List Symbol) (n : String)
    → has_name n (compute_diff prior current).modified ≡ true
    → (has_name n current ≡ true) × (has_name n prior ≡ true)
unfolding compute_diff
has_name-modified prior current n =
    has_name-keep_both (λ m. has_name m prior) (λ s. has_moved s prior) n current

-- An empty diff means that the names are the same ones.
pub is_empty-names :
    (prior current : List Symbol) (n : String)
    → is_empty (compute_diff prior current) ≡ true
    → has_name n current ≡ has_name n prior
unfolding is_empty
is_empty-names prior current n h =
    let d = compute_diff prior current in
    ground (
      arith,
      h,
      nil_has_name n d.added,
      nil_has_name n d.removed,
      has_name-added prior current n,
      has_name-removed prior current n,
    )
