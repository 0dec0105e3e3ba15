-- ===== src/Prelude/Assoc.antt =====
-- A hash map as a list of entries in some order of iteration. A key that is inserted again keeps
-- its place, as the order of a hash map is not specified.
use Prim.Native.Nat.{suc, ◌≤◌}
use mathlib.Core.Path.{◌≡◌, refl, sym, ap}
use mathlib.Core.Logic.{◌⊎◌, inl, inr}
use mathlib.Core.Bool.{true, false}
use mathlib.Core.Option.{Option, none, some}
use mathlib.Core.List.{List, [], ◌∷◌}
use native.Mathlib.Omega.{arith}
use qontinui_supervisor.Prelude.Tests.{PartialEq, ◌==◌, Bool-cases, Option-cases, if◌then◌else◌}
use qontinui_supervisor.Prelude.Lists.{length, In, Distinct}

module _ {ℓ} {K : Type 0} {V : Type ℓ} where
  abbrev pub keys : List (K × V) → List K
  keys [] = []
  keys ((j, v) ∷ m) = j ∷ keys m

module _ {ℓ} {K : Type 0} {V : Type ℓ} ⦃e : PartialEq K⦄ where
  unfoldable pub get : K → List (K × V) → Option V
  get k [] = none
  get k ((j, v) ∷ m) = if j == k then some v else get k m

  unfoldable pub insert : K → V → List (K × V) → List (K × V)
  insert k v [] = (k, v) ∷ []
  insert k v ((j, w) ∷ m) = if j == k then (k, v) ∷ m else (j, w) ∷ insert k v m

  unfoldable pub remove : K → List (K × V) → List (K × V)
  remove k [] = []
  remove k ((j, w) ∷ m) = let rest = remove k m in if j == k then rest else (j, w) ∷ rest

  pub get-insert :
      (k j : K) (v : V) (m : List (K × V))
      → get j (insert k v m) ≡ (if k == j then some v else get j m)
  unfolding get insert
  get-insert k j v [] = refl
  get-insert k j v ((i, w) ∷ m) =
      ground (arith, e.same_iff k j, e.same_iff i k, e.same_iff i j, get-insert k j v m)

  pub get-remove :
      (k j : K) (m : List (K × V)) → get j (remove k m) ≡ (if k == j then none else get j m)
  unfolding get remove
  get-remove k j [] = ground arith
  get-remove k j ((i, w) ∷ m) =
      ground (arith, e.same_iff k j, e.same_iff i k, e.same_iff i j, get-remove k j m)

  pub In-insert :
      (k j : K) (v : V) (m : List (K × V)) → In j (keys (insert k v m)) → (j ≡ k) ⊎ In j (keys m)
  unfolding insert
  In-insert k j v [] h = ground arith
  In-insert k j v ((i, w) ∷ m) h = ground (arith, e.same_iff i k, In-insert k j v m)

  pub In-remove : (k j : K) (m : List (K × V)) → In j (keys (remove k m)) → In j (keys m)
  unfolding remove
  In-remove k j [] h = h
  In-remove k j ((i, w) ∷ m) h = ground (arith, In-remove k j m)

  pub insert-Distinct :
      (k : K) (v : V) (m : List (K × V)) → Distinct (keys m) → Distinct (keys (insert k v m))
  unfolding insert
  insert-Distinct k v [] d = ground arith
  insert-Distinct k v ((i, w) ∷ m) d = elim (Bool-cases (i == k)) [
    | inl same ↦ rw same ((λ h. d.0 (rw ((e.same_iff i k).0 same) h)), d.1)
    | inr other ↦
        rw other ((λ h. fresh_after other (In-insert k i v m h)), insert-Distinct k v m d.1)
  ]
    where
      fresh_after : (i == k) ≡ false → (i ≡ k) ⊎ In i (keys m) → ⊥
      fresh_after other (inl here) = cc ((e.same_iff i k).1 here)
      fresh_after other (inr later) = d.0 later

  pub remove-Distinct :
      (k : K) (m : List (K × V)) → Distinct (keys m) → Distinct (keys (remove k m))
  unfolding remove
  remove-Distinct k [] d = d
  remove-Distinct k ((i, w) ∷ m) d = elim (Bool-cases (i == k)) [
    | inl same ↦ rw same (remove-Distinct k m d.1)
    | inr other ↦ rw other ((λ h. d.0 (In-remove k i m h)), remove-Distinct k m d.1)
  ]

  pub get-In : (k : K) (v : V) (m : List (K × V)) → get k m ≡ some v → In k (keys m)
  unfolding get
  get-In k v [] h = ground arith
  get-In k v ((i, w) ∷ m) h = ground (arith, e.same_iff i k, get-In k v m)

  pub length-remove-le : (k : K) (m : List (K × V)) → length (remove k m) ≤ length m
  unfolding remove
  length-remove-le k [] = omega arith
  length-remove-le k ((i, w) ∷ m) = ground (arith, length-remove-le k m)

  pub remove_absent : (k : K) (m : List (K × V)) → (In k (keys m) → ⊥) → remove k m ≡ m
  unfolding remove
  remove_absent k [] h = refl
  remove_absent k ((i, w) ∷ m) h =
      ground (arith, e.same_iff i k, remove_absent k m (λ later. h (inr later)))

  -- With distinct keys, removing one that is there drops exactly one entry.
  pub length-remove :
      (k : K) (m : List (K × V))
      → Distinct (keys m)
      → In k (keys m)
      → suc (length (remove k m)) ≡ length m
  unfolding remove
  length-remove k [] d h = ground arith
  length-remove k ((i, w) ∷ m) d h = elim (Bool-cases (i == k)) [
    | inl same ↦ rw same (ap (λ l. suc (length l)) (remove_absent k m (λ later. absent same later)))
    | inr other ↦ rw other (ap suc (length-remove k m d.1 (in_tail other h)))
  ]
    where
      absent : (i == k) ≡ true → In k (keys m) → ⊥
      absent same later = d.0 (rw ((e.same_iff i k).0 same) later)

      in_tail : (i == k) ≡ false → (k ≡ i) ⊎ In k (keys m) → In k (keys m)
      in_tail other (inl here) = absurd (cc ((e.same_iff i k).1 (sym here)))
      in_tail other (inr later) = later

  pub get_absent : (k : K) (m : List (K × V)) → (In k (keys m) → ⊥) → get k m ≡ none
  get_absent k m h = elim (Option-cases (get k m)) [
    | inl e ↦ e
    | inr (v, e) ↦ absurd (h (get-In k v m e))
  ]

  pub get-insert_self : (k : K) (v : V) (m : List (K × V)) → get k (insert k v m) ≡ some v
  get-insert_self k v m = rw (get-insert k k v m, (e.same_iff k k).1 refl)
