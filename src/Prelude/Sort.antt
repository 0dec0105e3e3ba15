-- ===== src/Prelude/Sort.antt =====
-- `sort_by_key` of the standard library: a stable sort by a number.
use Prim.Native.Nat.{ℕ, ◌≤◌}
use mathlib.Core.Path.{◌≡◌, refl, sym}
use mathlib.Core.Logic.{◌⊎◌, inl, inr, ◌↔◌}
use mathlib.Core.Bool.{Bool}
use mathlib.Core.List.{List, [], ◌∷◌, map}
use native.Mathlib.Omega.{arith}
use qontinui_supervisor.Prelude.Tests.{leb, if◌then◌else◌, Bool-cases}
use qontinui_supervisor.Prelude.Lists.{count_if, In, All, Distinct}

module _ {A : Type 0} (key : A → ℕ) where
  unfoldable pub place : A → List A → List A
  place x [] = x ∷ []
  place x (y ∷ ys) = let rest = place x ys in if leb (key x) (key y) then x ∷ y ∷ ys else y ∷ rest

  unfoldable pub sort_by_key : List A → List A
  unfolding place
  sort_by_key [] = []
  sort_by_key (x ∷ xs) = place x (sort_by_key xs)

  -- Every item has a key that is at most those behind it.
  abbrev pub Sorted : List A → Type 0
  Sorted [] = Unit
  Sorted (x ∷ xs) = All (λ y. key x ≤ key y) xs × Sorted xs

  place-count : (p : A → Bool) (x : A) (ys : List A) → count_if p (place x ys) ≡ count_if p (x ∷ ys)
  unfolding place
  place-count p x [] = refl
  place-count p x (y ∷ ys) = ground (arith, place-count p x ys)

  -- The items are the same, each as often.
  pub sort_by_key-count : (p : A → Bool) (xs : List A) → count_if p (sort_by_key xs) ≡ count_if p xs
  unfolding sort_by_key
  sort_by_key-count p [] = refl
  sort_by_key-count p (x ∷ xs) =
      ground (arith, place-count p x (sort_by_key xs), sort_by_key-count p xs)

  place-All : (P : A → Type 0) (x : A) (ys : List A) → P x → All P ys → All P (place x ys)
  unfolding place
  place-All P x [] px h = ground arith
  place-All P x (y ∷ ys) px h = ground (arith, place-All P x ys px h.1)

  pub sort_by_key-All : (P : A → Type 0) (xs : List A) → All P xs → All P (sort_by_key xs)
  unfolding sort_by_key
  sort_by_key-All P [] h = tt
  sort_by_key-All P (x ∷ xs) h = place-All P x (sort_by_key xs) h.0 (sort_by_key-All P xs h.1)

  All-above : (n m : ℕ) (ys : List A) → n ≤ m → All (λ y. m ≤ key y) ys → All (λ y. n ≤ key y) ys
  All-above n m [] h a = a
  All-above n m (y ∷ ys) h a = (omega arith, All-above n m ys h a.1)

  place-Sorted : (x : A) (ys : List A) → Sorted ys → Sorted (place x ys)
  unfolding place
  place-Sorted x [] s = ground arith
  place-Sorted x (y ∷ ys) s = ground (
    arith,
    place-Sorted x ys s.1,
    All-above (key x) (key y) ys,
    place-All (λ z. key y ≤ key z) x ys,
  )

  pub sort_by_key-Sorted : (xs : List A) → Sorted (sort_by_key xs)
  unfolding sort_by_key
  sort_by_key-Sorted [] = tt
  sort_by_key-Sorted (x ∷ xs) = place-Sorted x (sort_by_key xs) (sort_by_key-Sorted xs)

-- Sorting keeps the names of the items, and their being distinct.
module _ {A B : Type 0} (key : A → ℕ) (name : A → B) where
  place-In :
      (b : B) (x : A) (ys : List A)
      → In b (map name (place key x ys))
      → (b ≡ name x) ⊎ In b (map name ys)
  unfolding place
  place-In b x [] h = h
  place-In b x (y ∷ ys) h = ground (arith, place-In b x ys)

  In-place :
      (b : B) (x : A) (ys : List A)
      → (b ≡ name x) ⊎ In b (map name ys)
      → In b (map name (place key x ys))
  unfolding place
  In-place b x [] h = h
  In-place b x (y ∷ ys) h = ground (arith, In-place b x ys)

  pub sort_by_key-In :
      (b : B) (xs : List A) → In b (map name (sort_by_key key xs)) ↔ In b (map name xs)
  unfolding sort_by_key
  sort_by_key-In b [] = (λ h. h, λ h. h)
  sort_by_key-In b (x ∷ xs) = both (sort_by_key-In b xs)
    where
      both :
          (In b (map name (sort_by_key key xs)) ↔ In b (map name xs))
          → In b (map name (place key x (sort_by_key key xs))) ↔ In b (map name (x ∷ xs))
      both (into, onto) = (
        λ h. elim (place-In b x (sort_by_key key xs) h) [ inl e ↦ inl e | inr l ↦ inr (into l) ],
        λ h. In-place b x (sort_by_key key xs) (elim h [ inl e ↦ inl e | inr l ↦ inr (onto l) ]),
      )

  place-Distinct :
      (x : A) (ys : List A) → Distinct (name x ∷ map name ys) → Distinct (map name (place key x ys))
  unfolding place
  place-Distinct x [] d = d
  place-Distinct x (y ∷ ys) d = elim (Bool-cases (leb (key x) (key y))) [
    | inl e ↦ rw e d
    | inr e ↦ rw e (
      (λ h. elim (place-In (name y) x ys h) [ inl p ↦ d.0 (inl (sym p)) | inr l ↦ d.1.0 l ]),
      place-Distinct x ys ((λ h. d.0 (inr h)), d.1.1),
    )
  ]

  pub sort_by_key-Distinct :
      (xs : List A) → Distinct (map name xs) → Distinct (map name (sort_by_key key xs))
  unfolding sort_by_key
  sort_by_key-Distinct [] d = d
  sort_by_key-Distinct (x ∷ xs) d =
      place-Distinct x (sort_by_key key xs)
        ((λ h. d.0 ((sort_by_key-In (name x) xs).0 h)), sort_by_key-Distinct xs d.1)
