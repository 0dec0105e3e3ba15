-- ===== src/Prelude/Ring.antt =====
-- A bounded queue that drops its oldest item when it is full, as the buffers of the program do.
use Prim.Native.Nat.{ℕ, zero, suc, ◌+◌, ◌-◌, ◌≤◌, ◌<◌}
use mathlib.Core.Path.{◌≡◌, refl, sym, ap, ◌∙◌}
use mathlib.Core.Logic.{inl, inr}
use mathlib.Core.List.{List, [], ◌∷◌, ◌++◌, append_assoc, append-nil}
use native.Mathlib.Omega.{arith}
use qontinui_supervisor.Prelude.Tests.{leb, if◌then◌else◌, Bool-cases, leb→le, leb→lt}
use qontinui_supervisor.Prelude.Lists.{length, drop, length-append}

module _ {ℓ} {A : Type ℓ} where
  -- `if buf.len() >= size { buf.pop_front(); } buf.push_back(x)`
  unfoldable pub push_bounded : ℕ → A → List A → List A
  push_bounded size x buf = (if leb size (length buf) then drop 1 buf else buf) ++ x ∷ []

  unfoldable pub push_all : ℕ → List A → List A → List A
  unfolding push_bounded
  push_all size [] buf = buf
  push_all size (x ∷ xs) buf = push_all size xs (push_bounded size x buf)

  -- The last `n` items, or all if there are fewer.
  abbrev pub last_n : ℕ → List A → List A
  last_n n xs = drop (length xs - n) xs

  pub length-drop : (n : ℕ) (xs : List A) → length (drop n xs) ≡ length xs - n
  length-drop zero xs = omega arith
  length-drop (suc n) [] = omega arith
  length-drop (suc n) (x ∷ xs) = omega (arith, length-drop n xs)

  drop_of_eq : {m n : ℕ} (xs : List A) → m ≡ n → drop m xs ≡ drop n xs
  drop_of_eq xs e = rw e

  drop-nil : (n : ℕ) → [] ≡ drop {A = A} n []
  drop-nil zero = refl
  drop-nil (suc n) = refl

  pub drop-append : (n : ℕ) (xs ys : List A) → n ≤ length xs → drop n (xs ++ ys) ≡ drop n xs ++ ys
  drop-append zero xs ys h = refl
  drop-append (suc n) [] ys h = absurd (omega arith)
  drop-append (suc n) (x ∷ xs) ys h = drop-append n xs ys (omega arith)

  pub drop-drop : (m n : ℕ) (xs : List A) → drop m (drop n xs) ≡ drop (n + m) xs
  drop-drop m zero xs = drop_of_eq xs (omega arith)
  drop-drop m (suc n) [] = sym (drop-nil m) ∙ drop-nil (suc n + m)
  drop-drop m (suc n) (x ∷ xs) =
      drop-drop m n xs ∙ drop_of_eq {m = suc (n + m)} {n = suc n + m} (x ∷ xs) (omega arith)

  pub length-last_n-le : (n : ℕ) (xs : List A) → length (last_n n xs) ≤ n
  length-last_n-le n xs = omega (arith, length-drop (length xs - n) xs)

  full_test :
      (size : ℕ) (seen : List A) → leb size (length (last_n size seen)) ≡ leb size (length seen)
  full_test size seen = ground (arith, length-drop (length seen - size) seen)

  pub push_bounded-last_n :
      (size : ℕ) (x : A) (seen : List A)
      → 0 < size
      → push_bounded size x (last_n size seen) ≡ last_n size (seen ++ x ∷ [])
  unfolding push_bounded
  push_bounded-last_n size x seen h =
      rw (full_test size seen) (elim (Bool-cases (leb size (length seen))) [
        | inl full ↦ rw full (
            ap (λ l. l ++ x ∷ [])
              (drop-drop 1 (length seen - size) seen
                ∙ drop_of_eq seen (omega (arith, leb→le _ _ full)))
            ∙ sym (drop-append (length seen + 1 - size) seen (x ∷ []) (omega arith))
            ∙ drop_of_eq (seen ++ x ∷ []) (omega (arith, length-append seen (x ∷ []))))
        | inr room ↦ rw room (
            sym (drop-append (length seen - size) seen (x ∷ []) (omega arith))
            ∙ drop_of_eq (seen ++ x ∷ [])
                (omega (arith, length-append seen (x ∷ []), leb→lt _ _ room)))
      ])

  push_all-last_n :
      (size : ℕ) (xs seen : List A)
      → 0 < size
      → push_all size xs (last_n size seen) ≡ last_n size (seen ++ xs)
  unfolding push_all
  push_all-last_n size [] seen h = rw append-nil
  push_all-last_n size (x ∷ xs) seen h =
      rw (
        push_bounded-last_n size x seen h,
        push_all-last_n size xs (seen ++ x ∷ []) h,
        append_assoc,
      )

  -- Pushing onto an empty queue keeps the last items that fit, in order.
  pub push_all-eq-last_n :
      (size : ℕ) (xs : List A) → 0 < size → push_all size xs [] ≡ last_n size xs
  push_all-eq-last_n size xs h =
      ap (push_all size xs) (drop-nil (0 - size)) ∙ push_all-last_n size xs [] h
