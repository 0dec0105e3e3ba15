-- ===== src/Binaries/Drift.antt =====
-- The slots whose provenance differs from that of the picked one (src/process/manager.rs,
-- `detect_slot_sha_drift`).
use qontinui_supervisor.Prelude.{
  ℕ, ◌≡◌, ◌≢◌, ap, suc, refl, sym, ◌∙◌, arith, Bool, true, false, not, Option, none, some, List, [],
  ◌∷◌, ◌&&◌, eqb, if◌then◌else◌, is_some, any_of, count_if, String,
}
use qontinui_supervisor.Prelude.Sort.{sort_by_key, Sorted, sort_by_key-count, sort_by_key-Sorted}
use qontinui_supervisor.Binaries.{
  BuildSource, Key, same_key, Conflict, SlotShaDrift, conflicts, drift_of, detect_slot_sha_drift,
}

module _ (picked_slot_id : ℕ) (picked : Key) where
  -- Another slot that has a provenance, and not the same.
  abbrev pub differs : ℕ × Key → Bool
  differs s = not (eqb s.0 picked_slot_id) && (is_some s.1.1 && not (same_key s.1 picked))

  tests_join :
      (same_slot known same : Bool) (x y : List Conflict)
      → (if same_slot then y else if not known then y else if same then y else x)
        ≡ (if not same_slot && (known && not same) then x else y)
  tests_join true b c x y = refl
  tests_join false false c x y = refl
  tests_join false true true x y = refl
  tests_join false true false x y = refl

  conflicts_step :
      (id : ℕ) (key : Key) (slots : List (ℕ × Key))
      → conflicts picked_slot_id picked ((id, key) ∷ slots) ≡ (
          if differs (id, key)
          then (id, key) ∷ conflicts picked_slot_id picked slots
          else conflicts picked_slot_id picked slots)
  unfolding conflicts
  conflicts_step id key slots =
      tests_join (eqb id picked_slot_id) (is_some key.1) (same_key key picked) _ _

  count_step :
      (p : Conflict → Bool) (b : Bool) (s : Conflict) (rest : List Conflict) (n : ℕ)
      → count_if p rest ≡ n
      → count_if p (if b then s ∷ rest else rest) ≡ (if b && p s then suc n else n)
  count_step p true s rest n h = ground (arith, h)
  count_step p false s rest n h = h

  conflicts-count :
      (p : Conflict → Bool) (slots : List (ℕ × Key))
      → count_if p (conflicts picked_slot_id picked slots) ≡ count_if (λ s. differs s && p s) slots
  conflicts-count p [] = unfold conflicts in refl
  conflicts-count p ((id, key) ∷ slots) =
      ap (count_if p) (conflicts_step id key slots)
      ∙ count_step p (differs (id, key)) (id, key) (conflicts picked_slot_id picked slots) _
          (conflicts-count p slots)

  none_step :
      (b : Bool) (s : Conflict) (rest : List Conflict)
      → (if b then s ∷ rest else rest) ≡ []
      → (b ≡ false) × (rest ≡ [])
  none_step true s rest h = absurd (ground (arith, h))
  none_step false s rest h = (refl, h)

  conflicts-any :
      (slots : List (ℕ × Key))
      → conflicts picked_slot_id picked slots ≡ []
      → any_of differs slots ≡ false
  conflicts-any [] h = refl
  conflicts-any ((id, key) ∷ slots) h =
      let n = none_step (differs (id, key)) _ _ (sym (conflicts_step id key slots) ∙ h) in
      rw n.0 (conflicts-any slots n.1)

  -- What is reported: about the picked slot, the other slots that differ, in the order of their ids and
  -- each as often as the pool has it (of the kind `p`).
  abbrev pub Reports : (Conflict → Bool) → List (ℕ × Key) → Option SlotShaDrift → Type 0
  Reports p all_slots none = is_some picked.1 && any_of differs all_slots ≡ false
  Reports p all_slots (some d) =
      (d.picked_slot_id ≡ picked_slot_id)
      × (d.picked_sha ≡ picked.0)
      × (some d.picked_source ≡ picked.1)
      × (d.conflicting ≢ [])
      × Sorted (λ e. e.0) d.conflicting
      × (count_if p d.conflicting ≡ count_if (λ s. differs s && p s) all_slots)

not_empty : (cs : List Conflict) → count_if (λ c. true) cs ≢ 0 → cs ≢ []
not_empty [] n e = n refl
not_empty (c ∷ cs) n e = cc e

sorted_not_empty : (c : Conflict) (cs : List Conflict) → sort_by_key (λ e. e.0) (c ∷ cs) ≢ []
sorted_not_empty c cs =
    not_empty _ (λ e. absurd (omega (arith, sort_by_key-count (λ e. e.0) (λ c. true) (c ∷ cs), e)))

drift_of-Reports :
    (k : ℕ) (sha : Option String) (source : BuildSource) (p : Conflict → Bool)
    (all_slots : List (ℕ × Key)) (cs : List Conflict)
    → conflicts k (sha, some source) all_slots ≡ cs
    → Reports k (sha, some source) p all_slots (drift_of k sha source cs)
unfolding drift_of
drift_of-Reports k sha source p all_slots [] e = conflicts-any k (sha, some source) all_slots e
drift_of-Reports k sha source p all_slots (c ∷ cs) e = (
  refl,
  refl,
  refl,
  sorted_not_empty c cs,
  sort_by_key-Sorted (λ e. e.0) (c ∷ cs),
  sort_by_key-count (λ e. e.0) p (c ∷ cs)
      ∙ (ap (count_if p) (sym e) ∙ conflicts-count k (sha, some source) p all_slots),
)

-- A drift is reported exactly if the picked slot has a provenance and another slot has one that is not
-- the same in commit and tree. It names exactly those slots, in the order of their ids and each as
-- often as it stands in the list; `p` picks out any of them.
pub detect_slot_sha_drift-Reports :
    (k : ℕ) (picked : Key) (p : Conflict → Bool) (all_slots : List (ℕ × Key))
    → Reports k picked p all_slots (detect_slot_sha_drift k picked all_slots)
unfolding detect_slot_sha_drift
detect_slot_sha_drift-Reports k (sha, none) p all_slots = refl
detect_slot_sha_drift-Reports k (sha, some source) p all_slots =
    drift_of-Reports k sha source p all_slots (conflicts k (sha, some source) all_slots) refl
