-- ===== src/Binaries/Picked.antt =====
-- Which slot is picked, and what follows for its exe and its sidecar (src/process/manager.rs).
use qontinui_supervisor.Prelude.{
  ℕ, ◌≡◌, refl, inl, inr, sym, arith, Bool, true, false, Option, none, some, List, [], ◌∷◌, map,
  ◌&&◌, eqb, not, ◌||◌, if◌then◌else◌, find_first, any_of, Bool-cases,
}
use qontinui_supervisor.Binaries.{
  ExePath, slot_exe, Disk, Pool, preferred, first_existing, pick_slot_decision,
  pick_slot_for_resolution, same_option,
}

module _ (exists : ExePath → Bool) where
  abbrev pub has_exe : ℕ → Bool
  has_exe k = exists (slot_exe k)

  abbrev pub entry : ℕ → ℕ × ExePath
  entry k = (k, slot_exe k)

  find_entry :
      (j : ℕ) (ks : List ℕ)
      → find_first (λ s. eqb s.0 j) (map entry ks)
        ≡ (if any_of (λ k. eqb k j) ks then some (entry j) else none)
  find_entry j [] = refl
  find_entry j (k ∷ ks) = ground (arith, find_entry j ks)

  first_existing_lem : (ks : List ℕ) → first_existing (map entry ks) exists ≡ find_first has_exe ks
  unfolding first_existing
  first_existing_lem [] = refl
  first_existing_lem (k ∷ ks) = ground (arith, first_existing_lem ks)

  -- The slot of the last successful build, if the pool has it and its exe is there.
  abbrev pub eligible : List ℕ → Option ℕ → Bool
  eligible ks none = false
  eligible ks (some j) = any_of (λ k. eqb k j) ks && has_exe j

  pub pick_slot_decision_lem :
      (last : Option ℕ) (ks : List ℕ)
      → pick_slot_decision last (map entry ks) exists
        ≡ (if eligible ks last then last else find_first has_exe ks)
  unfolding pick_slot_decision preferred
  pick_slot_decision_lem none ks = first_existing_lem ks
  pick_slot_decision_lem (some j) ks = ground (arith, find_entry j ks, first_existing_lem ks)

  find_first-has_exe :
      (k : ℕ) (ks : List ℕ)
      → find_first has_exe ks ≡ some k
      → (has_exe k ≡ true) × (any_of (λ i. eqb i k) ks ≡ true)
  find_first-has_exe k [] h = absurd (ground (arith, h))
  find_first-has_exe k (i ∷ ks) h =
      (ground (arith, find_first-has_exe k ks), ground (arith, find_first-has_exe k ks))

  find_first-none : (ks : List ℕ) → find_first has_exe ks ≡ none → any_of has_exe ks ≡ false
  find_first-none [] h = refl
  find_first-none (i ∷ ks) h = ground (arith, find_first-none ks)

module _ (d : Disk) (pool : Pool) where
  -- The picked slot is in the pool and has an exe, and it is that of the last successful build if that
  -- one will do. Without a pick no slot has an exe.
  pub record IsPick (k : ℕ) : Type 0 where
    pub has_exe : d.exists (slot_exe k) ≡ true
    pub in_pool : any_of (λ i. eqb i k) pool.slots ≡ true
    pub last_wins :
        not (eligible d.exists pool.slots pool.last_successful_slot)
          || same_option eqb pool.last_successful_slot (some k)
        ≡ true

  abbrev pub Picks : Option ℕ → Type 0
  Picks none = any_of (has_exe d.exists) pool.slots ≡ false
  Picks (some k) = IsPick k

  picks :
      (last r : Option ℕ)
      → pool.last_successful_slot ≡ last
      → (if eligible d.exists pool.slots last
          then last
          else find_first (has_exe d.exists) pool.slots)
        ≡ r
      → Picks r
  picks none none l e = find_first-none d.exists pool.slots e
  picks none (some k) l e =
      let f = find_first-has_exe d.exists k pool.slots e in
      record { has_exe = f.0; in_pool = f.1; last_wins = rw l refl }
  picks (some j) none l e = find_first-none d.exists pool.slots (ground (arith, e))
  picks (some j) (some k) l e = elim (Bool-cases (eligible d.exists pool.slots (some j))) [
    | inl y ↦
        (let e' : j ≡ k = ground (arith, y, e) in
          record {
            has_exe = ground (arith, y, e');
            in_pool = ground (arith, y, e');
            last_wins = rw l (ground (arith, y, e'));
          })
    | inr n ↦
        (let f = find_first-has_exe d.exists k pool.slots (ground (arith, n, e)) in
          record { has_exe = f.0; in_pool = f.1; last_wins = rw l (ground (arith, n)) })
  ]

  pub pick_slot_for_resolution-Picks : Picks (pick_slot_for_resolution d pool)
  unfolding pick_slot_for_resolution
  pick_slot_for_resolution-Picks =
      picks pool.last_successful_slot _ refl
        (sym (pick_slot_decision_lem d.exists pool.last_successful_slot pool.slots))

pub find_slot :
    (k : ℕ) (ks : List ℕ) → any_of (λ i. eqb i k) ks ≡ true → find_first (λ i. eqb i k) ks ≡ some k
find_slot k [] h = absurd (ground (arith, h))
find_slot k (i ∷ ks) h = ground (arith, find_slot k ks)
