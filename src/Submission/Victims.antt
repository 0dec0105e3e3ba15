-- ===== src/Submission/Victims.antt =====
-- The candidates that the eviction of src/build_submissions.rs picks: the oldest in a terminal state.
use qontinui_supervisor.Prelude.{
  ℕ, zero, suc, ◌≤◌, ◌≡◌, refl, ◌⊎◌, inl, inr, Bool, true, List, [], ◌∷◌, arith, Bool-cases, length,
  In, Distinct, All,
}
use qontinui_supervisor.Prelude.Sort.{Sorted}
use qontinui_supervisor.Submission.Store.{Candidate}
use qontinui_supervisor.Submission.Eviction.{ids, victims}

pub victims-In : (k n : ℕ) (cs : List Candidate) → In k (victims n cs) → In k (ids cs)
unfolding victims
victims-In k zero cs h = absurd h
victims-In k (suc n) [] h = h
victims-In k (suc n) (c ∷ cs) h = ground (arith, victims-In k n cs, victims-In k (suc n) cs)

pub length-victims-le : (n : ℕ) (cs : List Candidate) → length (victims n cs) ≤ n
unfolding victims
length-victims-le zero cs = omega arith
length-victims-le (suc n) [] = omega arith
length-victims-le (suc n) (c ∷ cs) =
    ground (arith, length-victims-le n cs, length-victims-le (suc n) cs)

pub victims-Distinct : (n : ℕ) (cs : List Candidate) → Distinct (ids cs) → Distinct (victims n cs)
unfolding victims
victims-Distinct zero cs d = tt
victims-Distinct (suc n) [] d = tt
victims-Distinct (suc n) (c ∷ cs) d = elim (Bool-cases c.is_term) [
  | inl e ↦ rw e ((λ h. d.0 (victims-In c.id n cs h)), victims-Distinct n cs d.1)
  | inr e ↦ rw e (victims-Distinct (suc n) cs d.1)
]

-- The candidates tell the state and the age of the submissions that they name.
module _ (in_terminal : ℕ → Bool) (submitted_at : ℕ → ℕ) where
  pub record Tells (c : Candidate) : Type 0 where
    pub state : in_terminal c.id ≡ c.is_term
    pub age : submitted_at c.id ≡ c.submitted_at

  pub victims-terminal :
      (k n : ℕ) (cs : List Candidate) → All Tells cs → In k (victims n cs) → in_terminal k ≡ true
  unfolding victims
  victims-terminal k zero cs a h = absurd h
  victims-terminal k (suc n) [] a h = absurd h
  victims-terminal k (suc n) (c ∷ cs) a h = elim (Bool-cases c.is_term) [
    | inl e ↦ ground (arith, a.0.state, victims-terminal k n cs a.1)
    | inr e ↦ victims-terminal k (suc n) cs a.1 (rw e at h)
  ]

  -- Either as many are picked as were asked for, or every terminal one is.
  pub victims_enough :
      (j n : ℕ) (cs : List Candidate)
      → All Tells cs
      → In j (ids cs)
      → in_terminal j ≡ true
      → (length (victims n cs) ≡ n) ⊎ In j (victims n cs)
  unfolding victims
  victims_enough j zero cs a i t = inl refl
  victims_enough j (suc n) [] a i t = absurd i
  victims_enough j (suc n) (c ∷ cs) a i t =
      ground (arith, a.0.state, victims_enough j n cs a.1, victims_enough j (suc n) cs a.1)

  age_of_In :
      (j m : ℕ) (cs : List Candidate)
      → All Tells cs
      → All (λ d. m ≤ d.submitted_at) cs
      → In j (ids cs)
      → m ≤ submitted_at j
  age_of_In j m [] a l i = absurd i
  age_of_In j m (c ∷ cs) a l i = ground (arith, a.0.age, age_of_In j m cs a.1 l.1)

  pub victims_oldest :
      (k j n : ℕ) (cs : List Candidate)
      → All Tells cs
      → Sorted (λ c. c.submitted_at) cs
      → In k (victims n cs)
      → In j (ids cs)
      → in_terminal j ≡ true
      → (In j (victims n cs) → ⊥)
      → submitted_at k ≤ submitted_at j
  unfolding victims
  victims_oldest k j zero cs a s h i t m = absurd h
  victims_oldest k j (suc n) [] a s h i t m = absurd h
  victims_oldest k j (suc n) (c ∷ cs) a s h i t m = elim (Bool-cases c.is_term) [
    | inl e ↦
        ground
          (arith, a.0.age, age_of_In j c.submitted_at cs a.1 s.0, victims_oldest k j n cs a.1 s.1)
    | inr e ↦ ground (arith, a.0.state, victims_oldest k j (suc n) cs a.1 s.1)
  ]
