-- ===== src/Submission/Reachable.antt =====
-- What holds of the submissions of src/build_submissions.rs in every order of the tasks' steps.
use qontinui_supervisor.Prelude.{
  ℕ, ◌<◌, ◌≡◌, refl, ◌⊎◌, inl, inr, String, Bool, true, false, Option, none, some, List, arith,
  Bool-cases, eqb, eqb_iff, if◌then◌else◌, In, Distinct,
}
use qontinui_supervisor.Submission.{BuildSubmission, is_terminal}
use qontinui_supervisor.Submission.Store.{new, add_key, has_key}
use qontinui_supervisor.Submission.Insert.{has_key_iff}
use qontinui_supervisor.Submission.Actions.{Json, Action, start_action, finish_action}
use qontinui_supervisor.Submission.Cargo.{
  keyed, hit_cache, refuse_permit, start_cargo, fail_spawn, finish_cargo, note_population,
}
use qontinui_supervisor.Submission.Outcomes.{waited_terminal}
use qontinui_supervisor.Submission.World.{
  Phase, created, registered, executing, submitted, waiting, building, filling, done, World, Move,
  begins, finishes, derives_key, hits, is_refused, is_admitted, fails_to_spawn, exits, exits_clean,
  fills,
}

-- The submission of a task at this place is in a terminal state.
abbrev pub ended : Phase → Bool
ended filling = true
ended done = true
ended _ = false

-- The map holds the submission of a task at this place.
abbrev pub kept : Phase → Bool
kept (created _) = false
kept filling = false
kept done = false
kept _ = true

-- The steps that a task still has before it.
abbrev pub rank : Phase → ℕ
rank (created _) = 4
rank (registered _) = 3
rank (executing _ _) = 2
rank submitted = 4
rank (waiting _) = 3
rank (building _ _) = 2
rank filling = 1
rank done = 0

module _ (J : Json) (id_text : ℕ → String) where
  -- What a step of a task does to its submission.
  pub record Moved (p p' : Phase) (sub sub' : BuildSubmission J.Value) : Type 0 where
    pub ends : is_terminal sub'.status ≡ ended p'
    pub same_id : sub'.id ≡ sub.id
    pub final : ended p ≡ true → sub'.status ≡ sub.status
    pub still_kept : kept p' ≡ true → kept p ≡ true
    pub falls : rank p' < rank p

  pub Move-Moved :
      {p p' : Phase} {f : BuildSubmission J.Value → BuildSubmission J.Value}
      (sub : BuildSubmission J.Value)
      → Move J id_text p p' f
      → is_terminal sub.status ≡ ended p
      → Moved p p' sub (f sub)
  unfolding is_terminal start_action finish_action keyed hit_cache refuse_permit start_cargo
      fail_spawn finish_cargo note_population
  Move-Moved sub (begins a now) h = ground arith
  Move-Moved sub (finishes a s f http body tail) h =
      elim a
        as (λ b.
          Moved (executing b s) done sub (finish_action J id_text b s f http body tail sub)) [
            | Action.spawn_action port ↦ ground arith
            | Action.detached_action ↦ ground arith
          ]
  Move-Moved sub (derives_key key) h = ground arith
  Move-Moved sub (hits k now el) h = ground arith
  Move-Moved sub (is_refused key now) h = ground arith
  Move-Moved sub (is_admitted key now) h = ground arith
  Move-Moved sub (fails_to_spawn key s now e) h = ground arith
  Move-Moved sub (exits key s f out err w o) h = ground (arith, waited_terminal s f w)
  Move-Moved sub (exits_clean k s f out err w c) h = ground (arith, waited_terminal s f w)
  Move-Moved sub (fills ok) h = ground arith

  -- A task's place agrees with its submission and with the map.
  abbrev pub Fits : ℕ → List ℕ → Option Phase → Option (BuildSubmission J.Value) → Type 0
  Fits k keys none none = Unit
  Fits k keys none (some sub) = ⊥
  Fits k keys (some p) none = ⊥
  Fits k keys (some p) (some sub) =
      (is_terminal sub.status ≡ ended p) × (sub.id ≡ k) × (kept p ≡ true → In k keys)

  pub record Good (w : World J.Value) : Type 0 where
    pub fits : (k : ℕ) → Fits k w.store.submissions (w.phase k) (w.store.cells k)
    pub distinct : Distinct w.store.submissions

  pub kept-ended : (p : Phase) → kept p ≡ true → ended p ≡ false
  kept-ended p h = ground arith

  pub In-add_key : (j k : ℕ) (keys : List ℕ) → (j ≡ k) ⊎ In j keys → In j (add_key k keys)
  unfolding add_key
  In-add_key j k keys h = elim (Bool-cases (has_key k keys)) [
    | inl e ↦ rw e (elim h [ inl p ↦ rw p ((has_key_iff k keys).0 e) | inr l ↦ l ])
    | inr e ↦ rw e h
  ]

  pub Fits-mono :
      (k : ℕ) (keys keys' : List ℕ) (o : Option Phase) (c : Option (BuildSubmission J.Value))
      → ((p : Phase) → o ≡ some p → kept p ≡ true → In k keys → In k keys')
      → Fits k keys o c
      → Fits k keys' o c
  Fits-mono k keys keys' none none h f = tt
  Fits-mono k keys keys' none (some sub) h f = f
  Fits-mono k keys keys' (some p) none h f = f
  Fits-mono k keys keys' (some p) (some sub) h f = (f.0, f.1, λ n. h p refl n (f.2 n))

  pub write-Fits :
      (k j : ℕ) (keys keys' : List ℕ) (p : Phase) (sub : BuildSubmission J.Value)
      (w : World J.Value)
      → Fits k keys' (some p) (some sub)
      → Fits j keys' (w.phase j) (w.store.cells j)
      → Fits j keys'
          (if eqb k j then some p else w.phase j)
          (if eqb k j then some sub else w.store.cells j)
  write-Fits k j keys keys' p sub w new old = elim (Bool-cases (eqb k j)) [
    | inl e ↦ rw e (rw (← (eqb_iff k j).0 e) new)
    | inr e ↦ rw e old
  ]
