-- ===== src/Submission/Tasks.antt =====
-- The promises of the submissions of src/build_submissions.rs, in every order of the tasks' steps.
use qontinui_supervisor.Prelude.{
  ℕ, ℤ, String, Bool, ◌<◌, ◌≡◌, refl, ap, ◌∙◌, inl, inr, subst, true, false, Option, none, some,
  List, arith, Bool-cases, eqb, eqb_iff, if◌then◌else◌,
}
use qontinui_supervisor.Submission.{BuildSubmission, is_terminal, CanonicalDiffKey}
use qontinui_supervisor.Submission.Store.{Store, get, register}
use qontinui_supervisor.Submission.Cargo.{Waited, is_clean}
use qontinui_supervisor.Submission.Insert.{has_key_iff}
use qontinui_supervisor.Submission.Actions.{Json}
use qontinui_supervisor.Submission.World.{
  Phase, created, registered, executing, submitted, waiting, building, filling, done, World, Move,
  map_some, Step, submits, creates, registers, moves, Reach,
}
use qontinui_supervisor.Submission.Reachable.{ended, kept, rank, Move-Moved, Fits, Good, kept-ended}
use qontinui_supervisor.Submission.InFlight.{Reach-Good, cells-insert}

-- What a task may meet: the semaphore is closed or gives a permit; the cache has its key or not; cargo
-- cannot be started or ends.
pub data Permit : Type 0 where
  refused admitted : ℕ → Permit

pub data Turn : Type 0 where
  hit : ℕ → ℤ → Turn
  miss : Permit → Turn

pub data CargoRun : Type 0 where
  no_spawn : ℕ → String → CargoRun
  ends : ℕ → List String → List String → Waited → CargoRun

-- The answers that a task may get in its phase, and where it stands after them. An executing task gets
-- the time, the HTTP status, the body and the tail.
abbrev pub Answer : Type 0 → Phase → Type 0
Answer Value (created a) = Unit
Answer Value (registered a) = ℕ
Answer Value (executing a s) = ℕ × ℕ × Value × List String
Answer Value submitted = Option CanonicalDiffKey
Answer Value (waiting none) = Permit
Answer Value (waiting (some key)) = Turn
Answer Value (building key s) = CargoRun
Answer Value filling = Bool
Answer Value done = ⊥

abbrev after_permit : Option CanonicalDiffKey → Permit → Phase
after_permit key (refused now) = done
after_permit key (admitted now) = building key now

abbrev after_turn : CanonicalDiffKey → Turn → Phase
after_turn key (hit now elapsed) = done
after_turn key (miss p) = after_permit (some key) p

abbrev after_run : Option CanonicalDiffKey → CargoRun → Phase
after_run key (no_spawn now e) = done
after_run none (ends now out err w) = done
after_run (some key) (ends now out err w) = if is_clean w then filling else done

abbrev pub after : (Value : Type 0) (p : Phase) → Answer Value p → Phase
after Value (created a) x = registered a
after Value (registered a) now = executing a now
after Value (executing a s) x = done
after Value submitted key = waiting key
after Value (waiting none) x = after_permit none x
after Value (waiting (some key)) x = after_turn key x
after Value (building key s) x = after_run key x
after Value filling x = done
after Value done x = done

module _ (J : Json) (id_text : ℕ → String) where
  get_of_Fits :
      (k : ℕ) (p : Phase) (s : Store J.Value) (c : Option (BuildSubmission J.Value))
      → s.cells k ≡ c
      → kept p ≡ true
      → Fits J id_text k s.submissions (some p) c
      → (sub : BuildSubmission J.Value) × (get k s ≡ some sub) × (is_terminal sub.status ≡ false)
  unfolding get
  get_of_Fits k p s none e h f = absurd f
  get_of_Fits k p s (some sub) e h f =
      (sub, rw ((has_key_iff k s.submissions).1 (f.2 h)) e, f.0 ∙ kept-ended J id_text p h)

  -- Between its registration and its end a submission is found under its id, and is not in a
  -- terminal state: no insertion of another submission ever evicts it.
  pub in_flight_found :
      {size_cap : ℕ} {w : World J.Value} (k : ℕ) (p : Phase)
      → Reach J id_text size_cap w
      → w.phase k ≡ some p
      → kept p ≡ true
      → (sub : BuildSubmission J.Value) × (get k w.store ≡ some sub)
        × (is_terminal sub.status ≡ false)
  in_flight_found {w = w} k p r at h = get_of_Fits k p w.store (w.store.cells k) refl h (
      subst (λ o. Fits J id_text k w.store.submissions o (w.store.cells k)) at
        ((Reach-Good J id_text r).fits k))

  -- The cell holds a submission with the same status.
  abbrev SameStatus : BuildSubmission J.Value → Option (BuildSubmission J.Value) → Type 0
  SameStatus sub c = (sub' : BuildSubmission J.Value) × (c ≡ some sub') × (sub'.status ≡ sub.status)

  no_phase :
      (k : ℕ) (keys : List ℕ) (o : Option Phase) (c : Option (BuildSubmission J.Value))
      (sub : BuildSubmission J.Value)
      → o ≡ none
      → c ≡ some sub
      → Fits J id_text k keys o c
      → ⊥
  no_phase k keys none none sub a b f = cc
  no_phase k keys none (some s) sub a b f = f
  no_phase k keys (some p) c sub a b f = cc

  fresh_cell :
      (k id : ℕ) (w : World J.Value) (new sub : BuildSubmission J.Value)
      → Good J id_text w
      → w.phase id ≡ none
      → w.store.cells k ≡ some sub
      → SameStatus sub (if eqb id k then some new else w.store.cells k)
  fresh_cell k id w new sub g free e = elim (Bool-cases (eqb id k)) [
    | inl same ↦ absurd (
        no_phase id w.store.submissions (w.phase id) (w.store.cells id) sub free
          (ap w.store.cells ((eqb_iff id k).0 same) ∙ e) (g.fits id))
    | inr other ↦ rw other (sub, e, refl)
  ]

  moved_cell :
      (k : ℕ) (keys : List ℕ) (p p' : Phase) (f : BuildSubmission J.Value → BuildSubmission J.Value)
      (o : Option Phase) (c : Option (BuildSubmission J.Value)) (sub : BuildSubmission J.Value)
      → o ≡ some p
      → c ≡ some sub
      → Move J id_text p p' f
      → is_terminal sub.status ≡ true
      → Fits J id_text k keys o c
      → SameStatus sub (map_some f c)
  moved_cell k keys p p' f none c sub at e m t fit = cc
  moved_cell k keys p p' f (some q) none sub at e m t fit = absurd fit
  moved_cell k keys p p' f (some q) (some x) sub at e m t fit =
      let same : x ≡ sub = cc in
      let place : is_terminal x.status ≡ ended p = ground (arith, fit.0, at) in
      let moved = Move-Moved J id_text x m place in
      (
        f x,
        refl,
        moved.final (ground (arith, place, t, same))
            ∙ ap (λ (s : BuildSubmission J.Value). s.status) same,
      )

  -- A terminal status is final: no step of any task, an eviction included, changes it in its cell.
  pub terminal_is_final :
      {size_cap : ℕ} {w w' : World J.Value} (k : ℕ) (sub : BuildSubmission J.Value)
      → Reach J id_text size_cap w
      → w.store.cells k ≡ some sub
      → is_terminal sub.status ≡ true
      → Step J id_text w w'
      → SameStatus sub (w'.store.cells k)
  unfolding register
  terminal_is_final {w = w} k sub r e t (submits new free q) =
      rw (cells-insert new w.store) (fresh_cell k new.id w new sub (Reach-Good J id_text r) free e)
  terminal_is_final {w = w} k sub r e t (creates a new free q) =
      fresh_cell k new.id w new sub (Reach-Good J id_text r) free e
  terminal_is_final {w = w} k sub r e t (registers a j at) = (sub, e, refl)
  terminal_is_final {w = w} k sub r e t (moves j p p' f at m) = elim (Bool-cases (eqb j k)) [
    | inr other ↦ rw other (sub, e, refl)
    | inl same ↦ rw same (
        moved_cell j w.store.submissions p p' f (w.phase j) (w.store.cells j) sub at
          (ap w.store.cells ((eqb_iff j k).0 same) ∙ e) m t ((Reach-Good J id_text r).fits j))
  ]

  -- A step of the task itself, to this place, which is nearer to the end.
  abbrev pub Advances : World J.Value → ℕ → Phase → Phase → Type 0
  Advances w k p p' =
      (w' : World J.Value) × Step J id_text w w' × (w'.phase k ≡ some p') × (rank p' < rank p)
