-- ===== src/Submission/InFlight.antt =====
-- Every step of a task of src/build_submissions.rs keeps the tasks, the cells and the map in agreement.
use qontinui_supervisor.Prelude.{
  ℕ, String, ◌≡◌, refl, sym, ap, ◌∙◌, inl, inr, subst, true, false, Option, none, some, List, arith,
  Bool-cases, eqb, eqb_iff, if◌then◌else◌, In,
}
use qontinui_supervisor.Submission.{BuildSubmission, queued, is_terminal}
use qontinui_supervisor.Submission.Store.{
  Store, new, write_cell, register, insert, add_key, in_terminal,
}
use qontinui_supervisor.Submission.Insert.{add_key-Distinct, insert-Capped, Capped}
use qontinui_supervisor.Submission.Actions.{Json}
use qontinui_supervisor.Submission.World.{
  Phase, created, registered, submitted, World, Move, set_phase, Step, submits, creates, registers,
  moves, Reach, here, next, map_some,
}
use qontinui_supervisor.Submission.Reachable.{
  ended, kept, Move-Moved, Fits, Good, kept-ended, In-add_key, Fits-mono, write-Fits,
}

pub cells-insert :
    {Value : Type 0} (sub : BuildSubmission Value) (s : Store Value)
    → (insert sub s).cells ≡ (write_cell sub.id sub s).cells
unfolding insert
cells-insert sub s = ground arith

module _ (J : Json) (id_text : ℕ → String) where
  Fits-in_terminal :
      (k : ℕ) (keys : List ℕ) (p : Phase) (cells : ℕ → Option (BuildSubmission J.Value))
      → Fits J id_text k keys (some p) (cells k)
      → kept p ≡ true
      → in_terminal cells k ≡ false
  Fits-in_terminal k keys p cells f h = go (cells k) f
    where
      go :
          (c : Option (BuildSubmission J.Value))
          → Fits J id_text k keys (some p) c
          → elim c [ none ↦ false | some sub ↦ is_terminal sub.status ] ≡ false
      go none f = absurd f
      go (some sub) f = f.0 ∙ kept-ended J id_text p h

  -- A fresh submission that waits, in its cell.
  fresh-Fits :
      (p : Phase) (keys : List ℕ) (sub : BuildSubmission J.Value)
      → ended p ≡ false
      → sub.status ≡ queued
      → (kept p ≡ true → In sub.id keys)
      → Fits J id_text sub.id keys (some p) (some sub)
  unfolding is_terminal
  fresh-Fits p keys sub e q n = (ground arith, refl, n)

  submits-Good :
      (w : World J.Value) (sub : BuildSubmission J.Value)
      → sub.status ≡ queued
      → Good J id_text w
      → Good J id_text
          (record { store = insert sub w.store; phase = set_phase sub.id submitted w.phase })
  submits-Good w sub q g = record {
    fits = λ k. rw (cells-insert sub w.store) (
        Fits-mono J id_text k keys0 (insert sub w.store).submissions _ _
          (λ p at h i. survives k p at h i) (all_fit k));
    distinct = capped.distinct;
  }
    where
      keys0 : List ℕ
      keys0 = add_key sub.id w.store.submissions

      capped :
          Capped (insert sub w.store).cells w.store.size_cap keys0 (insert sub w.store).submissions
      capped = insert-Capped sub w.store g.distinct

      all_fit :
          (k : ℕ)
          → Fits J id_text k keys0
              (set_phase sub.id submitted w.phase k)
              ((write_cell sub.id sub w.store).cells k)
      all_fit k =
          write-Fits J id_text sub.id k keys0 keys0 submitted sub w
            (fresh-Fits submitted keys0 sub refl q
              (λ h. In-add_key J id_text sub.id sub.id w.store.submissions (inl refl)))
            (Fits-mono J id_text k w.store.submissions keys0 _ _
              (λ p at h i. In-add_key J id_text k sub.id w.store.submissions (inr i)) (g.fits k))

      survives :
          (k : ℕ) (p : Phase)
          → set_phase sub.id submitted w.phase k ≡ some p
          → kept p ≡ true
          → In k keys0
          → In k (insert sub w.store).submissions
      survives k p at h i = capped.in_flight k i (
          rw (cells-insert sub w.store) (
            Fits-in_terminal k keys0 p (write_cell sub.id sub w.store).cells
              (subst (λ o. Fits J id_text k keys0 o ((write_cell sub.id sub w.store).cells k)) at
                (all_fit k))
              h))

  creates-Good :
      (w : World J.Value) (p : Phase) (sub : BuildSubmission J.Value)
      → ended p ≡ false
      → kept p ≡ false
      → sub.status ≡ queued
      → Good J id_text w
      → Good J id_text
          (record { store = write_cell sub.id sub w.store; phase = set_phase sub.id p w.phase })
  creates-Good w p sub e n q g = record {
    fits = λ k.
        write-Fits J id_text sub.id k w.store.submissions w.store.submissions p sub w
          (fresh-Fits p w.store.submissions sub e q (λ h. absurd (cc (h, n)))) (g.fits k);
    distinct = g.distinct;
  }

  register-Fits :
      (k : ℕ) (keys : List ℕ) (p p' : Phase) (o : Option Phase)
      (c : Option (BuildSubmission J.Value))
      → o ≡ some p
      → ended p ≡ ended p'
      → In k keys
      → Fits J id_text k keys o c
      → Fits J id_text k keys (some p') c
  register-Fits k keys p p' none c at e i f = cc
  register-Fits k keys p p' (some q) none at e i f = f
  register-Fits k keys p p' (some q) (some sub) at e i f = (ground (arith, f.0), f.1, λ h. i)

  Move-Fits :
      (k : ℕ) (keys : List ℕ) (p p' : Phase) (f : BuildSubmission J.Value → BuildSubmission J.Value)
      (o : Option Phase) (c : Option (BuildSubmission J.Value))
      → o ≡ some p
      → Move J id_text p p' f
      → Fits J id_text k keys o c
      → Fits J id_text k keys (some p') (map_some f c)
  Move-Fits k keys p p' f none c at m fit = cc
  Move-Fits k keys p p' f (some q) none at m fit = fit
  Move-Fits k keys p p' f (some q) (some sub) at m fit =
      let same : q ≡ p = cc in
      let moved = Move-Moved J id_text sub m (ground (arith, fit.0, same)) in
      (moved.ends, moved.same_id ∙ fit.1, λ h. fit.2 (rw same (moved.still_kept h)))

  -- A step that changes one task keeps the others.
  at_task :
      (k j : ℕ) (keys : List ℕ) (p : Phase) (c : Option (BuildSubmission J.Value))
      (w : World J.Value)
      → Fits J id_text k keys (some p) c
      → Fits J id_text j keys (w.phase j) (w.store.cells j)
      → Fits J id_text j keys (set_phase k p w.phase j) (if eqb k j then c else w.store.cells j)
  at_task k j keys p c w new old = elim (Bool-cases (eqb k j)) [
    | inl e ↦ rw e (rw (← (eqb_iff k j).0 e) new)
    | inr e ↦ rw e old
  ]

  unmodified :
      (k j : ℕ) (cells : ℕ → Option (BuildSubmission J.Value))
      → cells j ≡ (if eqb k j then cells k else cells j)
  unmodified k j cells = elim (Bool-cases (eqb k j)) [
    | inl e ↦ rw e (ap cells (sym ((eqb_iff k j).0 e)))
    | inr e ↦ rw e refl
  ]

  -- Every step keeps the agreement.
  pub Step-Good :
      {w w' : World J.Value} → Step J id_text w w' → Good J id_text w → Good J id_text w'
  unfolding register
  Step-Good {w} (submits sub free q) g = submits-Good w sub q g
  Step-Good {w} (creates a sub free q) g = creates-Good w (created a) sub refl refl q g
  Step-Good {w} (registers a k at) g = record {
    fits = λ j.
        let keys = add_key k w.store.submissions in
        let fit = λ (i : ℕ).
          Fits-mono J id_text i w.store.submissions keys (w.phase i) (w.store.cells i)
            (λ p e h l. In-add_key J id_text i k w.store.submissions (inr l)) (g.fits i) in
        rw (unmodified k j w.store.cells) (
          at_task k j keys (registered a) (w.store.cells k) w
            (register-Fits k keys (created a) (registered a) (w.phase k) (w.store.cells k) at refl
              (In-add_key J id_text k k w.store.submissions (inl refl)) (fit k))
            (fit j));
    distinct = add_key-Distinct k w.store.submissions g.distinct;
  }
  Step-Good {w} (moves k p p' f at m) g = record {
    fits = λ j.
        at_task k j w.store.submissions p' (map_some f (w.store.cells k)) w
          (Move-Fits k w.store.submissions p p' f (w.phase k) (w.store.cells k) at m (g.fits k))
          (g.fits j);
    distinct = g.distinct;
  }

  pub Reach-Good :
      {size_cap : ℕ} {w : World J.Value} → Reach J id_text size_cap w → Good J id_text w
  unfolding new
  Reach-Good here = record { fits = λ k. tt; distinct = tt }
  Reach-Good (next r st) = Step-Good st (Reach-Good r)
