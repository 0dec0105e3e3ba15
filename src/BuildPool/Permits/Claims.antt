-- ===== src/BuildPool/Permits/Claims.antt =====
-- That a claim finds a slot of the pool of src/state.rs.
use qontinui_supervisor.Prelude.{
  ℕ, zero, suc, ◌+◌, ◌≤◌, ◌≡◌, ◌≢◌, refl, ap, inl, inr, arith, true, Option, none, some, List, [],
  ◌∷◌, ◌++◌, length, get_elem?, count_if, leb, In,
}
use qontinui_supervisor.BuildPool.{panics, claim_idle_slot, set_slot}
use qontinui_supervisor.BuildPool.Permits.{
  Pool, new, Step, acquires, begins_claim, claims, looks_on, cancels, prewarms, skips_slot, drops,
  defers, clears, flags, begins_reset, resets, ends_reset, releases, Reach, here, next,
}
use qontinui_supervisor.BuildPool.Permits.Held.{
  one_if, is_idle, claim_takes, claim_passes, permits_match_slots,
}

-- The claims that look at this slot or a later one next.
abbrev pub looking_from : ℕ → List ℕ → ℕ
looking_from i l = count_if (λ j. leb i j) l

looking_from-middle :
    (i j : ℕ) (before later : List ℕ)
    → looking_from j (before ++ i ∷ later) ≡ one_if (leb j i) + looking_from j (before ++ later)
looking_from-middle i j [] later = ground arith
looking_from-middle i j (b ∷ before) later = ground (arith, looking_from-middle i j before later)

looking_from-suc : (i : ℕ) (l : List ℕ) → looking_from (suc i) l ≤ looking_from i l
looking_from-suc i [] = omega arith
looking_from-suc i (j ∷ l) = ground (arith, looking_from-suc i l)

looking_from-length : (i : ℕ) (l : List ℕ) → looking_from i l ≤ length l
looking_from-length i [] = omega arith
looking_from-length i (j ∷ l) = ground (arith, looking_from-length i l)

In-looking_from : (i : ℕ) (l : List ℕ) → In i l → 1 ≤ looking_from i l
In-looking_from i [] h = absurd h
In-looking_from i (j ∷ l) (inl e) = ground (arith, e)
In-looking_from i (j ∷ l) (inr h) = ground (arith, In-looking_from i l h)

module _ {Info : Type 0} where
  -- The idle slots from this one on.
  abbrev pub idle_from : ℕ → List (Option Info) → ℕ
  idle_from zero slots = count_if is_idle slots
  idle_from (suc i) [] = 0
  idle_from (suc i) (s ∷ slots) = idle_from i slots

  idle_from-emptied :
      (i j : ℕ) (slots : List (Option Info))
      → idle_from j slots ≤ idle_from j (set_slot i none slots)
  idle_from-emptied i zero [] = omega arith
  idle_from-emptied i (suc j) [] = omega arith
  idle_from-emptied zero zero (none ∷ slots) = omega arith
  idle_from-emptied zero zero (some x ∷ slots) = omega arith
  idle_from-emptied zero (suc j) (s ∷ slots) = omega arith
  idle_from-emptied (suc i) zero (none ∷ slots) = omega (arith, idle_from-emptied i zero slots)
  idle_from-emptied (suc i) zero (some x ∷ slots) = omega (arith, idle_from-emptied i zero slots)
  idle_from-emptied (suc i) (suc j) (s ∷ slots) = idle_from-emptied i j slots

  idle_from-filled :
      (i j : ℕ) (x : Info) (slots : List (Option Info))
      → get_elem? slots i ≡ some none
      → idle_from j (set_slot i (some x) slots) + one_if (leb j i) ≡ idle_from j slots
  idle_from-filled i j x [] e = absurd (ground (arith, e))
  idle_from-filled zero zero x (none ∷ slots) e = omega arith
  idle_from-filled zero zero x (some y ∷ slots) e = absurd (ground (arith, e))
  idle_from-filled zero (suc j) x (s ∷ slots) e = ground arith
  idle_from-filled (suc i) zero x (none ∷ slots) e =
      ground (arith, idle_from-filled i zero x slots e)
  idle_from-filled (suc i) zero x (some y ∷ slots) e =
      ground (arith, idle_from-filled i zero x slots e)
  idle_from-filled (suc i) (suc j) x (s ∷ slots) e = ground (arith, idle_from-filled i j x slots e)

  idle_from-busy :
      (i : ℕ) (x : Info) (slots : List (Option Info))
      → get_elem? slots i ≡ some (some x)
      → idle_from i slots ≡ idle_from (suc i) slots
  idle_from-busy i x [] e = absurd (ground (arith, e))
  idle_from-busy zero x (none ∷ slots) e = absurd (ground (arith, e))
  idle_from-busy zero x (some y ∷ slots) e = refl
  idle_from-busy (suc i) x (s ∷ slots) e = idle_from-busy i x slots e

  -- An idle slot at this place or a later one.
  pub record IdleFrom (i : ℕ) (slots : List (Option Info)) : Type 0 where
    pub place : ℕ
    pub not_before : i ≤ place
    pub idle : get_elem? slots place ≡ some none

  idle_from-IdleFrom :
      (i : ℕ) (slots : List (Option Info)) → 1 ≤ idle_from i slots → IdleFrom i slots
  idle_from-IdleFrom zero [] h = absurd (omega (arith, h))
  idle_from-IdleFrom (suc i) [] h = absurd (omega (arith, h))
  idle_from-IdleFrom zero (none ∷ slots) h = record {
    place = 0;
    not_before = omega arith;
    idle = refl;
  }
  idle_from-IdleFrom zero (some x ∷ slots) h =
      let r = idle_from-IdleFrom zero slots h in
      record { place = suc r.place; not_before = omega arith; idle = r.idle }
  idle_from-IdleFrom (suc i) (s ∷ slots) h =
      let r = idle_from-IdleFrom i slots h in
      record { place = suc r.place; not_before = omega (arith, r.not_before); idle = r.idle }

  within :
      (i j : ℕ) (slots : List (Option Info))
      → i ≤ j
      → get_elem? slots j ≡ some none
      → get_elem? slots i ≢ none
  within i j [] l e = λ h. absurd (ground (arith, e))
  within zero j (s ∷ slots) l e = λ h. ground (arith, h)
  within (suc i) zero (s ∷ slots) l e = absurd (omega (arith, l))
  within (suc i) (suc j) (s ∷ slots) l e = within i j slots (omega (arith, l)) e

  -- From each slot on there are as many idle slots as claims that have come this far.
  abbrev Room : Pool Info → Type 0
  Room w = (i : ℕ) → looking_from i w.claiming ≤ idle_from i w.slots

  Step-Room :
      {w w' : Pool Info}
      → (w.permits + w.entering + length w.claiming + w.leaving ≤ count_if is_idle w.slots)
      → Room w
      → Step true w w'
      → Room w'
  Step-Room p a (acquires n e) i = a i
  Step-Room {w = w} p a (begins_claim n e) i =
      elim i as (λ j. looking_from j (0 ∷ w.claiming) ≤ idle_from j w.slots) [
        | zero ↦ omega (arith, p, e, looking_from-length 0 w.claiming)
        | suc j ↦ ground (arith, a (suc j))
      ]
  Step-Room {w = w} p a (claims k before later info after e c) i =
      let (free, only) = claim_takes info k w.slots after c in
      rw only (
        omega (
          arith,
          a i,
          ap (looking_from i) e,
          looking_from-middle k i before later,
          idle_from-filled k i info w.slots free,
        ))
  Step-Room {w = w} p a (looks_on k j before later info e c) i =
      let (is_next, x, busy) = claim_passes info k j w.slots c in
      ground (
        arith,
        is_next,
        a i,
        a k,
        ap (looking_from i) e,
        ap (looking_from k) e,
        looking_from-middle k i before later,
        looking_from-middle k k before later,
        looking_from-suc k (before ++ later),
        idle_from-busy k x w.slots busy,
      )
  Step-Room {w = w} p a (cancels k before later e) i =
      omega (arith, a i, ap (looking_from i) e, looking_from-middle k i before later)
  Step-Room p a (prewarms n k info c e g) i = absurd (ground (arith, c))
  Step-Room p a (skips_slot n e) i = a i
  Step-Room {w = w} p a (drops k before later e) i =
      omega (arith, a i, idle_from-emptied k i w.slots)
  Step-Room p a (defers k before later c e) i = absurd (ground (arith, c))
  Step-Room {w = w} p a (clears k before later e) i =
      omega (arith, a i, idle_from-emptied k i w.slots)
  Step-Room p a (flags flag) i = a i
  Step-Room p a begins_reset i = a i
  Step-Room {w = w} p a (resets r s before later e g) i =
      omega (arith, a i, idle_from-emptied (length r.slots_cleared) i w.slots)
  Step-Room p a (ends_reset r before later e g) i = a i
  Step-Room p a (releases n e) i = a i

  stays_inline : {w w' : Pool Info} → w.deferred ≡ [] → Step true w w' → w'.deferred ≡ []
  stays_inline h (acquires n e) = h
  stays_inline h (begins_claim n e) = h
  stays_inline h (claims k before later info after e c) = h
  stays_inline h (looks_on k j before later info e c) = h
  stays_inline h (cancels k before later e) = h
  stays_inline h (prewarms n k info c e g) = h
  stays_inline h (skips_slot n e) = h
  stays_inline h (drops k before later e) = h
  stays_inline h (defers k before later c e) = absurd (ground (arith, c))
  stays_inline h (clears k [] later e) = absurd (ground (arith, h, e))
  stays_inline h (clears k (b ∷ before) later e) = absurd (ground (arith, h, e))
  stays_inline h (flags flag) = h
  stays_inline h begins_reset = h
  stays_inline h (resets r s before later e g) = h
  stays_inline h (ends_reset r before later e g) = h
  stays_inline h (releases n e) = h

  Reach-inline : (configured : ℕ) {w : Pool Info} → Reach true configured w → w.deferred ≡ []
  unfolding new
  Reach-inline configured here = refl
  Reach-inline configured (next r s) = stays_inline (Reach-inline configured r) s

  Reach-Room : (configured : ℕ) {w : Pool Info} → Reach true configured w → Room w
  unfolding new
  Reach-Room configured here = λ i. omega arith
  Reach-Room configured (next r s) =
      Step-Room
        (omega
          (arith, (permits_match_slots true configured r).0, ap length (Reach-inline configured r)))
        (Reach-Room configured r) s

  claim_in_range :
      (info : Info) (i : ℕ) (slots : List (Option Info))
      → get_elem? slots i ≢ none
      → claim_idle_slot info i slots ≢ panics
  unfolding claim_idle_slot
  claim_in_range info i slots n e = go (get_elem? slots i) refl
    where
      go : (o : Option (Option Info)) → get_elem? slots i ≡ o → ⊥
      go none h = n h
      go (some none) h = ground (arith, e, h)
      go (some (some x)) h = ground (arith, e, h)

  -- As long as each guard has emptied its slot at once and no prewarming has claimed a slot, in every
  -- order of the steps, forced releases among them: each claim on its way has an idle slot ahead, at the
  -- slot that it looks at next or a later one, and does not panic when it looks.
  pub claim_finds_slot :
      (configured : ℕ) {w : Pool Info} (info : Info) (i : ℕ)
      → Reach true configured w
      → In i w.claiming
      → IdleFrom i w.slots × (claim_idle_slot info i w.slots ≢ panics)
  claim_finds_slot configured {w = w} info i r h =
      let idle =
        idle_from-IdleFrom i w.slots
          (omega (arith, In-looking_from i w.claiming h, Reach-Room configured r i)) in
      (idle, claim_in_range info i w.slots (within i idle.place w.slots idle.not_before idle.idle))
