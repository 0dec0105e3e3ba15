-- ===== src/BuildPool/Permits/Held.antt =====
-- Which permits are held, and which slots are busy, in the pool of src/state.rs.
use qontinui_supervisor.Prelude.{
  ℕ, zero, suc, ◌+◌, ◌≤◌, ◌≡◌, ◌≢◌, refl, ◌∙◌, ap, ◌⊎◌, inl, inr, arith, Bool, true, false, not,
  Option, none, some, List, [], ◌∷◌, ◌++◌, length, get_elem?, count_if, is_some, In, length-append,
}
use qontinui_supervisor.BuildPool.{takes, passes, idle_slots, claim_idle_slot, set_slot, pool_size}
use qontinui_supervisor.BuildPool.Permits.{
  Pool, new, Step, acquires, begins_claim, claims, looks_on, cancels, prewarms, skips_slot, drops,
  defers, clears, flags, begins_reset, resets, ends_reset, releases, Reach, here, next,
}

abbrev pub one_if : Bool → ℕ
one_if true = 1
one_if false = 0

In-middle :
    (i j : ℕ) (before later : List ℕ)
    → In j (before ++ i ∷ later)
    → (j ≡ i) ⊎ In j (before ++ later)
In-middle i j [] later h = h
In-middle i j (b ∷ before) later (inl e) = inr (inl e)
In-middle i j (b ∷ before) later (inr h) = elim (In-middle i j before later h) [
  | inl e ↦ inl e
  | inr k ↦ inr (inr k)
]

pub length-middle :
    (i : ℕ) (before later : List ℕ) → length (before ++ i ∷ later) ≡ suc (length (before ++ later))
length-middle i [] later = refl
length-middle i (b ∷ before) later = ap suc (length-middle i before later)

-- The numbers above 0, each less by 1.
abbrev lowered : List ℕ → List ℕ
lowered [] = []
lowered (zero ∷ l) = lowered l
lowered (suc n ∷ l) = n ∷ lowered l

abbrev has_zero : List ℕ → Bool
has_zero [] = false
has_zero (zero ∷ l) = true
has_zero (suc n ∷ l) = has_zero l

length-lowered : (l : List ℕ) → length (lowered l) + one_if (has_zero l) ≤ length l
length-lowered [] = omega arith
length-lowered (zero ∷ l) =
    elim (has_zero l)
        as (λ b.
          length (lowered l) + one_if b ≤ length l → length (lowered l) + 1 ≤ suc (length l)) [
            | true ↦ λ h. omega (arith, h)
            | false ↦ λ h. omega (arith, h)
          ]
      (length-lowered l)
length-lowered (suc n ∷ l) = omega (arith, length-lowered l)

In-lowered : (j : ℕ) (l : List ℕ) → In (suc j) l → In j (lowered l)
In-lowered j [] h = h
In-lowered j (zero ∷ l) (inl e) = absurd (omega (arith, e))
In-lowered j (zero ∷ l) (inr h) = In-lowered j l h
In-lowered j (suc n ∷ l) (inl e) = inl (omega (arith, e))
In-lowered j (suc n ∷ l) (inr h) = inr (In-lowered j l h)

zero-In : (l : List ℕ) → In 0 l → has_zero l ≡ true
zero-In [] h = absurd h
zero-In (zero ∷ l) h = refl
zero-In (suc n ∷ l) (inl e) = absurd (omega (arith, e))
zero-In (suc n ∷ l) (inr h) = zero-In l h

In-append : (j : ℕ) (a b : List ℕ) → In j a ⊎ In j b → In j (a ++ b)
In-append j [] b (inl h) = absurd h
In-append j [] b (inr h) = h
In-append j (x ∷ a) b (inl (inl e)) = inl e
In-append j (x ∷ a) b (inl (inr h)) = inr (In-append j a b (inl h))
In-append j (x ∷ a) b (inr h) = inr (In-append j a b (inr h))

without :
    (i j : ℕ) (l before later : List ℕ)
    → l ≡ before ++ i ∷ later
    → j ≢ i
    → In j l
    → In j (before ++ later)
without i j l before later e d h = elim (In-middle i j before later (rw (← e) h)) [
  | inl same ↦ absurd (d same)
  | inr other ↦ other
]

module _ {Info : Type 0} where
  abbrev pub is_idle : Option Info → Bool
  is_idle s = not (is_some s)

  -- The numbers of all busy slots stand in the list.
  abbrev Covers : List ℕ → List (Option Info) → Type 0
  Covers l slots = (j : ℕ) (info : Info) → get_elem? slots j ≡ some (some info) → In j l

  Covers-count :
      (l : List ℕ) (slots : List (Option Info)) → Covers l slots → count_if is_some slots ≤ length l
  Covers-count l [] c = omega arith
  Covers-count l (none ∷ slots) c =
      let rest = Covers-count (lowered l) slots (λ j t g. In-lowered j l (c (suc j) t g)) in
      omega (arith, rest, length-lowered l)
  Covers-count l (some info ∷ slots) c =
      let rest = Covers-count (lowered l) slots (λ j t g. In-lowered j l (c (suc j) t g)) in
      omega (arith, rest, length-lowered l, ap one_if (zero-In l (c 0 info refl)))

  busy-idle-length :
      (slots : List (Option Info)) → count_if is_some slots + count_if is_idle slots ≡ length slots
  busy-idle-length [] = refl
  busy-idle-length (none ∷ slots) = omega (arith, busy-idle-length slots)
  busy-idle-length (some info ∷ slots) = omega (arith, busy-idle-length slots)

  get_elem?-set_slot :
      (i j : ℕ) (s t : Option Info) (slots : List (Option Info))
      → get_elem? (set_slot i t slots) j ≡ some s
      → ((j ≡ i) × (s ≡ t)) ⊎ ((j ≢ i) × (get_elem? slots j ≡ some s))
  get_elem?-set_slot i j s t [] e = absurd (ground (arith, e))
  get_elem?-set_slot zero zero s t (x ∷ slots) e = inl (refl, ground (arith, e))
  get_elem?-set_slot zero (suc j) s t (x ∷ slots) e = inr ((λ h. omega (arith, h)), e)
  get_elem?-set_slot (suc i) zero s t (x ∷ slots) e = inr ((λ h. omega (arith, h)), e)
  get_elem?-set_slot (suc i) (suc j) s t (x ∷ slots) e = elim (get_elem?-set_slot i j s t slots e) [
    | inl (same, it) ↦ inl (ap suc same, it)
    | inr (other, g) ↦ inr ((λ h. other (omega (arith, h))), g)
  ]

  length-set_slot :
      (i : ℕ) (t : Option Info) (slots : List (Option Info))
      → length (set_slot i t slots) ≡ length slots
  length-set_slot i t [] = refl
  length-set_slot zero t (s ∷ slots) = refl
  length-set_slot (suc i) t (s ∷ slots) = omega (arith, length-set_slot i t slots)

  idle_slots-idle :
      (n : ℕ)
      → (length (idle_slots {Info = Info} n) ≡ n)
        × ((j : ℕ) (info : Info) → get_elem? (idle_slots n) j ≡ some (some info) → ⊥)
  unfolding idle_slots
  idle_slots-idle zero = (refl, λ j info g. ground (arith, g))
  idle_slots-idle (suc n) = let rest = idle_slots-idle n in (ap suc rest.0, all_idle rest.1)
    where
      all_idle :
          ((j : ℕ) (info : Info) → get_elem? (idle_slots n) j ≡ some (some info) → ⊥)
          → (j : ℕ) (info : Info) → get_elem? (none ∷ idle_slots n) j ≡ some (some info)
          → ⊥
      all_idle rest zero info g = ground (arith, g)
      all_idle rest (suc j) info g = rest j info g

  -- What a turn of a claim has found.
  pub claim_takes :
      (info : Info) (i : ℕ) (slots after : List (Option Info))
      → claim_idle_slot info i slots ≡ takes after
      → (get_elem? slots i ≡ some none) × (after ≡ set_slot i (some info) slots)
  unfolding claim_idle_slot
  claim_takes info i slots after e = go (get_elem? slots i) refl
    where
      go :
          (o : Option (Option Info))
          → get_elem? slots i ≡ o
          → (get_elem? slots i ≡ some none) × (after ≡ set_slot i (some info) slots)
      go none h = absurd (ground (arith, e, h))
      go (some none) h = (h, ground (arith, e, h))
      go (some (some x)) h = absurd (ground (arith, e, h))

  pub claim_passes :
      (info : Info) (i j : ℕ) (slots : List (Option Info))
      → claim_idle_slot info i slots ≡ passes j
      → (j ≡ suc i) × (x : Info) × (get_elem? slots i ≡ some (some x))
  unfolding claim_idle_slot
  claim_passes info i j slots e = go (get_elem? slots i) refl
    where
      go :
          (o : Option (Option Info))
          → get_elem? slots i ≡ o
          → (j ≡ suc i) × (x : Info) × (get_elem? slots i ≡ some (some x))
      go none h = absurd (ground (arith, e, h))
      go (some none) h = absurd (ground (arith, e, h))
      go (some (some x)) h = (ground (arith, e, h), x, h)

  -- Each permit is free or held by one build, and a busy slot has a guard or a deferred clearing.
  pub record Guarded (size : ℕ) (w : Pool Info) : Type 0 where
    pub sized : length w.slots ≡ size
    pub held : length w.guards + w.entering + length w.claiming + w.leaving + w.permits ≡ size
    pub answered :
        (j : ℕ) (info : Info)
        → get_elem? w.slots j ≡ some (some info)
        → In j w.guards ⊎ In j w.deferred

  Guarded-idle :
      (size : ℕ) (w : Pool Info)
      → Guarded size w
      → size ≤ count_if is_idle w.slots + (length w.guards + length w.deferred)
  Guarded-idle size w a = omega (
    arith,
    a.sized,
    busy-idle-length w.slots,
    Covers-count (w.guards ++ w.deferred) w.slots
        (λ j s g. In-append j w.guards w.deferred (a.answered j s g)),
    length-append w.guards w.deferred,
  )

  -- A slot that is emptied needs no guard and no deferred clearing any more.
  emptied :
      (i : ℕ) (slots : List (Option Info)) (G G' D D' : List ℕ)
      → ((j : ℕ) (info : Info) → get_elem? slots j ≡ some (some info) → In j G ⊎ In j D)
      → ((j : ℕ) → j ≢ i → In j G ⊎ In j D → In j G' ⊎ In j D')
      → (j : ℕ) (info : Info) → get_elem? (set_slot i none slots) j ≡ some (some info)
      → In j G' ⊎ In j D'
  emptied i slots G G' D D' answered keeps j info g =
      elim (get_elem?-set_slot i j (some info) none slots g) [
        | inl (e, t) ↦ absurd (ground (arith, t))
        | inr (d, g') ↦ keeps j d (answered j info g')
      ]

  -- A slot that is filled gets a guard.
  filled :
      (i : ℕ) (x : Info) (slots : List (Option Info)) (G D : List ℕ)
      → ((j : ℕ) (info : Info) → get_elem? slots j ≡ some (some info) → In j G ⊎ In j D)
      → (j : ℕ) (info : Info) → get_elem? (set_slot i (some x) slots) j ≡ some (some info)
      → In j (i ∷ G) ⊎ In j D
  filled i x slots G D answered j info g =
      elim (get_elem?-set_slot i j (some info) (some x) slots g) [
        | inl (it, t) ↦ inl (inl it)
        | inr (d, g') ↦ elim (answered j info g') [ inl h ↦ inl (inr h) | inr h ↦ inr h ]
      ]

  Step-Guarded :
      (calm : Bool) (size : ℕ) {w w' : Pool Info}
      → Guarded size w
      → Step calm w w'
      → Guarded size w'
  Step-Guarded calm size a (acquires n e) = record {
    sized = a.sized;
    held = omega (arith, a.held, e);
    answered = a.answered;
  }
  Step-Guarded calm size a (begins_claim n e) = record {
    sized = a.sized;
    held = omega (arith, a.held, e);
    answered = a.answered;
  }
  Step-Guarded calm size {w = w} a (claims i before later info after e c) =
      let k = (claim_takes info i w.slots after c).1 in
      record {
        sized = ap length k ∙ length-set_slot i (some info) w.slots ∙ a.sized;
        held = omega (arith, a.held, ap length e, length-middle i before later);
        answered = rw k (filled i info w.slots w.guards w.deferred a.answered);
      }
  Step-Guarded calm size a (looks_on i j before later info e c) = record {
    sized = a.sized;
    held = omega (arith, a.held, ap length e, length-middle i before later);
    answered = a.answered;
  }
  Step-Guarded calm size a (cancels i before later e) = record {
    sized = a.sized;
    held = omega (arith, a.held, ap length e, length-middle i before later);
    answered = a.answered;
  }
  Step-Guarded calm size {w = w} a (prewarms n i info k e g) = record {
    sized = length-set_slot i (some info) w.slots ∙ a.sized;
    held = omega (arith, a.held, e);
    answered = filled i info w.slots w.guards w.deferred a.answered;
  }
  Step-Guarded calm size a (skips_slot n e) = record {
    sized = a.sized;
    held = omega (arith, a.held, e);
    answered = a.answered;
  }
  Step-Guarded calm size {w = w} a (drops i before later e) = record {
    sized = length-set_slot i none w.slots ∙ a.sized;
    held = omega (arith, a.held, ap length e, length-middle i before later);
    answered =
        emptied i w.slots w.guards (before ++ later) w.deferred w.deferred a.answered (λ j d h.
          elim h [ inl k ↦ inl (without i j w.guards before later e d k) | inr k ↦ inr k ]);
  }
  Step-Guarded calm size {w = w} a (defers i before later c e) = record {
    sized = a.sized;
    held = omega (arith, a.held, ap length e, length-middle i before later);
    answered = λ j info g. elim (a.answered j info g) [
      | inl k ↦ elim (In-middle i j before later (rw (← e) k)) [
        | inl same ↦ inr (inl same)
        | inr other ↦ inl other
      ]
      | inr k ↦ inr (inr k)
    ];
  }
  Step-Guarded calm size {w = w} a (clears i before later e) = record {
    sized = length-set_slot i none w.slots ∙ a.sized;
    held = a.held;
    answered = emptied i w.slots w.guards w.guards w.deferred (before ++ later) a.answered (λ j d h.
        elim h [ inl k ↦ inl k | inr k ↦ inr (without i j w.deferred before later e d k) ]);
  }
  Step-Guarded calm size a (flags flag) = record {
    sized = a.sized;
    held = a.held;
    answered = a.answered;
  }
  Step-Guarded calm size a begins_reset = record {
    sized = a.sized;
    held = a.held;
    answered = a.answered;
  }
  Step-Guarded calm size {w = w} a (resets r s before later e g) = record {
    sized = length-set_slot (length r.slots_cleared) none w.slots ∙ a.sized;
    held = a.held;
    answered =
        emptied (length r.slots_cleared) w.slots w.guards w.guards w.deferred w.deferred a.answered
          (λ j d h. h);
  }
  Step-Guarded calm size a (ends_reset r before later e g) = record {
    sized = a.sized;
    held = a.held;
    answered = a.answered;
  }
  Step-Guarded calm size a (releases n e) = record {
    sized = a.sized;
    held = omega (arith, a.held, e);
    answered = a.answered;
  }

  pub Reach-Guarded :
      (calm : Bool) (configured : ℕ) {w : Pool Info}
      → Reach calm configured w
      → Guarded (pool_size configured) w
  unfolding new
  Reach-Guarded calm configured here =
      let h = idle_slots-idle (pool_size configured) in
      record { sized = h.0; held = omega arith; answered = λ j info g. absurd (h.1 j info g) }
  Reach-Guarded calm configured (next r s) =
      Step-Guarded calm (pool_size configured) (Reach-Guarded calm configured r) s

  -- In every reachable pool, with forced releases and deferred clearings at any time: the permits that
  -- are free or held without a guard are at most as many as the slots that are idle and the clearings
  -- that are deferred; and no more builds than the pool's size hold a permit.
  pub permits_match_slots :
      (calm : Bool) (configured : ℕ) {w : Pool Info}
      → Reach calm configured w
      → (w.permits + w.entering + length w.claiming + w.leaving
          ≤ count_if is_idle w.slots + length w.deferred)
        × (length w.guards + w.entering + length w.claiming + w.leaving ≤ pool_size configured)
  permits_match_slots calm configured {w = w} r =
      let a = Reach-Guarded calm configured r in
      (omega (arith, a.held, Guarded-idle (pool_size configured) w a), omega (arith, a.held))
