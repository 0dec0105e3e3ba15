-- ===== src/Submission/Insert.antt =====
-- What `BuildSubmissionStore::insert` of src/build_submissions.rs does to the map.
use qontinui_supervisor.Prelude.{
  ℕ, ◌+◌, ◌-◌, ◌≤◌, ◌<◌, ◌≡◌, refl, sym, ap, inl, inr, true, false, Option, List, [], ◌∷◌, map,
  arith, Bool-cases, ltb, length, In, Distinct, All, subst,
}
use qontinui_supervisor.Prelude.Sort.{
  sort_by_key, sort_by_key-Sorted, sort_by_key-All, sort_by_key-In, sort_by_key-Distinct,
}
use qontinui_supervisor.Submission.{BuildSubmission}
use qontinui_supervisor.Submission.Store.{
  Store, Candidate, candidate, submitted_at, in_terminal, has_key, add_key, write_cell, register,
  enforce_cap, insert,
}
use qontinui_supervisor.Submission.Eviction.{
  ids, victims, remove_keys, evict-eq-remove_keys, remove_keys-In, In-remove_keys,
  remove_keys-Distinct, length-remove_keys,
}
use qontinui_supervisor.Submission.Victims.{
  Tells, victims-In, length-victims-le, victims-Distinct, victims-terminal, victims_enough,
  victims_oldest,
}

pub has_key_iff :
    (k : ℕ) (keys : List ℕ)
    → (has_key k keys ≡ true → In k keys) × (In k keys → has_key k keys ≡ true)
unfolding has_key
has_key_iff k [] = (λ h. cc, λ h. absurd h)
has_key_iff k (j ∷ keys) =
    (λ h. ground (arith, has_key_iff k keys), λ h. ground (arith, has_key_iff k keys))

pub add_key-Distinct : (k : ℕ) (keys : List ℕ) → Distinct keys → Distinct (add_key k keys)
unfolding add_key
add_key-Distinct k keys d = elim (Bool-cases (has_key k keys)) [
  | inl e ↦ rw e d
  | inr e ↦ rw e ((λ h. absurd (cc ((has_key_iff k keys).1 h))), d)
]

module _ {Value : Type 0} (cells : ℕ → Option (BuildSubmission Value)) where
  tells :
      (keys : List ℕ)
      → All (Tells (in_terminal cells) (submitted_at cells)) (map (candidate cells) keys)
  unfolding candidate
  tells [] = tt
  tells (k ∷ keys) = (record { state = refl; age = refl }, tells keys)

  ids-candidates : (keys : List ℕ) → ids (map (candidate cells) keys) ≡ keys
  unfolding candidate
  ids-candidates [] = refl
  ids-candidates (k ∷ keys) = ap (λ l. k ∷ l) (ids-candidates keys)

  -- `r` is what the eviction leaves of the keys, when at most `size_cap` may stay.
  pub record Capped (size_cap : ℕ) (keys r : List ℕ) : Type 0 where
    pub subset : (k : ℕ) → In k r → In k keys
    pub in_flight : (k : ℕ) → In k keys → in_terminal cells k ≡ false → In k r
    pub bounded : (j : ℕ) → In j r → in_terminal cells j ≡ true → length r ≤ size_cap
    pub oldest_first :
        (k j : ℕ)
        → In k keys
        → (In k r → ⊥)
        → In j r
        → in_terminal cells j ≡ true
        → submitted_at cells k ≤ submitted_at cells j
    pub no_more : length keys ≤ size_cap → r ≡ keys
    pub full : size_cap ≤ length keys → size_cap ≤ length r
    pub distinct : Distinct r

module _ {Value : Type 0} (cells : ℕ → Option (BuildSubmission Value)) (size_cap : ℕ)
    (keys : List ℕ) (d : Distinct keys) where
  abbrev by_age : List Candidate
  by_age = sort_by_key (λ c. c.submitted_at) (map (candidate cells) keys)

  abbrev gone : List ℕ
  gone = victims (length keys - size_cap) by_age

  telling : All (Tells (in_terminal cells) (submitted_at cells)) by_age
  telling =
      sort_by_key-All (λ c. c.submitted_at) (Tells (in_terminal cells) (submitted_at cells)) _
        (tells cells keys)

  named : (k : ℕ) → (In k (ids by_age) → In k keys) × (In k keys → In k (ids by_age))
  named k =
      let both = sort_by_key-In (λ c. c.submitted_at) (λ c. c.id) k (map (candidate cells) keys) in
      (
        λ h. subst (In k) (ids-candidates cells keys) (both.0 h),
        λ h. both.1 (subst (In k) (sym (ids-candidates cells keys)) h),
      )

  Distinct-ids : Distinct (ids by_age)
  Distinct-ids =
      sort_by_key-Distinct (λ c. c.submitted_at) (λ c. c.id) (map (candidate cells) keys)
        (subst Distinct (sym (ids-candidates cells keys)) d)

  gone_there : (vs : List ℕ) → ((k : ℕ) → In k vs → In k keys) → All (λ v. In v keys) vs
  gone_there [] h = tt
  gone_there (v ∷ vs) h = (h v (inl refl), gone_there vs (λ k l. h k (inr l)))

  counted : length (remove_keys gone keys) + length gone ≡ length keys
  counted =
      length-remove_keys gone keys d (victims-Distinct _ by_age Distinct-ids)
        (gone_there gone (λ k h. (named k).0 (victims-In k _ by_age h)))

  picked : (k : ℕ) → In k keys → (In k (remove_keys gone keys) → ⊥) → In k gone
  picked k h out = elim (Bool-cases (has_key k gone)) [
    | inl e ↦ (has_key_iff k gone).0 e
    | inr e ↦ absurd (out (remove_keys-In k gone keys (λ v. cc (e, (has_key_iff k gone).1 v)) h))
  ]

  capped : size_cap < length keys → Capped cells size_cap keys (remove_keys gone keys)
  capped over = record {
    subset = λ k h. (In-remove_keys k gone keys h).1;
    in_flight = λ k h alive.
        remove_keys-In k gone keys
          (λ v.
            cc (
              alive,
              victims-terminal (in_terminal cells) (submitted_at cells) k _ by_age telling v,
            ))
          h;
    bounded = λ j h t.
        let (not_gone, was) = In-remove_keys j gone keys h in
        elim (victims_enough (in_terminal cells) (submitted_at cells) j (length keys - size_cap)
          by_age telling ((named j).1 was) t) [
            | inl e ↦ omega (arith, counted)
            | inr v ↦ absurd (not_gone v)
          ];
    oldest_first = λ k j h out stays t.
        let (not_gone, was) = In-remove_keys j gone keys stays in
        victims_oldest (in_terminal cells) (submitted_at cells) k j _ by_age telling
          (sort_by_key-Sorted (λ c. c.submitted_at) (map (candidate cells) keys)) (picked k h out)
          ((named j).1 was) t not_gone;
    no_more = λ l. absurd (omega arith);
    full = λ l. omega (arith, counted, length-victims-le (length keys - size_cap) by_age);
    distinct = remove_keys-Distinct gone keys d;
  }

  uncapped : length keys ≤ size_cap → Capped cells size_cap keys keys
  uncapped fits = record {
    subset = λ k h. h;
    in_flight = λ k h alive. h;
    bounded = λ j h t. fits;
    oldest_first = λ k j h out stays t. absurd (out h);
    no_more = λ l. refl;
    full = λ l. l;
    distinct = d;
  }

  enforce_cap-Capped :
      Capped cells size_cap keys
        (enforce_cap
          (record { cells = cells; submissions = keys; size_cap = size_cap })).submissions
  unfolding enforce_cap
  enforce_cap-Capped = elim (Bool-cases (ltb size_cap (length keys))) [
    | inr fits ↦ rw fits (uncapped (ground arith))
    | inl over ↦
        rw
          (
            over,
            evict-eq-remove_keys (length keys - size_cap) (length keys - size_cap) 0 by_age keys
                (omega arith),
          )
          (capped (ground arith))
  ]

module _ {Value : Type 0} where
  -- With distinct keys, an insertion over the bound drops only submissions in a terminal state,
  -- older ones first: no submission in flight is dropped, the map stays over its bound only if no
  -- terminal one is left, nothing is dropped while all fit, and the map is full after a drop.
  pub insert-Capped :
      (sub : BuildSubmission Value) (s : Store Value)
      → Distinct s.submissions
      → Capped
          (insert sub s).cells
          s.size_cap
          (add_key sub.id s.submissions)
          (insert sub s).submissions
  unfolding insert
  insert-Capped sub s d = rw (unchanged (register sub.id (write_cell sub.id sub s))) (
      enforce_cap-Capped (write_cell sub.id sub s).cells s.size_cap (add_key sub.id s.submissions)
        (add_key-Distinct sub.id s.submissions d))
    where
      unchanged : (t : Store Value) → (enforce_cap t).cells ≡ t.cells
      unchanged t = ground arith
