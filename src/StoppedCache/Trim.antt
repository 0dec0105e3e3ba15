-- ===== src/StoppedCache/Trim.antt =====
-- The loop that trims the cache to its bound, and the insertion as a whole
-- (src/process/stopped_cache.rs).
use qontinui_supervisor.Prelude.{
  ℕ, zero, suc, ◌≤◌, ◌<◌, String, ◌≡◌, refl, sym, ap, ◌∙◌, inl, inr, ℤ, true, none, some, [], ◌∷◌,
  arith, Bool-cases, Option-cases, ltb, ltb→lt, length, Distinct, ◌==◌, string_eq, leb, leb→le,
  leb→lt,
}
use qontinui_supervisor.Prelude.Assoc.{
  keys, get, insert, remove, insert-Distinct, remove-Distinct, length-remove, get-insert,
  get-insert_self, get-remove,
}
use qontinui_supervisor.StoppedCache.{
  StoppedRunnerSnapshot, Cache, retain, oldest, trim, fresh, insert_and_evict,
}
use qontinui_supervisor.StoppedCache.Eviction.{
  oldest-In, oldest-eq-none, oldest-le, oldest-get, get-retain, retain-Distinct,
}

-- `r` is `m` with its oldest entries dropped, down to `max_entries` if there were more.
pub record IsTrimmed (max_entries : ℕ) (m r : Cache) : Type 0 where
  pub bounded : length r ≤ max_entries
  pub kept : (j : String) (w : StoppedRunnerSnapshot) → get j r ≡ some w → get j m ≡ some w
  pub oldest_first :
      (i j : String) (v w : StoppedRunnerSnapshot)
      → get i m ≡ some v
      → get i r ≡ none
      → get j r ≡ some w
      → v.stopped_at ≤ w.stopped_at
  pub no_more : length m ≤ max_entries → r ≡ m
  pub full : max_entries ≤ length m → max_entries ≤ length r

trim_done : (max_entries : ℕ) (m : Cache) → length m ≤ max_entries → IsTrimmed max_entries m m
trim_done max_entries m h = record {
  bounded = h;
  kept = λ j w e. e;
  oldest_first = λ i j v w e n g. cc;
  no_more = λ l. refl;
  full = λ l. l;
}

-- One round: the oldest entry is gone, and the rest is trimmed.
trim_round :
    (max_entries : ℕ) (m r : Cache) (k : String) (o : StoppedRunnerSnapshot)
    → Distinct (keys m)
    → max_entries < length m
    → oldest m ≡ some (k, o)
    → IsTrimmed max_entries (remove k m) r
    → IsTrimmed max_entries m r
trim_round max_entries m r k o d more e t = record {
  bounded = t.bounded;
  kept = λ j w g. ground (arith, t.kept j w g, get-remove k j m);
  oldest_first = λ i j v w g gone h. elim (Bool-cases (k == i)) [
    | inl same ↦
        oldest-le m k j v w
          (e ∙ ap (λ x. some (k, x)) (the_oldest i v g (((string_eq).same_iff k i).0 same)))
          (ground (arith, t.kept j w h, get-remove k j m))
    | inr other ↦ t.oldest_first i j v w (rw (get-remove k i m, other) g) gone h
  ];
  no_more = λ l. absurd (omega arith);
  full = λ l. t.full (omega (arith, length-remove k m d (oldest-In m k o e)));
}
  where
    the_oldest : (i : String) (v : StoppedRunnerSnapshot) → get i m ≡ some v → k ≡ i → o ≡ v
    the_oldest i v g same = cc (oldest-get m k o d e)

trim-IsTrimmed :
    (fuel max_entries : ℕ) (m : Cache)
    → length m ≤ fuel
    → Distinct (keys m)
    → IsTrimmed max_entries m (trim fuel max_entries m)
unfolding trim
trim-IsTrimmed zero max_entries [] h d = trim_done max_entries [] (omega arith)
trim-IsTrimmed zero max_entries (e ∷ m) h d = absurd (omega arith)
trim-IsTrimmed (suc fuel) max_entries m h d = elim (Bool-cases (ltb max_entries (length m))) [
  | inr fits ↦ rw (fits, trim) (trim_done max_entries m (ground arith))
  | inl more ↦ elim (Option-cases (oldest m)) [
    | inl e ↦
        absurd (omega (arith, ap length (oldest-eq-none m e), ltb→lt max_entries (length m) more))
    | inr ((k, o), e) ↦
        rw (more, trim, e)
          (trim_round max_entries m (trim fuel max_entries (remove k m)) k o d (ltb→lt _ _ more) e (
            trim-IsTrimmed fuel max_entries (remove k m)
              (omega (arith, length-remove k m d (oldest-In m k o e))) (remove-Distinct k m d)))
  ]
]

-- `r` is the young part of `m`, trimmed.
pub record Evicted (now max_entries : ℕ) (ttl_secs : ℤ) (m r : Cache) : Type 0 where
  pub bounded : length r ≤ max_entries
  pub kept :
      (j : String) (w : StoppedRunnerSnapshot)
      → get j r ≡ some w
      → (get j m ≡ some w) × (fresh now ttl_secs w ≡ true)
  pub oldest_first :
      (i j : String) (v w : StoppedRunnerSnapshot)
      → get i m ≡ some v
      → fresh now ttl_secs v ≡ true
      → get i r ≡ none
      → get j r ≡ some w
      → v.stopped_at ≤ w.stopped_at
  pub no_more :
      length (retain (fresh now ttl_secs) m) ≤ max_entries → r ≡ retain (fresh now ttl_secs) m
  pub full : max_entries ≤ length (retain (fresh now ttl_secs) m) → max_entries ≤ length r

Evicted-of_trimmed :
    (now max_entries : ℕ) (ttl_secs : ℤ) (m r : Cache)
    → Distinct (keys m)
    → IsTrimmed max_entries (retain (fresh now ttl_secs) m) r
    → Evicted now max_entries ttl_secs m r
Evicted-of_trimmed now max_entries ttl_secs m r d t = record {
  bounded = t.bounded;
  kept = λ j w g. ground (arith, t.kept j w g, get-retain (fresh now ttl_secs) j m d);
  oldest_first = λ i j v w g young gone h.
      t.oldest_first i j v w (rw (get-retain (fresh now ttl_secs) i m d, g, young)) gone h;
  no_more = t.no_more;
  full = t.full;
}

-- After an insertion into a cache with distinct keys, it holds at most `max_entries` runners, the
-- one inserted included; each is as the insertion left it and younger than the time to live; a
-- young entry is missing only if every entry that stays stopped no earlier; if the young entries
-- fit, all of them stay, and if they do not, the cache is full.
pub insert_and_evict-Evicted :
    (now max_entries : ℕ) (ttl_secs : ℤ) (snapshot : StoppedRunnerSnapshot) (cache : Cache)
    → Distinct (keys cache)
    → Evicted now max_entries ttl_secs
        (insert snapshot.id snapshot cache)
        (insert_and_evict now max_entries ttl_secs snapshot cache)
unfolding insert_and_evict
insert_and_evict-Evicted now max_entries ttl_secs snapshot cache d =
    let m = insert snapshot.id snapshot cache in
    let dm = insert-Distinct snapshot.id snapshot cache d in
    let young = retain (fresh now ttl_secs) m in
    Evicted-of_trimmed now max_entries ttl_secs m (trim (length young) max_entries young) dm (
      trim-IsTrimmed (length young) max_entries young (omega arith)
        (retain-Distinct (fresh now ttl_secs) m dm))

trim-Distinct :
    (fuel max_entries : ℕ) (m : Cache)
    → Distinct (keys m)
    → Distinct (keys (trim fuel max_entries m))
unfolding trim
trim-Distinct zero max_entries m d = d
trim-Distinct (suc fuel) max_entries m d = elim (Option-cases (oldest m)) [
  | inl e ↦ ground (arith, e)
  | inr ((k, o), e) ↦
      ground (arith, e, trim-Distinct fuel max_entries (remove k m) (remove-Distinct k m d))
]

-- If the keys of the cache are distinct, they are so after an insertion.
pub insert_and_evict-Distinct :
    (now max_entries : ℕ) (ttl_secs : ℤ) (snapshot : StoppedRunnerSnapshot) (cache : Cache)
    → Distinct (keys cache)
    → Distinct (keys (insert_and_evict now max_entries ttl_secs snapshot cache))
unfolding insert_and_evict
insert_and_evict-Distinct now max_entries ttl_secs snapshot cache d =
    let young = retain (fresh now ttl_secs) (insert snapshot.id snapshot cache) in
    trim-Distinct (length young) max_entries young (
      retain-Distinct (fresh now ttl_secs) (insert snapshot.id snapshot cache)
        (insert-Distinct snapshot.id snapshot cache d))

head_entry :
    (r : Cache) → 0 < length r → (j : String) × (w : StoppedRunnerSnapshot) × (get j r ≡ some w)
head_entry [] h = absurd (omega arith)
head_entry ((j, w) ∷ r) h = (j, w, head_get)
  where
    head_get : get j ((j, w) ∷ r) ≡ some w
    head_get = unfold get in rw (((string_eq).same_iff j j).1 refl)

-- The runner that has just been inserted is found in the cache, if the keys are distinct, the cache
-- holds at least one, the snapshot is younger than the time to live, and all the others stopped
-- earlier.
pub insert_and_evict-finds :
    (now max_entries : ℕ) (ttl_secs : ℤ) (snapshot : StoppedRunnerSnapshot) (cache : Cache)
    → Distinct (keys cache)
    → 0 < max_entries
    → fresh now ttl_secs snapshot ≡ true
    → ((j : String) (w : StoppedRunnerSnapshot)
        → get j cache ≡ some w
        → w.stopped_at < snapshot.stopped_at)
    → get snapshot.id (insert_and_evict now max_entries ttl_secs snapshot cache) ≡ some snapshot
insert_and_evict-finds now max_entries ttl_secs snapshot cache d room young newest =
    elim (Option-cases (get snapshot.id r)) [
      | inl gone ↦ absurd (missing gone)
      | inr (w, e) ↦ e ∙ sym (ev.kept snapshot.id w e).0 ∙ self
    ]
  where
    r : Cache
    r = insert_and_evict now max_entries ttl_secs snapshot cache

    ev : Evicted now max_entries ttl_secs (insert snapshot.id snapshot cache) r
    ev = insert_and_evict-Evicted now max_entries ttl_secs snapshot cache d

    self : get snapshot.id (insert snapshot.id snapshot cache) ≡ some snapshot
    self = get-insert_self snapshot.id snapshot cache

    outlived :
        get snapshot.id r ≡ none → (j : String) (w : StoppedRunnerSnapshot) → get j r ≡ some w → ⊥
    outlived gone j w e = ground (
      arith,
      ev.oldest_first snapshot.id j snapshot w self young gone e,
      ev.kept j w e,
      get-insert snapshot.id j snapshot cache,
      (string_eq).same_iff snapshot.id j,
      newest j w,
    )

    all_young : Cache
    all_young = retain (fresh now ttl_secs) (insert snapshot.id snapshot cache)

    missing : get snapshot.id r ≡ none → ⊥
    missing gone = elim (Bool-cases (leb max_entries (length all_young))) [
      | inl over ↦
          let (j, w, e) = head_entry r (omega (arith, ev.full (leb→le _ _ over))) in
          outlived gone j w e
      | inr fits ↦ cc (
        gone,
        ap (get snapshot.id)
            (ev.no_more (omega (arith, leb→lt max_entries (length all_young) fits))),
        get-retain (fresh now ttl_secs) snapshot.id (insert snapshot.id snapshot cache)
            (insert-Distinct snapshot.id snapshot cache d),
        self,
        young,
      )
    ]
