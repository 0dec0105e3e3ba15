-- ===== src/CacheTelemetry/Tally.antt =====
-- What the counters of src/cache_telemetry.rs mean: numbers of events in the log of all events.
use qontinui_supervisor.Prelude.{
  ◌^◌, ◌<◌, ◌≤◌, ◌≡◌, refl, ap, String, Bool, false, not, Option, none, some, List, [], ◌∷◌, ◌&&◌,
  arith, if◌then◌else◌, string_eq, ◌==◌, length, keep_if, count_if, any_of, Bool-cases, inl, inr,
  ◌∙◌,
}
use qontinui_supervisor.Prelude.Assoc.{get, get-insert}
use qontinui_supervisor.Submission.Cargo.{CacheEvent}
use qontinui_supervisor.CacheTelemetry.{
  Bucket, is_ok, is_fail, add_if, apply, CacheTelemetry, bucket, apply_at, recorded,
}

-- The counters as numbers of events, with no wrap-around.
unfoldable pub tally : List CacheEvent → Bucket
tally es = record {
  ac_hit = count_if (λ e. e.ac_hit) es;
  ac_miss = count_if (λ e. not e.ac_hit) es;
  ac_write_ok = count_if (λ e. is_ok e.ac_write_ok) es;
  ac_write_fail = count_if (λ e. is_fail e.ac_write_ok) es;
  shadow_ts_reuse = count_if (λ e. e.timestamp_would_reuse) es;
  hash_hit_ts_miss = count_if (λ e. e.ac_hit && not e.timestamp_would_reuse) es;
  ts_hit_hash_miss = count_if (λ e. not e.ac_hit && e.timestamp_would_reuse) es;
}

-- The entry of a key on one axis of the breakdown: the events with that key, if there is one.
unfoldable pub tally_at : (CacheEvent → String) → String → List CacheEvent → Option Bucket
unfolding tally
tally_at axis k es =
    let mine = keep_if (λ e. axis e == k) es in
    if any_of (λ e. axis e == k) es then some (tally mine) else none

-- The telemetry `t` is that of the log `es`.
pub record Refines (t : CacheTelemetry) (es : List CacheEvent) : Type 0 where
  pub global : t.global ≡ tally es
  pub by_worker : (k : String) → get k t.by_worker ≡ tally_at (λ e. e.worker) k es
  pub by_repo : (k : String) → get k t.by_repo ≡ tally_at (λ e. e.repo) k es
  pub by_profile : (k : String) → get k t.by_profile ≡ tally_at (λ e. e.profile) k es

count_if_le {ℓ} : {A : Type ℓ} (p : A → Bool) (xs : List A) → count_if p xs ≤ length xs
count_if_le p [] = omega arith
count_if_le p (x ∷ xs) = ground (arith, count_if_le p xs)

-- One more event, while the counters are far from their end.
add_if_lem :
    {A : Type 0} (p : A → Bool) (x : A) (xs : List A)
    → length (x ∷ xs) < 2 ^ 64
    → add_if (p x) (count_if p xs) ≡ count_if p (x ∷ xs)
add_if_lem p x xs h = ground (arith, count_if_le p xs)

apply-tally :
    (e : CacheEvent) (es : List CacheEvent)
    → length (e ∷ es) < 2 ^ 64
    → apply e (tally es) ≡ tally (e ∷ es)
unfolding apply tally
apply-tally e es h =
    rw
      (
        add_if_lem (λ e. e.ac_hit) e es h,
        add_if_lem (λ e. not e.ac_hit) e es h,
        add_if_lem (λ e. is_ok e.ac_write_ok) e es h,
        add_if_lem (λ e. is_fail e.ac_write_ok) e es h,
        add_if_lem (λ e. e.timestamp_would_reuse) e es h,
        add_if_lem (λ e. e.ac_hit && not e.timestamp_would_reuse) e es h,
        add_if_lem (λ e. not e.ac_hit && e.timestamp_would_reuse) e es h,
      )
      refl

length-keep_if {ℓ} : {A : Type ℓ} (p : A → Bool) (xs : List A) → length (keep_if p xs) ≤ length xs
length-keep_if p [] = omega arith
length-keep_if p (x ∷ xs) = ground (arith, length-keep_if p xs)

keep_none {ℓ} : {A : Type ℓ} (p : A → Bool) (xs : List A) → any_of p xs ≡ false → keep_if p xs ≡ []
keep_none p [] h = refl
keep_none p (x ∷ xs) h = ground (arith, keep_none p xs)

-- A bucket that is new counts no event.
bucket-tally :
    (axis : CacheEvent → String) (k : String) (es : List CacheEvent) (m : List (String × Bucket))
    → get k m ≡ tally_at axis k es
    → bucket k m ≡ tally (keep_if (λ e. axis e == k) es)
unfolding bucket tally_at tally
bucket-tally axis k es m h = elim (Bool-cases (any_of (λ e. axis e == k) es)) [
  | inl some_there ↦ ground (arith, h, some_there)
  | inr none_there ↦ ground (arith, h, none_there, keep_none (λ e. axis e == k) es none_there)
]

apply_at-tally :
    (axis : CacheEvent → String) (e : CacheEvent) (es : List CacheEvent)
    (m : List (String × Bucket))
    → ((k : String) → get k m ≡ tally_at axis k es)
    → length (e ∷ es) < 2 ^ 64
    → (k : String) → get k (apply_at (axis e) e m) ≡ tally_at axis k (e ∷ es)
unfolding apply_at tally_at
apply_at-tally axis e es m h small k = elim (Bool-cases (axis e == k)) [
  | inl same ↦
      let mine = keep_if (λ e. axis e == k) es in
      ground (
        arith,
        same,
        get-insert (axis e) k (apply e (bucket (axis e) m)) m,
        ap (λ j. apply e (bucket j m)) ((string_eq.same_iff (axis e) k).0 same),
        ap (apply e) (bucket-tally axis k es m (h k)),
        apply-tally e mine (omega (arith, small, length-keep_if (λ e. axis e == k) es)),
      )
  | inr other ↦ ground (arith, other, get-insert (axis e) k (apply e (bucket (axis e) m)) m, h k)
]

-- As long as fewer than 2 ^ 64 events have been recorded, in any order, the telemetry is that of their
-- log: each global counter is the number of events of its kind, and on each axis (worker, repository,
-- profile) a key has an entry exactly if an event has it, with the counters of just these events.
pub recorded-Refines : (es : List CacheEvent) → length es < 2 ^ 64 → Refines (recorded es) es
unfolding recorded get
recorded-Refines [] small = record {
  global = unfold tally in refl;
  by_worker = λ k. unfold tally_at in refl;
  by_repo = λ k. unfold tally_at in refl;
  by_profile = λ k. unfold tally_at in refl;
}
recorded-Refines (e ∷ es) small =
    let before = recorded-Refines es (omega (arith, small)) in
    let t = recorded es in
    record {
      global = ap (apply e) before.global ∙ apply-tally e es small;
      by_worker = apply_at-tally (λ e. e.worker) e es t.by_worker before.by_worker small;
      by_repo = apply_at-tally (λ e. e.repo) e es t.by_repo before.by_repo small;
      by_profile = apply_at-tally (λ e. e.profile) e es t.by_profile before.by_profile small;
    }
