-- ===== src/Submission/Eviction.antt =====
-- The eviction loop of `insert` in src/build_submissions.rs over any list of candidates.
use qontinui_supervisor.Prelude.{
  ℕ, zero, suc, ◌+◌, ◌≡◌, refl, sym, ap, ◌⊎◌, inl, inr, true, false, List, [], ◌∷◌, map, arith,
  Bool-cases, leb, eqb, eqb_iff, if◌then◌else◌, length, In, Distinct, All,
}
use qontinui_supervisor.Submission.Store.{Candidate, remove_key, evict}

abbrev pub ids : List Candidate → List ℕ
ids = map (λ c. c.id)

-- The first `n` candidates in a terminal state.
unfoldable pub victims : ℕ → List Candidate → List ℕ
victims zero cs = []
victims (suc n) [] = []
victims (suc n) (c ∷ cs) =
    let drop_it = c.id ∷ victims n cs in
    let skip = victims (suc n) cs in if c.is_term then drop_it else skip

unfoldable pub remove_keys : List ℕ → List ℕ → List ℕ
unfolding remove_key
remove_keys [] keys = keys
remove_keys (v ∷ vs) keys = remove_keys vs (remove_key v keys)

pub evict-eq-remove_keys :
    (n t r : ℕ) (cs : List Candidate) (keys : List ℕ)
    → t ≡ r + n
    → evict t r cs keys ≡ remove_keys (victims n cs) keys
unfolding evict remove_keys victims
evict-eq-remove_keys zero t r [] keys h = refl
evict-eq-remove_keys (suc n) t r [] keys h = refl
evict-eq-remove_keys zero t r (c ∷ cs) keys h = ground arith
evict-eq-remove_keys (suc n) t r (c ∷ cs) keys h = elim (Bool-cases c.is_term) [
  | inl e ↦ rw (e, below) (evict-eq-remove_keys n t (r + 1) cs (remove_key c.id keys) (omega arith))
  | inr e ↦ rw (e, below) (evict-eq-remove_keys (suc n) t r cs keys h)
]
  where
    below : leb t r ≡ false
    below = ground arith

In-remove_key : (k v : ℕ) (keys : List ℕ) → In k (remove_key v keys) → (k ≡ v → ⊥) × In k keys
unfolding remove_key
In-remove_key k v [] h = ground arith
In-remove_key k v (j ∷ keys) h = ground (arith, In-remove_key k v keys)

remove_key-In : (k v : ℕ) (keys : List ℕ) → (k ≡ v → ⊥) → In k keys → In k (remove_key v keys)
unfolding remove_key
remove_key-In k v [] n h = h
remove_key-In k v (j ∷ keys) n h = ground (arith, remove_key-In k v keys n)

remove_key-Distinct : (v : ℕ) (keys : List ℕ) → Distinct keys → Distinct (remove_key v keys)
unfolding remove_key
remove_key-Distinct v [] d = d
remove_key-Distinct v (j ∷ keys) d = elim (Bool-cases (eqb j v)) [
  | inl e ↦ rw e (remove_key-Distinct v keys d.1)
  | inr e ↦ rw e ((λ h. d.0 (In-remove_key j v keys h).1), remove_key-Distinct v keys d.1)
]

remove_key_absent : (v : ℕ) (keys : List ℕ) → (In v keys → ⊥) → remove_key v keys ≡ keys
unfolding remove_key
remove_key_absent v [] h = refl
remove_key_absent v (j ∷ keys) h = ground (arith, remove_key_absent v keys (λ l. h (inr l)))

length-remove_key :
    (v : ℕ) (keys : List ℕ)
    → Distinct keys
    → In v keys
    → suc (length (remove_key v keys)) ≡ length keys
unfolding remove_key
length-remove_key v [] d h = ground arith
length-remove_key v (j ∷ keys) d h = elim (Bool-cases (eqb j v)) [
  | inl e ↦ rw e (ap (λ l. suc (length l)) (remove_key_absent v keys (λ l. d.0 (first e l))))
  | inr e ↦ rw e (ap suc (length-remove_key v keys d.1 (later e h)))
]
  where
    first : eqb j v ≡ true → In v keys → In j keys
    first e l = rw ((eqb_iff j v).0 e) l

    later : eqb j v ≡ false → (v ≡ j) ⊎ In v keys → In v keys
    later e (inl p) = absurd (cc ((eqb_iff j v).1 (sym p)))
    later e (inr l) = l

-- What is left are the keys that are no victims.
pub remove_keys-In :
    (k : ℕ) (vs keys : List ℕ) → (In k vs → ⊥) → In k keys → In k (remove_keys vs keys)
unfolding remove_keys
remove_keys-In k [] keys n h = h
remove_keys-In k (v ∷ vs) keys n h =
    remove_keys-In k vs (remove_key v keys) (λ l. n (inr l))
      (remove_key-In k v keys (λ e. n (inl e)) h)

pub In-remove_keys :
    (k : ℕ) (vs keys : List ℕ) → In k (remove_keys vs keys) → (In k vs → ⊥) × In k keys
unfolding remove_keys
In-remove_keys k [] keys h = ((λ e. e), h)
In-remove_keys k (v ∷ vs) keys h =
    let (not_later, here) = In-remove_keys k vs (remove_key v keys) h in
    let (not_v, was) = In-remove_key k v keys here in
    ((λ m. elim m [ inl e ↦ not_v e | inr l ↦ not_later l ]), was)

pub remove_keys-Distinct : (vs keys : List ℕ) → Distinct keys → Distinct (remove_keys vs keys)
unfolding remove_keys
remove_keys-Distinct [] keys d = d
remove_keys-Distinct (v ∷ vs) keys d =
    remove_keys-Distinct vs (remove_key v keys) (remove_key-Distinct v keys d)

pub length-remove_keys :
    (vs keys : List ℕ)
    → Distinct keys
    → Distinct vs
    → All (λ v. In v keys) vs
    → length (remove_keys vs keys) + length vs ≡ length keys
unfolding remove_keys
length-remove_keys [] keys d dv a = omega arith
length-remove_keys (v ∷ vs) keys d dv a = omega (
  arith,
  length-remove_key v keys d a.0,
  length-remove_keys vs (remove_key v keys) (remove_key-Distinct v keys d) dv.1
      (others vs dv.0 a.1),
)
  where
    others :
        (ws : List ℕ)
        → (In v ws → ⊥)
        → All (λ w. In w keys) ws
        → All (λ w. In w (remove_key v keys)) ws
    others [] n b = tt
    others (w ∷ ws) n b =
        (remove_key-In w v keys (λ e. n (inl (sym e))) b.0, others ws (λ l. n (inr l)) b.1)
