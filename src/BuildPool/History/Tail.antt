-- ===== src/BuildPool/History/Tail.antt =====
-- The tails of texts that src/state.rs keeps, as UTF-8.
use qontinui_supervisor.Prelude.{
  ℕ, zero, suc, ◌+◌, ◌-◌, ◌≤◌, ◌<◌, ◌≡◌, ◌∙◌, inl, inr, refl, ap, true, false, none, some, List, [],
  ◌∷◌, ◌++◌, arith, if◌then◌else◌, length, length-append, length-drop, drop, get_elem?, All,
  Bool-cases, Option-cases, leb, leb→le, leb→lt,
}
use qontinui_supervisor.BuildPool.History.{
  last_error_detail_max_bytes, is_continuation, next_boundary, tail_bytes_keep_utf8, marker,
  truncate_error_detail_keep_tail,
}

-- A character: a first byte, and at most three that continue it.
pub record Utf8Char : Type 0 where
  pub first : ℕ
  pub more : List ℕ
  pub starts : is_continuation first ≡ false
  pub continues : All (λ b. is_continuation b ≡ true) more
  pub short : length more ≤ 3

abbrev pub encode : List Utf8Char → List ℕ
encode [] = []
encode (c ∷ cs) = (c.first ∷ c.more) ++ encode cs

abbrev skip_continuation : List ℕ → List ℕ
skip_continuation [] = []
skip_continuation (b ∷ bs) =
    let rest = skip_continuation bs in if is_continuation b then rest else b ∷ bs

drop-get_elem? {ℓ} :
    {A : Type ℓ} (s : List A) (i : ℕ)
    → ((a : A) → get_elem? s i ≡ some a → drop i s ≡ a ∷ drop (suc i) s)
      × (get_elem? s i ≡ none → drop i s ≡ [])
      × ((a : A) → get_elem? s i ≡ some a → i < length s)
      × (get_elem? s i ≡ none → length s ≤ i)
drop-get_elem? [] zero = ground arith
drop-get_elem? [] (suc i) = ground arith
drop-get_elem? (x ∷ s) zero = ground arith
drop-get_elem? (x ∷ s) (suc i) = ground (arith, drop-get_elem? s i)

-- From a cut on, the loop skips the bytes that continue a character.
drop-next_boundary :
    (fuel : ℕ) (s : List ℕ) (cut : ℕ)
    → 0 < cut
    → length s ≤ cut + fuel
    → drop (next_boundary fuel s cut) s ≡ skip_continuation (drop cut s)
unfolding next_boundary
drop-next_boundary fuel s zero h enough = absurd (omega (arith, h))
drop-next_boundary zero s (suc cut) h enough = elim (Option-cases (get_elem? s (suc cut))) [
  | inl out ↦ rw ((drop-get_elem? s (suc cut)).1 out) refl
  | inr (b, at) ↦ absurd (omega (arith, enough, (drop-get_elem? s (suc cut)).2 b at))
]
drop-next_boundary (suc fuel) s (suc cut) h enough = elim (Option-cases (get_elem? s (suc cut))) [
  | inl out ↦ ground (arith, (drop-get_elem? s (suc cut)).1 out, (drop-get_elem? s (suc cut)).3 out)
  | inr (b, at) ↦ ground (
    arith,
    at,
    (drop-get_elem? s (suc cut)).0 b at,
    (drop-get_elem? s (suc cut)).2 b at,
    drop-next_boundary fuel s (suc (suc cut)) (omega arith) (omega (arith, enough)),
  )
]

skip_continues :
    (ks t : List ℕ) (m : ℕ)
    → All (λ b. is_continuation b ≡ true) ks
    → m ≤ length ks
    → skip_continuation (drop m (ks ++ t)) ≡ skip_continuation t
skip_continues [] t zero all h = refl
skip_continues [] t (suc m) all h = absurd (omega (arith, h))
skip_continues (k ∷ ks) t zero all h =
    ground (arith, all.0, skip_continues ks t zero all.1 (omega arith))
skip_continues (k ∷ ks) t (suc m) all h = skip_continues ks t m all.1 (omega (arith, h))

drop_past : (ks t : List ℕ) (m : ℕ) → length ks ≤ m → drop m (ks ++ t) ≡ drop (m - length ks) t
drop_past [] t m h = rw (minus_zero m) refl
  where
    minus_zero : (m : ℕ) → m - 0 ≡ m
    minus_zero m = omega arith
drop_past (k ∷ ks) t zero h = absurd (omega (arith, h))
drop_past (k ∷ ks) t (suc m) h = drop_past ks t m (omega (arith, h)) ∙ rw (same m (length ks)) refl
  where
    same : (m n : ℕ) → suc m - suc n ≡ m - n
    same m n = omega arith

skip-encode : (cs : List Utf8Char) → skip_continuation (encode cs) ≡ encode cs
skip-encode [] = refl
skip-encode (c ∷ cs) = ground (arith, c.starts)

-- What is left of a text after a cut at `n` that is moved to a boundary.
abbrev Left : List Utf8Char → ℕ → Type 0
Left cs n =
    (cs' : List Utf8Char) × (skip_continuation (drop n (encode cs)) ≡ encode cs')
    × (length (encode cs) ≤ length (encode cs') + n + 3)

skip-Left : (cs : List Utf8Char) (n : ℕ) → Left cs n
skip-Left [] zero = ([], refl, omega arith)
skip-Left [] (suc n) = ([], refl, omega arith)
skip-Left (c ∷ cs) zero = (c ∷ cs, skip-encode (c ∷ cs), omega arith)
skip-Left (c ∷ cs) (suc m) = elim (Bool-cases (leb m (length c.more))) [
  | inl inside ↦ (
    cs,
    skip_continues c.more (encode cs) m c.continues (leb→le _ _ inside) ∙ skip-encode cs,
    omega (arith, c.short, length-append c.more (encode cs)),
  )
  | inr past ↦
      let h = leb→lt _ _ past in
      let (cs', e, l) = skip-Left cs (m - length c.more) in
      (
        cs',
        ap skip_continuation (drop_past c.more (encode cs) m (omega (arith, h))) ∙ e,
        omega (arith, h, l, length-append c.more (encode cs)),
      )
]

length-skip : (s : List ℕ) → length (skip_continuation s) ≤ length s
length-skip [] = omega arith
length-skip (b ∷ bs) = ground (arith, length-skip bs)

-- A cut so that at most `max` bytes are left, moved to a boundary.
cut-encode :
    (cs : List Utf8Char) (max : ℕ)
    → max < length (encode cs)
    → let r =
        drop
          (next_boundary (length (encode cs)) (encode cs) (length (encode cs) - max))
          (encode cs) in
      (cs' : List Utf8Char) × (r ≡ encode cs') × (length r ≤ max) × (max ≤ length r + 3)
cut-encode cs max h =
    let s = encode cs in
    let n = length s - max in
    let (cs', e, l) = skip-Left cs n in
    let moved = drop-next_boundary (length s) s n (omega (arith, h)) (omega arith) in
    (
      cs',
      moved ∙ e,
      omega (arith, h, ap length moved, length-skip (drop n s), length-drop n s),
      omega (arith, h, ap length (moved ∙ e), l),
    )

-- The text `r` is an end of the valid text `s`, with at most `max` bytes and almost as many as fit.
pub record IsTail (s r : List ℕ) (max : ℕ) : Type 0 where
  pub suffix : (n : ℕ) × (r ≡ drop n s)
  pub valid : (cs : List Utf8Char) × (r ≡ encode cs)
  pub fits : length r ≤ max
  pub nearly_full : max < length s → max ≤ length r + 3
  pub whole : length s ≤ max → r ≡ s

-- Of a valid text, `tail_bytes_keep_utf8` keeps an end that is a valid text again and has at most
-- `max_bytes` bytes: the whole text if it fits, and otherwise at most three bytes less than
-- `max_bytes`.
pub tail_bytes_keep_utf8-IsTail :
    (cs : List Utf8Char) (max_bytes : ℕ)
    → IsTail (encode cs) (tail_bytes_keep_utf8 (encode cs) max_bytes) max_bytes
unfolding tail_bytes_keep_utf8
tail_bytes_keep_utf8-IsTail cs max = elim (Bool-cases (leb (length (encode cs)) max)) [
  | inl all ↦ rw all (record {
    suffix = (0, refl);
    valid = (cs, refl);
    fits = leb→le _ _ all;
    nearly_full = λ h. absurd (omega (arith, h, leb→le _ _ all));
    whole = λ h. refl;
  })
  | inr over ↦
      let (cs', valid, fits, full) = cut-encode cs max (leb→lt _ _ over) in
      rw over (record {
        suffix = (next_boundary (length (encode cs)) (encode cs) (length (encode cs) - max), refl);
        valid = (cs', valid);
        fits = fits;
        nearly_full = λ h. full;
        whole = λ h. absurd (omega (arith, h, leb→lt _ _ over));
      })
]

-- The detail of an error is kept whole if it has at most `LAST_ERROR_DETAIL_MAX_BYTES` bytes. A longer
-- one, if it is valid, becomes the marker and a valid end of it, which together have more bytes than
-- that, by at least twelve and at most fifteen.
pub truncate_error_detail_keep_tail_lem :
    (cs : List Utf8Char)
    → let r = truncate_error_detail_keep_tail (encode cs) in
      (length (encode cs) ≤ last_error_detail_max_bytes → r ≡ encode cs)
      × (last_error_detail_max_bytes < length (encode cs)
          → (cs' : List Utf8Char) × (r ≡ marker ++ encode cs')
            × (last_error_detail_max_bytes + 12 ≤ length r)
            × (length r ≤ last_error_detail_max_bytes + 15))
unfolding truncate_error_detail_keep_tail
truncate_error_detail_keep_tail_lem cs = (
  λ h. ground (arith, h),
  λ h.
      let (cs', valid, fits, full) = cut-encode cs last_error_detail_max_bytes h in
      let over = not_le (length (encode cs)) last_error_detail_max_bytes h in
      rw over (cs', ap (λ t. marker ++ t) valid, omega (arith, full), omega (arith, fits)),
)
  where
    not_le : (a b : ℕ) → b < a → leb a b ≡ false
    not_le a b h = ground (arith, h)
