-- ===== src/LkgCoverage/Query.antt =====
-- A query that names paths is read back as those paths (src/routes/lkg_coverage.rs).
use qontinui_supervisor.Prelude.{
  ℕ, ◌+◌, ◌/◌, ◌%◌, ◌<◌, ◌≡◌, refl, sym, ap, ◌∙◌, arith, Bool, true, false, some, List, [], ◌∷◌,
  ◌++◌, ltb, eqb, eqb_iff, if◌then◌else◌, All, Bool-cases, inl, inr,
}
use qontinui_supervisor.LkgCoverage.Params.{
  Bytes, hex_val, hex_pair, decode, split, split_once, percent_decode, take_path, collect_paths,
  parse_path_params,
}

abbrev pub hex_digit : ℕ → ℕ
hex_digit n = if ltb n 10 then 48 + n else 55 + n

-- An encoder of queries: each byte that is not kept is written as `%XX`.
abbrev pub encode : (ℕ → Bool) → Bytes → Bytes
encode keep [] = []
encode keep (b ∷ bs) =
    let rest = encode keep bs in
    if keep b then b ∷ rest else 37 ∷ hex_digit (b / 16) ∷ hex_digit (b % 16) ∷ rest

hex_val-hex_digit : (n : ℕ) → n < 16 → hex_val (hex_digit n) ≡ some n
unfolding hex_val
hex_val-hex_digit n h = ground arith

-- A byte that is neither `%` nor `+` stands for itself.
decode-plain :
    (b : ℕ) (bs : Bytes) → eqb b 37 ≡ false → eqb b 43 ≡ false → decode (b ∷ bs) ≡ b ∷ decode bs
unfolding decode
decode-plain b [] p q = ground (arith, p, q)
decode-plain b (c ∷ []) p q = ground (arith, p, q)
decode-plain b (c ∷ d ∷ bs) p q = rw (p, q) refl

decode-escape :
    (b : ℕ) (bs : Bytes)
    → b < 256
    → decode (37 ∷ hex_digit (b / 16) ∷ hex_digit (b % 16) ∷ bs) ≡ b ∷ decode bs
unfolding decode hex_pair
decode-escape b bs h =
    rw (hex_val-hex_digit (b / 16) (omega arith), hex_val-hex_digit (b % 16) (omega arith))
      (ap (λ x. x ∷ decode bs) (omega arith))

-- The encoder escapes at least `%`, `+` and `&`.
pub record Escapes (keep : ℕ → Bool) : Type 0 where
  pub percent : keep 37 ≡ false
  pub plus : keep 43 ≡ false
  pub ampersand : keep 38 ≡ false

module _ (keep : ℕ → Bool) (esc : Escapes keep) where
  kept : (b c : ℕ) → keep c ≡ false → keep b ≡ true → eqb b c ≡ false
  kept b c h k = elim (Bool-cases (eqb b c)) [
    | inr n ↦ n
    | inl y ↦ (let e : b ≡ c = (eqb_iff b c).0 y in absurd (cc (sym h ∙ (ap keep (sym e) ∙ k))))
  ]

  decode-encode : (s : Bytes) → All (λ b. b < 256) s → decode (encode keep s) ≡ s
  decode-encode [] h = unfold decode in refl
  decode-encode (b ∷ s) h = elim (Bool-cases (keep b)) [
    | inl y ↦ rw y (
        decode-plain b (encode keep s) (kept b 37 esc.percent y) (kept b 43 esc.plus y)
        ∙ ap (λ x. b ∷ x) (decode-encode s h.1))
    | inr n ↦ rw n (decode-escape b (encode keep s) h.0 ∙ ap (λ x. b ∷ x) (decode-encode s h.1))
  ]

abbrev pub OnePiece : Bytes → Type 0
OnePiece s = All (λ b. eqb b 38 ≡ false) s

split-one : (s : Bytes) → OnePiece s → split 38 s ≡ s ∷ []
unfolding split
split-one [] h = refl
split-one (b ∷ s) h = rw (h.0, split-one s h.1) refl

split-append : (s r : Bytes) → OnePiece s → split 38 (s ++ (38 ∷ r)) ≡ s ∷ split 38 r
unfolding split
split-append [] r h = refl
split-append (b ∷ s) r h = rw (h.0, split-append s r h.1) refl

-- `path=` and a path, encoded.
abbrev pub pair_of : (ℕ → Bool) → Bytes → Bytes
pair_of keep p = 112 ∷ 97 ∷ 116 ∷ 104 ∷ 61 ∷ encode keep p

abbrev pub query_from : (ℕ → Bool) → Bytes → List Bytes → Bytes
query_from keep p [] = pair_of keep p
query_from keep p (q ∷ ps) = pair_of keep p ++ (38 ∷ query_from keep q ps)

-- The query of some paths.
abbrev pub query : (ℕ → Bool) → List Bytes → Bytes
query keep [] = []
query keep (p ∷ ps) = query_from keep p ps

hex_digit-plain : (n : ℕ) → n < 16 → eqb (hex_digit n) 38 ≡ false
hex_digit-plain n h = ground arith

module _ (lossy : Bytes → Bytes) (keep : ℕ → Bool) (esc : Escapes keep) where
  -- Bytes of valid UTF-8, which the repair leaves alone.
  abbrev pub IsText : Bytes → Type 0
  IsText p = All (λ b. b < 256) p × (lossy p ≡ p)

  encode-OnePiece : (p : Bytes) → All (λ b. b < 256) p → OnePiece (encode keep p)
  encode-OnePiece [] h = tt
  encode-OnePiece (b ∷ p) h = elim (Bool-cases (keep b)) [
    | inl y ↦ rw y (kept keep esc b 38 esc.ampersand y, encode-OnePiece p h.1)
    | inr n ↦ rw n (
      refl,
      (
        hex_digit-plain (b / 16) (omega (arith, h.0)),
        (hex_digit-plain (b % 16) (omega arith), encode-OnePiece p h.1),
      ),
    )
  ]

  collect-pair :
      (p : Bytes) (rest : List Bytes)
      → IsText p
      → collect_paths lossy (pair_of keep p ∷ rest) ≡ p ∷ collect_paths lossy rest
  unfolding collect_paths take_path split_once percent_decode
  collect-pair p rest h = rw (decode-encode keep esc p h.0, h.1) refl

  collect-query :
      (p : Bytes) (ps : List Bytes)
      → IsText p
      → All IsText ps
      → collect_paths lossy (split 38 (query_from keep p ps)) ≡ p ∷ ps
  collect-query p [] h hs =
      ap (collect_paths lossy)
        (split-one (pair_of keep p) (refl, (refl, (refl, (refl, (refl, encode-OnePiece p h.0))))))
      ∙ (collect-pair p [] h ∙ ap (λ x. p ∷ x) (unfold collect_paths in refl))
  collect-query p (q ∷ ps) h hs =
      ap (collect_paths lossy) (
        split-append (pair_of keep p) (query_from keep q ps)
          (refl, (refl, (refl, (refl, (refl, encode-OnePiece p h.0))))))
      ∙ (collect-pair p _ h ∙ ap (λ x. p ∷ x) (collect-query q ps hs.0 hs.1))

  -- The paths that a query names are read back as they are, in their order, whatever bytes the client
  -- chooses to escape besides `%`, `+` and `&`: if the paths are valid UTF-8.
  pub parse_path_params-query :
      (paths : List Bytes)
      → All IsText paths
      → parse_path_params lossy (some (query keep paths)) ≡ paths
  unfolding parse_path_params
  parse_path_params-query [] h = unfold collect_paths split take_path split_once in refl
  parse_path_params-query (p ∷ ps) h = collect-query p ps h.0 h.1
