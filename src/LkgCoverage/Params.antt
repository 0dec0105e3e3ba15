-- ===== src/LkgCoverage/Params.antt =====
-- The paths of a query (src/routes/lkg_coverage.rs, `parse_path_params`). A text is its bytes, and the
-- repair of invalid UTF-8 is a parameter.
use qontinui_supervisor.Prelude.{
  ℕ, ◌+◌, ◌-◌, ◌*◌, Bool, true, false, Option, none, some, List, [], ◌∷◌, ◌&&◌, leb, eqb,
  if◌then◌else◌,
}

abbrev pub Bytes : Type 0
Bytes = List ℕ

unfoldable pub hex_val : ℕ → Option ℕ
hex_val b =
    if leb 48 b && leb b 57
    then some (b - 48)
    else if leb 97 b && leb b 102
    then some (b - 97 + 10)
    else if leb 65 b && leb b 70
    then some (b - 65 + 10)
    else none

-- A byte from its two digits.
unfoldable pub hex_pair : Option ℕ → Option ℕ → Option ℕ
hex_pair (some h) (some l) = some (h * 16 + l)
hex_pair _ none = none
hex_pair none _ = none

abbrev pub literal : ℕ → ℕ
literal b = if eqb b 43 then 32 else b

-- The loop of `percent_decode`; `%` is 37 and `+` is 43.
unfoldable pub decode : Bytes → Bytes
unfolding hex_pair hex_val
decode [] = []
decode (b ∷ []) = literal b ∷ []
decode (b ∷ c ∷ []) = literal b ∷ decode (c ∷ [])
decode (b ∷ c ∷ d ∷ bs) =
    let rest = decode (c ∷ d ∷ bs) in
    let after = decode bs in
    if eqb b 37
    then elim (hex_pair (hex_val c) (hex_val d)) [ some v ↦ v ∷ after | none ↦ b ∷ rest ]
    else literal b ∷ rest

abbrev pub attach : ℕ → List Bytes → List Bytes
attach b [] = (b ∷ []) ∷ []
attach b (p ∷ ps) = (b ∷ p) ∷ ps

-- `split`, which gives one piece at least.
unfoldable pub split : ℕ → Bytes → List Bytes
split sep [] = [] ∷ []
split sep (b ∷ bs) = let rest = split sep bs in if eqb b sep then [] ∷ rest else attach b rest

abbrev pub push_key : ℕ → Option (Bytes × Bytes) → Option (Bytes × Bytes)
push_key b none = none
push_key b (some (k, v)) = some (b ∷ k, v)

unfoldable pub split_once : ℕ → Bytes → Option (Bytes × Bytes)
split_once sep [] = none
split_once sep (b ∷ bs) =
    let rest = split_once sep bs in if eqb b sep then some ([], bs) else push_key b rest

abbrev pub same_bytes : Bytes → Bytes → Bool
same_bytes [] [] = true
same_bytes (a ∷ as_) (b ∷ bs) = let rest = same_bytes as_ bs in if eqb a b then rest else false
same_bytes _ _ = false

-- "path"
abbrev pub path_key : Bytes
path_key = 112 ∷ 97 ∷ 116 ∷ 104 ∷ []

module _ (lossy : Bytes → Bytes) where
  unfoldable pub percent_decode : Bytes → Bytes
  unfolding decode
  percent_decode s = lossy (decode s)

  unfoldable pub take_path : Option (Bytes × Bytes) → List Bytes → List Bytes
  unfolding percent_decode
  take_path none out = out
  take_path (some (k, v)) out = if same_bytes k path_key then percent_decode v ∷ out else out

  unfoldable pub collect_paths : List Bytes → List Bytes
  unfolding take_path split_once
  collect_paths [] = []
  collect_paths (pair ∷ pairs) = take_path (split_once 61 pair) (collect_paths pairs)

  unfoldable pub parse_path_params : Option Bytes → List Bytes
  unfolding collect_paths split
  parse_path_params none = []
  parse_path_params (some raw) = collect_paths (split 38 raw)
