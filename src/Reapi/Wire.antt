-- ===== src/Reapi/Wire.antt =====
-- The wire helpers and the `Decoder` of src/reapi.rs.
use qontinui_supervisor.Prelude.{
  ℕ, zero, suc, ◌+◌, ◌*◌, ◌^◌, ◌%◌, ◌/◌, List, [], ◌∷◌, ◌++◌, eqb, ltb, leb, if◌then◌else◌, length,
  drop,
}

pub data WireError : Type 0 where
  varint_truncated varint_overflow length_delimited_truncated : WireError
  unsupported_wire_type : ℕ → WireError
  out_of_fuel : WireError  -- of the model: never returned, see the theorems

pub data Result {ℓ} (A : Type ℓ) : Type ℓ where
  ok : A → Result A
  err : WireError → Result A

infixl 5 ◌>>=◌
abbrev pub ◌>>=◌ {ℓ κ} : {A : Type ℓ} {B : Type κ} → Result A → (A → Result B) → Result B
ok a >>= f = f a
err e >>= f = err e

-- `put_varint`, on fuel; a `u64` has ten groups of seven bits at most.
unfoldable pub varint_bytes : ℕ → ℕ → List ℕ
varint_bytes zero v = []
varint_bytes (suc fuel) v =
    let rest = varint_bytes fuel (v / 128) in
    if eqb (v / 128) 0 then v % 128 ∷ [] else (v % 128 + 128) ∷ rest

unfoldable pub put_varint : ℕ → List ℕ
unfolding varint_bytes
put_varint v = varint_bytes 10 v

-- `((field << 3) | wire) as u64`, where `wire` is below 8.
unfoldable pub put_tag : ℕ → ℕ → List ℕ
unfolding put_varint
put_tag field wire = put_varint ((field * 8) % 2 ^ 32 + wire)

unfoldable pub put_len_delimited : ℕ → List ℕ → List ℕ
unfolding put_tag
put_len_delimited field payload = put_tag field 2 ++ (put_varint (length payload) ++ payload)

-- The loop of `read_varint`. `result` has no bit at `shift` or above, so `|` adds.
unfoldable pub read_groups : ℕ → ℕ → List ℕ → Result (ℕ × List ℕ)
read_groups result shift [] = err varint_truncated
read_groups result shift (byte ∷ rest) =
    let result' = result + (byte % 128 * 2 ^ shift) % 2 ^ 64 in
    let more = read_groups result' (shift + 7) rest in
    if ltb (byte % 256) 128
    then ok (result', rest)
    else if leb 64 (shift + 7)
    then err varint_overflow
    else more

unfoldable pub read_varint : List ℕ → Result (ℕ × List ℕ)
unfolding read_groups
read_varint bytes = read_groups 0 0 bytes

abbrev pub take : ℕ → List ℕ → List ℕ
take zero xs = []
take (suc n) [] = []
take (suc n) (x ∷ xs) = x ∷ take n xs

unfoldable pub read_len_delimited : List ℕ → Result (List ℕ × List ℕ)
unfolding read_varint
read_len_delimited bytes = do
  (len, rest) ← read_varint bytes
  if leb len (length rest)
      then ok (take len rest, drop len rest)
      else err length_delimited_truncated

-- Fixed-width fields move the position on, past the end if there are too few bytes; nothing is left
-- to read then.
unfoldable pub skip : ℕ → List ℕ → Result (List ℕ)
unfolding read_varint read_len_delimited
skip wire bytes =
    if eqb wire 0
    then (do (v, rest) ← read_varint bytes; ok rest)
    else if eqb wire 2
    then (do (payload, rest) ← read_len_delimited bytes; ok rest)
    else if eqb wire 1
    then ok (drop 8 bytes)
    else if eqb wire 5
    then ok (drop 4 bytes)
    else err (unsupported_wire_type wire)

-- `while let Some((field, wire)) = d.next_tag()?` with the body `handle`. Each tag takes a byte, so the
-- number of bytes is fuel enough.
unfoldable pub fields :
    {S : Type 0} → (ℕ → ℕ → S → List ℕ → Result (S × List ℕ)) → ℕ → S → List ℕ → Result S
unfolding read_varint
fields handle fuel s [] = ok s
fields handle zero s (byte ∷ bytes) = err out_of_fuel
fields handle (suc fuel) s (byte ∷ bytes) = read_varint (byte ∷ bytes) >>= λ t.
    handle (t.0 / 8 % 2 ^ 32) (t.0 % 8) s t.1 >>= λ r. fields handle fuel r.0 r.1
