-- ===== src/Reapi/Fuel.antt =====
-- The decoding loops of src/reapi.rs end: each step takes bytes off the input.
use qontinui_supervisor.Prelude.{
  ℕ, zero, suc, ◌+◌, ◌*◌, ◌-◌, ◌^◌, ◌%◌, ◌/◌, ◌≤◌, ◌≡◌, ◌≢◌, refl, arith, Bool, true, false, List,
  [], ◌∷◌, ◌&&◌, eqb, ltb, leb, length, length-drop, drop, if◌then◌else◌,
}
use qontinui_supervisor.Reapi.{
  Utf8, Digest, OutputFile, ActionResult, digest_field, decode_digest, file_field, decode_file,
  result_field, decode,
}
use qontinui_supervisor.Reapi.Wire.{
  WireError, Result, ok, err, ◌>>=◌, out_of_fuel, read_groups, read_varint, read_len_delimited,
  skip, fields,
}

abbrev is_fuel : WireError → Bool
is_fuel out_of_fuel = true
is_fuel _ = false

-- The loop has not run out of fuel.
abbrev pub Ends {ℓ} : {A : Type ℓ} → Result A → Type 0
Ends (ok a) = Unit
Ends (err e) = is_fuel e ≡ false

module _ {S : Type 0} where
  -- A read that ends with at most `n` bytes left.
  abbrev Reads : ℕ → Result (S × List ℕ) → Type 0
  Reads n (ok r) = length r.1 ≤ n
  Reads n (err e) = is_fuel e ≡ false

module _ {S T : Type 0} where
  Reads-then :
      (n : ℕ) (m : Result (S × List ℕ)) (k : S × List ℕ → Result (T × List ℕ))
      → Reads n m
      → ((r : S × List ℕ) → length r.1 ≤ n → Reads n (k r))
      → Reads n (m >>= k)
  Reads-then n (ok r) k h f = f r h
  Reads-then n (err e) k h f = h

  Ends-then :
      (n : ℕ) (m : Result T) (k : T → Result (S × List ℕ))
      → Ends m
      → ((r : T) → Reads n (k r))
      → Reads n (m >>= k)
  Ends-then n (ok r) k h f = f r
  Ends-then n (err e) k h f = h

module _ {S T : Type 0} where
  fields_then :
      (n : ℕ) (m : Result (S × List ℕ)) (k : S × List ℕ → Result T)
      → Reads n m
      → ((r : S × List ℕ) → length r.1 ≤ n → Ends (k r))
      → Ends (m >>= k)
  fields_then n (ok r) k h f = f r h
  fields_then n (err e) k h f = h

Reads-if :
    {S : Type 0} (n : ℕ) (b : Bool) (x y : Result (S × List ℕ))
    → Reads n x
    → Reads n y
    → Reads n (if b then x else y)
Reads-if n true x y h k = h
Reads-if n false x y h k = k

-- What is left has at most `n` bytes.
abbrev Left : ℕ → Result (List ℕ) → Type 0
Left n (ok rest) = length rest ≤ n
Left n (err e) = is_fuel e ≡ false

Left-if :
    (n : ℕ) (b : Bool) (x y : Result (List ℕ)) → Left n x → Left n y → Left n (if b then x else y)
Left-if n true x y h k = h
Left-if n false x y h k = k

module _ {S : Type 0} (n : ℕ) where
  Left-of_Reads : (m : Result (S × List ℕ)) → Reads n m → Left n (m >>= λ r. ok r.1)
  Left-of_Reads (ok r) h = h
  Left-of_Reads (err e) h = h

  Reads-of_Left : (m : Result (List ℕ)) (s : S) → Left n m → Reads n (m >>= λ rest. ok (s, rest))
  Reads-of_Left (ok rest) s h = h
  Reads-of_Left (err e) s h = h

weaken : {S : Type 0} {m n : ℕ} (r : Result (S × List ℕ)) → Reads m r → m ≤ n → Reads n r
weaken (ok r) h k = omega (arith, h, k)
weaken (err e) h k = h

read_groups-Reads :
    (bytes : List ℕ) (result shift : ℕ) → Reads (length bytes - 1) (read_groups result shift bytes)
unfolding read_groups
read_groups-Reads [] result shift = refl
read_groups-Reads (byte ∷ rest) result shift = Reads-if _ (ltb (byte % 256) 128) _ _ (omega arith) (
    Reads-if _ (leb 64 (shift + 7)) _ _ refl (
      weaken _ (read_groups-Reads rest (result + (byte % 128 * 2 ^ shift) % 2 ^ 64) (shift + 7))
        (omega arith)))

read_varint-Reads : (bytes : List ℕ) → Reads (length bytes - 1) (read_varint bytes)
unfolding read_varint
read_varint-Reads bytes = read_groups-Reads bytes 0 0

length-drop-le : (n : ℕ) (xs : List ℕ) → length (drop n xs) ≤ length xs
length-drop-le n xs = omega (arith, length-drop n xs)

read_len_delimited-Reads : (bytes : List ℕ) → Reads (length bytes) (read_len_delimited bytes)
unfolding read_len_delimited
read_len_delimited-Reads bytes =
    Reads-then _ (read_varint bytes) _ (weaken _ (read_varint-Reads bytes) (omega arith))
      (λ r h. Reads-if _ (leb r.0 (length r.1)) _ _ (omega (arith, h, length-drop-le r.0 r.1)) refl)

skip-Left : (wire : ℕ) (bytes : List ℕ) → Left (length bytes) (skip wire bytes)
unfolding skip
skip-Left wire bytes =
    Left-if _ (eqb wire 0) _ _
      (Left-of_Reads _ (read_varint bytes) (weaken _ (read_varint-Reads bytes) (omega arith)))
      (Left-if _ (eqb wire 2) _ _
        (Left-of_Reads _ (read_len_delimited bytes) (read_len_delimited-Reads bytes))
        (Left-if _ (eqb wire 1) _ _ (length-drop-le 8 bytes)
          (Left-if _ (eqb wire 5) _ _ (length-drop-le 4 bytes) refl)))

module _ {S : Type 0} (handle : ℕ → ℕ → S → List ℕ → Result (S × List ℕ)) where
  -- If each field is read so, a byte of fuel for each byte of the input is enough.
  fields-Ends :
      ((field wire : ℕ) (s : S) (bytes : List ℕ) → Reads (length bytes) (handle field wire s bytes))
      → (fuel : ℕ) (s : S) (bytes : List ℕ) → length bytes ≤ fuel
      → Ends (fields handle fuel s bytes)
  unfolding fields
  fields-Ends reads zero s [] n = tt
  fields-Ends reads (suc fuel) s [] n = tt
  fields-Ends reads zero s (byte ∷ bytes) n = absurd (omega arith)
  fields-Ends reads (suc fuel) s (byte ∷ bytes) n =
      fields_then (length bytes) (read_varint (byte ∷ bytes)) _
        (weaken _ (read_varint-Reads (byte ∷ bytes)) (omega arith))
        (λ t h.
          fields_then (length t.1) (handle (t.0 / 8 % 2 ^ 32) (t.0 % 8) s t.1) _ (reads _ _ s t.1)
            (λ r k. fields-Ends reads fuel r.0 r.1 (omega (arith, h, k, n))))

Ends-ne : {A : Type 0} (r : Result A) → Ends r → r ≢ err out_of_fuel
Ends-ne (ok a) h e = ground (arith, e)
Ends-ne (err x) h e = ground (arith, e, h)

module _ (U : Utf8) where
  digest_field-Reads :
      (field wire : ℕ) (d : Digest U) (bytes : List ℕ)
      → Reads (length bytes) (digest_field U field wire d bytes)
  unfolding digest_field
  digest_field-Reads field wire d bytes =
      Reads-if _ (eqb field 1 && eqb wire 2) _ _
        (Reads-then _ (read_len_delimited bytes) _ (read_len_delimited-Reads bytes) (λ r h. h))
        (Reads-if _ (eqb field 2 && eqb wire 0) _ _
          (Reads-then _ (read_varint bytes) _ (weaken _ (read_varint-Reads bytes) (omega arith))
            (λ r h. h))
          (Reads-of_Left _ (skip wire bytes) d (skip-Left wire bytes)))

  decode_digest-Ends : (bytes : List ℕ) → Ends (decode_digest U bytes)
  unfolding decode_digest
  decode_digest-Ends bytes = fields-Ends (digest_field U) digest_field-Reads _ _ bytes (omega arith)

  file_field-Reads :
      (field wire : ℕ) (f : OutputFile U) (bytes : List ℕ)
      → Reads (length bytes) (file_field U field wire f bytes)
  unfolding file_field
  file_field-Reads field wire f bytes =
      Reads-if _ (eqb field 1 && eqb wire 2) _ _
        (Reads-then _ (read_len_delimited bytes) _ (read_len_delimited-Reads bytes) (λ r h. h))
        (Reads-if _ (eqb field 2 && eqb wire 2) _ _
          (Reads-then _ (read_len_delimited bytes) _ (read_len_delimited-Reads bytes)
            (λ r h. Ends-then _ (decode_digest U r.0) _ (decode_digest-Ends r.0) (λ d. h)))
          (Reads-if _ (eqb field 4 && eqb wire 0) _ _
            (Reads-then _ (read_varint bytes) _ (weaken _ (read_varint-Reads bytes) (omega arith))
              (λ r h. h))
            (Reads-of_Left _ (skip wire bytes) f (skip-Left wire bytes))))

  decode_file-Ends : (bytes : List ℕ) → Ends (decode_file U bytes)
  unfolding decode_file
  decode_file-Ends bytes = fields-Ends (file_field U) file_field-Reads _ _ bytes (omega arith)

  result_field-Reads :
      (field wire : ℕ) (a : ActionResult U) (bytes : List ℕ)
      → Reads (length bytes) (result_field U field wire a bytes)
  unfolding result_field
  result_field-Reads field wire a bytes =
      Reads-if _ (eqb field 2 && eqb wire 2) _ _
        (Reads-then _ (read_len_delimited bytes) _ (read_len_delimited-Reads bytes)
          (λ r h. Ends-then _ (decode_file U r.0) _ (decode_file-Ends r.0) (λ f. h)))
        (Reads-if _ (eqb field 9 && eqb wire 0) _ _
          (Reads-then _ (read_varint bytes) _ (weaken _ (read_varint-Reads bytes) (omega arith))
            (λ r h. h))
          (Reads-of_Left _ (skip wire bytes) a (skip-Left wire bytes)))

  decode-Ends : (bytes : List ℕ) → Ends (decode U bytes)
  unfolding decode
  decode-Ends bytes = fields-Ends (result_field U) result_field-Reads _ _ bytes (omega arith)

  -- Decoding ends on every input: the loops never use up the number of bytes that they are given as
  -- fuel.
  pub decode-ne-out_of_fuel : (bytes : List ℕ) → decode U bytes ≢ err out_of_fuel
  decode-ne-out_of_fuel bytes e = Ends-ne (decode U bytes) (decode-Ends bytes) e
