-- ===== src/Reapi.antt =====
-- The wire format of cached action results (src/reapi.rs). A byte is a number below 256, and the
-- decoder is the list of the bytes that it has not read yet. `Utf8` is the conversion between texts
-- and bytes of the standard library.
pub mod Wire
pub mod Varint
pub mod RoundTrip
pub mod Results
pub mod Fuel
mod Tests
use qontinui_supervisor.Prelude.{
  ℕ, zero, suc, ◌+◌, ◌*◌, ◌^◌, ◌%◌, ◌/◌, ◌-◌, ◌≡◌, ℤ, pos, negsuc, Bool, true, false, List, [], ◌∷◌,
  ◌++◌, ◌&&◌, eqb, ltb, if◌then◌else◌, length, not,
}
use Wire.{
  Result, ok, err, ◌>>=◌, out_of_fuel, put_tag, put_varint, put_len_delimited, read_varint,
  read_len_delimited, skip, fields,
}

pub record Utf8 : Type 1 where
  pub Text : Type 0
  pub empty : Text
  pub as_bytes : Text → List ℕ
  pub from_utf8_lossy : List ℕ → Text
  pub lossy-as_bytes : (s : Text) → from_utf8_lossy (as_bytes s) ≡ s

-- `as u64` of a signed integer, and `as i64`, `as i32` of a `u64`.
unfoldable pub as_u64 : ℤ → ℕ
as_u64 (pos n) = n % 2 ^ 64
as_u64 (negsuc n) = (2 ^ 64 - 1 - n % 2 ^ 64) % 2 ^ 64

unfoldable pub as_i64 : ℕ → ℤ
as_i64 v = let w = v % 2 ^ 64 in if ltb w (2 ^ 63) then pos w else negsuc (2 ^ 64 - 1 - w)

unfoldable pub as_i32 : ℕ → ℤ
as_i32 v = let w = v % 2 ^ 32 in if ltb w (2 ^ 31) then pos w else negsuc (2 ^ 32 - 1 - w)

module _ (U : Utf8) where
  open U use {Text, empty, as_bytes, from_utf8_lossy}

  pub record Digest : Type 0 where
    pub hash : Text
    pub size_bytes : ℤ

  pub record OutputFile : Type 0 where
    pub path : Text
    pub digest : Digest
    pub is_executable : Bool

  pub record ActionResult : Type 0 where
    pub output_files : List OutputFile
    pub exit_code : ℤ

  abbrev pub is_zero : ℤ → Bool
  is_zero (pos n) = eqb n 0
  is_zero (negsuc n) = false

  -- The part of `Digest.encode` after the hash.
  unfoldable pub encode_size : ℤ → List ℕ
  encode_size size = if is_zero size then [] else put_tag 2 0 ++ put_varint (as_u64 size)

  unfoldable pub encode_digest : Digest → List ℕ
  unfolding encode_size
  encode_digest d = put_len_delimited 1 (as_bytes d.hash) ++ encode_size d.size_bytes

  unfoldable pub encode_executable : Bool → List ℕ
  encode_executable b = if b then put_tag 4 0 ++ put_varint 1 else []

  unfoldable pub encode_file : OutputFile → List ℕ
  unfolding encode_executable encode_digest
  encode_file f =
      put_len_delimited 1 (as_bytes f.path)
      ++ (put_len_delimited 2 (encode_digest f.digest) ++ encode_executable f.is_executable)

  unfoldable pub encode_files : List OutputFile → List ℕ
  encode_files [] = []
  encode_files (f ∷ files) = put_len_delimited 2 (encode_file f) ++ encode_files files

  unfoldable pub encode_exit_code : ℤ → List ℕ
  encode_exit_code code = if is_zero code then [] else put_tag 9 0 ++ put_varint (as_u64 code)

  unfoldable pub encode : ActionResult → List ℕ
  unfolding encode_files encode_exit_code
  encode a = encode_files a.output_files ++ encode_exit_code a.exit_code

  -- The bodies of the three `while let` loops.
  unfoldable pub digest_field : ℕ → ℕ → Digest → List ℕ → Result (Digest × List ℕ)
  digest_field field wire d bytes =
      if eqb field 1 && eqb wire 2
      then (do
        (payload, rest) ← read_len_delimited bytes
        ok (record d { hash = from_utf8_lossy payload }, rest))
      else if eqb field 2 && eqb wire 0
      then (do (v, rest) ← read_varint bytes; ok (record d { size_bytes = as_i64 v }, rest))
      else (do rest ← skip wire bytes; ok (d, rest))

  unfoldable pub decode_digest : List ℕ → Result Digest
  unfolding fields digest_field
  decode_digest bytes =
      fields digest_field (length bytes) (record { hash = empty; size_bytes = pos 0 }) bytes

  unfoldable pub file_field : ℕ → ℕ → OutputFile → List ℕ → Result (OutputFile × List ℕ)
  file_field field wire f bytes =
      if eqb field 1 && eqb wire 2
      then (do
        (payload, rest) ← read_len_delimited bytes
        ok (record f { path = from_utf8_lossy payload }, rest))
      else if eqb field 2 && eqb wire 2
      then (do
        (payload, rest) ← read_len_delimited bytes
        d ← decode_digest payload
        ok (record f { digest = d }, rest))
      else if eqb field 4 && eqb wire 0
      then (do (v, rest) ← read_varint bytes; ok (record f { is_executable = not (eqb v 0) }, rest))
      else (do rest ← skip wire bytes; ok (f, rest))

  unfoldable pub decode_file : List ℕ → Result OutputFile
  unfolding fields file_field
  decode_file bytes =
      fields file_field (length bytes)
        (record {
          path = empty;
          digest = record { hash = empty; size_bytes = pos 0 };
          is_executable = false;
        })
        bytes

  unfoldable pub result_field : ℕ → ℕ → ActionResult → List ℕ → Result (ActionResult × List ℕ)
  result_field field wire a bytes =
      if eqb field 2 && eqb wire 2
      then (do
        (payload, rest) ← read_len_delimited bytes
        f ← decode_file payload
        ok (record a { output_files = a.output_files ++ f ∷ [] }, rest))
      else if eqb field 9 && eqb wire 0
      then (do (v, rest) ← read_varint bytes; ok (record a { exit_code = as_i32 v }, rest))
      else (do rest ← skip wire bytes; ok (a, rest))

  unfoldable pub decode : List ℕ → Result ActionResult
  unfolding fields result_field
  decode bytes =
      fields result_field (length bytes) (record { output_files = []; exit_code = pos 0 }) bytes
