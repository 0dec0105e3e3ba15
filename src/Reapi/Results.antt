-- ===== src/Reapi/Results.antt =====
-- The cached action results of src/reapi.rs are decoded as they were encoded.
use qontinui_supervisor.Prelude.{
  ℕ, suc, ◌-◌, ◌^◌, ◌<◌, ◌≤◌, ◌≡◌, refl, ◌∙◌, ap, arith, Bool, true, false, List, [], ◌∷◌, ◌++◌,
  length, length-append, ℤ, pos, negsuc, All, Bool-cases, inl, inr,
}
use mathlib.Core.List.{append_assoc, append-nil}
use qontinui_supervisor.Reapi.{
  Utf8, Digest, OutputFile, ActionResult, as_u64, as_i64, as_i32, is_zero, encode_size,
  encode_digest, encode_executable, encode_file, encode_files, encode_exit_code, encode,
  digest_field, decode_digest, file_field, decode_file, result_field, decode,
}
use qontinui_supervisor.Reapi.Wire.{ok, put_len_delimited, put_varint, fields}
use qontinui_supervisor.Reapi.Varint.{read_varint-put_varint}
use qontinui_supervisor.Reapi.RoundTrip.{
  read_len_delimited-put, fields-nil, fields-put_len_delimited, fields-last_number,
  length-put_len_delimited, length-put_number,
}

-- A signed integer of `w + 1` bits.
abbrev pub Signed : ℕ → ℤ → Type 0
Signed w (pos n) = n < 2 ^ w
Signed w (negsuc n) = n < 2 ^ w

as_i64-as_u64 : (z : ℤ) → Signed 63 z → as_i64 (as_u64 z) ≡ z
unfolding as_i64 as_u64
as_i64-as_u64 (pos n) h = ground arith
as_i64-as_u64 (negsuc n) h = ground arith

as_i32-as_u64 : (z : ℤ) → Signed 31 z → as_i32 (as_u64 z) ≡ z
unfolding as_i32 as_u64
as_i32-as_u64 (pos n) h = ground arith
as_i32-as_u64 (negsuc n) h = ground arith

as_u64-lt : (z : ℤ) → as_u64 z < 2 ^ 64
unfolding as_u64
as_u64-lt (pos n) = omega arith
as_u64-lt (negsuc n) = omega arith

at_least : (n : ℕ) (xs ys : List ℕ) → n ≤ length xs → n ≤ length (xs ++ ys)
at_least n xs ys h = rw (length-append xs ys) (omega (arith, h))

sub_zero : (n : ℕ) → n - 0 ≡ n
sub_zero n = omega arith

sub_suc : (n m : ℕ) → n - 1 - m ≡ n - suc m
sub_suc n m = omega arith

module _ (U : Utf8) where
  open U use {Text, empty, as_bytes, from_utf8_lossy, lossy-as_bytes}

  -- A text shorter than two to the power of 64, as every text is.
  abbrev pub Short : Text → Type 0
  Short t = length (as_bytes t) < 2 ^ 64

  abbrev no_digest : Digest U
  no_digest = record { hash = empty; size_bytes = pos 0 }

  zero_of_is_zero : (z : ℤ) → is_zero U z ≡ true → z ≡ pos 0
  zero_of_is_zero (pos n) e = ap pos (ground arith)
  zero_of_is_zero (negsuc n) e = ground arith

  digest_field-hash :
      (t : Text) (d : Digest U) (rest : List ℕ)
      → Short t
      → digest_field U 1 2 d (put_varint (length (as_bytes t)) ++ (as_bytes t ++ rest))
        ≡ ok (record d { hash = t }, rest)
  unfolding digest_field
  digest_field-hash t d rest h =
      rw (read_len_delimited-put (as_bytes t) rest h, lossy-as_bytes t) refl

  digest_field-size :
      (z : ℤ) (d : Digest U) (rest : List ℕ)
      → Signed 63 z
      → digest_field U 2 0 d (put_varint (as_u64 z) ++ rest)
        ≡ ok (record d { size_bytes = z }, rest)
  unfolding digest_field
  digest_field-size z d rest h =
      rw (read_varint-put_varint (as_u64 z) rest (as_u64-lt z), as_i64-as_u64 z h) refl

  fields-encode_size :
      (fuel : ℕ) (t : Text) (z : ℤ)
      → 1 ≤ fuel
      → Signed 63 z
      → fields (digest_field U) fuel (record { hash = t; size_bytes = pos 0 }) (encode_size U z)
        ≡ ok (record { hash = t; size_bytes = z })
  unfolding encode_size
  fields-encode_size fuel t z h s = elim (Bool-cases (is_zero U z)) [
    | inl e ↦ rw (e, zero_of_is_zero z e) (fields-nil (digest_field U) fuel _)
    | inr e ↦ rw e (
        fields-last_number (digest_field U) fuel _ _ 2 (as_u64 z) h (omega arith)
          (digest_field-size z _ [] s))
  ]

  abbrev pub IsDigest : Digest U → Type 0
  IsDigest d = Short d.hash × Signed 63 d.size_bytes

  pub decode_digest-encode_digest :
      (d : Digest U) → IsDigest d → decode_digest U (encode_digest U d) ≡ ok d
  unfolding decode_digest encode_digest
  decode_digest-encode_digest d h =
      let long =
        at_least 2 (put_len_delimited 1 (as_bytes d.hash)) (encode_size U d.size_bytes)
          (length-put_len_delimited 1 _) in
      fields-put_len_delimited (digest_field U) (length (encode_digest U d)) no_digest
        (record { hash = d.hash; size_bytes = pos 0 }) 1 (as_bytes d.hash)
        (encode_size U d.size_bytes) (omega (arith, long)) (omega arith)
        (digest_field-hash d.hash no_digest _ h.0)
      ∙ fields-encode_size (length (encode_digest U d) - 1) d.hash d.size_bytes
          (omega (arith, long)) h.1

  abbrev pub IsFile : OutputFile U → Type 0
  IsFile f = Short f.path × IsDigest f.digest × (length (encode_digest U f.digest) < 2 ^ 64)

  file_field-path :
      (t : Text) (f : OutputFile U) (rest : List ℕ)
      → Short t
      → file_field U 1 2 f (put_varint (length (as_bytes t)) ++ (as_bytes t ++ rest))
        ≡ ok (record f { path = t }, rest)
  unfolding file_field
  file_field-path t f rest h =
      rw (read_len_delimited-put (as_bytes t) rest h, lossy-as_bytes t) refl

  file_field-digest :
      (d : Digest U) (f : OutputFile U) (rest : List ℕ)
      → IsDigest d
      → length (encode_digest U d) < 2 ^ 64
      → file_field U 2 2 f (put_varint (length (encode_digest U d)) ++ (encode_digest U d ++ rest))
        ≡ ok (record f { digest = d }, rest)
  unfolding file_field
  file_field-digest d f rest h l =
      rw (read_len_delimited-put (encode_digest U d) rest l, decode_digest-encode_digest d h) refl

  file_field-executable :
      (f : OutputFile U) (rest : List ℕ)
      → file_field U 4 0 f (put_varint 1 ++ rest) ≡ ok (record f { is_executable = true }, rest)
  unfolding file_field
  file_field-executable f rest = rw (read_varint-put_varint 1 rest (omega arith)) refl

  fields-encode_executable :
      (fuel : ℕ) (t : Text) (d : Digest U) (b : Bool)
      → 1 ≤ fuel
      → fields
          (file_field U)
          fuel
          (record { path = t; digest = d; is_executable = false })
          (encode_executable U b)
        ≡ ok (record { path = t; digest = d; is_executable = b })
  unfolding encode_executable
  fields-encode_executable fuel t d true h =
      fields-last_number (file_field U) fuel _ _ 4 1 h (omega arith) (file_field-executable _ [])
  fields-encode_executable fuel t d false h = fields-nil (file_field U) fuel _

  abbrev no_file : OutputFile U
  no_file = record { path = empty; digest = no_digest; is_executable = false }

  fields-encode_file :
      (fuel : ℕ) (f : OutputFile U)
      → 3 ≤ fuel
      → IsFile f
      → fields (file_field U) fuel no_file (encode_file U f) ≡ ok f
  unfolding encode_file
  fields-encode_file fuel f n h =
      fields-put_len_delimited (file_field U) fuel no_file
        (record { path = f.path; digest = no_digest; is_executable = false }) 1 (as_bytes f.path) _
        (omega (arith, n)) (omega arith) (file_field-path f.path no_file _ h.0)
      ∙ fields-put_len_delimited (file_field U) (fuel - 1) _
          (record { path = f.path; digest = f.digest; is_executable = false }) 2
          (encode_digest U f.digest) _ (omega (arith, n)) (omega arith)
          (file_field-digest f.digest
            (record { path = f.path; digest = no_digest; is_executable = false }) _ h.1 h.2)
      ∙ fields-encode_executable (fuel - 1 - 1) f.path f.digest f.is_executable (omega (arith, n))

  length-encode_file : (f : OutputFile U) → 3 ≤ length (encode_file U f)
  unfolding encode_file
  length-encode_file f = rw length-append (
      omega (
        arith,
        length-put_len_delimited 1 (as_bytes f.path),
        at_least 2 _ (encode_executable U f.is_executable)
            (length-put_len_delimited 2 (encode_digest U f.digest)),
      ))

  decode_file-encode_file : (f : OutputFile U) → IsFile f → decode_file U (encode_file U f) ≡ ok f
  unfolding decode_file
  decode_file-encode_file f h =
      fields-encode_file (length (encode_file U f)) f (length-encode_file f) h

  -- An action result as the code builds it: its number and texts fit their machine types, and the
  -- encoding of each file is shorter than two to the power of 64.
  unfoldable pub IsActionResult : ActionResult U → Type 0
  IsActionResult a =
      All (λ f. IsFile f × (length (encode_file U f) < 2 ^ 64)) a.output_files
      × Signed 31 a.exit_code

  result_field-file :
      (f : OutputFile U) (a : ActionResult U) (rest : List ℕ)
      → IsFile f
      → length (encode_file U f) < 2 ^ 64
      → result_field U 2 2 a (put_varint (length (encode_file U f)) ++ (encode_file U f ++ rest))
        ≡ ok (record a { output_files = a.output_files ++ f ∷ [] }, rest)
  unfolding result_field
  result_field-file f a rest h l =
      rw (read_len_delimited-put (encode_file U f) rest l, decode_file-encode_file f h) refl

  result_field-exit_code :
      (z : ℤ) (a : ActionResult U) (rest : List ℕ)
      → Signed 31 z
      → result_field U 9 0 a (put_varint (as_u64 z) ++ rest) ≡ ok (record a { exit_code = z }, rest)
  unfolding result_field
  result_field-exit_code z a rest h =
      rw (read_varint-put_varint (as_u64 z) rest (as_u64-lt z), as_i32-as_u64 z h) refl

  fields-encode_files :
      (files : List (OutputFile U)) (fuel : ℕ) (a : ActionResult U) (rest : List ℕ)
      → length files ≤ fuel
      → All (λ f. IsFile f × (length (encode_file U f) < 2 ^ 64)) files
      → fields (result_field U) fuel a (encode_files U files ++ rest)
        ≡ fields
            (result_field U)
            (fuel - length files)
            (record a { output_files = a.output_files ++ files })
            rest
  unfolding encode_files
  fields-encode_files [] fuel a rest n h = rw (append-nil a.output_files, sub_zero fuel) refl
  fields-encode_files (f ∷ files) fuel a rest n h =
      let b = record a { output_files = a.output_files ++ f ∷ [] } in
      rw (append_assoc (put_len_delimited 2 (encode_file U f)) (encode_files U files) rest) (
        fields-put_len_delimited (result_field U) fuel a b 2 (encode_file U f) _ (omega (arith, n))
          (omega arith) (result_field-file f a _ h.0.0 h.0.1)
        ∙ fields-encode_files files (fuel - 1) b rest (omega (arith, n)) h.1
        ∙ rw (append_assoc a.output_files (f ∷ []) files, sub_suc fuel (length files)) refl)

  length-encode_files : (files : List (OutputFile U)) → length files ≤ length (encode_files U files)
  unfolding encode_files
  length-encode_files [] = omega arith
  length-encode_files (f ∷ files) =
      rw length-append
        (omega (arith, length-put_len_delimited 2 (encode_file U f), length-encode_files files))

  fields-encode_exit_code :
      (fuel : ℕ) (files : List (OutputFile U)) (z : ℤ)
      → Signed 31 z
      → (is_zero U z ≡ false → 1 ≤ fuel)
      → fields
          (result_field U)
          fuel
          (record { output_files = files; exit_code = pos 0 })
          (encode_exit_code U z)
        ≡ ok (record { output_files = files; exit_code = z })
  unfolding encode_exit_code
  fields-encode_exit_code fuel files z s h = elim (Bool-cases (is_zero U z)) [
    | inl e ↦ rw (e, zero_of_is_zero z e) (fields-nil (result_field U) fuel _)
    | inr e ↦ rw e (
        fields-last_number (result_field U) fuel _ _ 9 (as_u64 z) (h e) (omega arith)
          (result_field-exit_code z _ [] s))
  ]

  length-encode_exit_code : (z : ℤ) → is_zero U z ≡ false → 1 ≤ length (encode_exit_code U z)
  unfolding encode_exit_code
  length-encode_exit_code z e = rw e (omega (arith, length-put_number 9 (as_u64 z)))

  -- Decoding the encoding of an action result gives the action result back, if its texts, the
  -- encodings of its files and its numbers fit the machine types they are written with.
  pub decode-encode : (a : ActionResult U) → IsActionResult a → decode U (encode U a) ≡ ok a
  unfolding decode encode IsActionResult
  decode-encode a h =
      let files = encode_files U a.output_files in
      let code = encode_exit_code U a.exit_code in
      fields-encode_files a.output_files (length (files ++ code))
        (record { output_files = []; exit_code = pos 0 }) code
        (rw length-append (omega (arith, length-encode_files a.output_files))) h.0
      ∙ fields-encode_exit_code _ a.output_files a.exit_code h.1 (λ e.
        rw length-append (
          omega (arith, length-encode_files a.output_files, length-encode_exit_code a.exit_code e)))
