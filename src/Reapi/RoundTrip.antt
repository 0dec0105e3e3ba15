-- ===== src/Reapi/RoundTrip.antt =====
-- The fields of src/reapi.rs are read back as they are written.
use qontinui_supervisor.Prelude.{
  ℕ, zero, suc, ◌+◌, ◌*◌, ◌-◌, ◌^◌, ◌%◌, ◌/◌, ◌<◌, ◌≤◌, ◌≡◌, refl, sym, ◌∙◌, ap, arith, true, List,
  [], ◌∷◌, ◌++◌, length, length-append, drop, leb,
}
use mathlib.Core.List.{append_assoc, append-nil}
use qontinui_supervisor.Reapi.Wire.{
  Result, ok, err, ◌>>=◌, put_tag, put_varint, varint_bytes, put_len_delimited, read_varint,
  read_groups, varint_truncated, read_len_delimited, take, fields,
}
use qontinui_supervisor.Reapi.Varint.{read_varint-put_varint}

length-put_varint : (v : ℕ) → 1 ≤ length (put_varint v)
unfolding put_varint varint_bytes
length-put_varint v = ground arith

take-append : (p rest : List ℕ) → take (length p) (p ++ rest) ≡ p
take-append [] rest = refl
take-append (x ∷ p) rest = ap (λ q. x ∷ q) (take-append p rest)

drop-length : (p rest : List ℕ) → drop (length p) (p ++ rest) ≡ rest
drop-length [] rest = refl
drop-length (x ∷ p) rest = drop-length p rest

fits : (p rest : List ℕ) → leb (length p) (length (p ++ rest)) ≡ true
fits [] rest = ground arith
fits (x ∷ p) rest = ground (arith, fits p rest)

-- A payload is read back as it was written, with what follows it left.
pub read_len_delimited-put :
    (p rest : List ℕ)
    → length p < 2 ^ 64
    → read_len_delimited (put_varint (length p) ++ (p ++ rest)) ≡ ok (p, rest)
unfolding read_len_delimited
read_len_delimited-put p rest h =
    rw
      (
        read_varint-put_varint (length p) (p ++ rest) h,
        fits p rest,
        take-append p rest,
        drop-length p rest,
      )
      refl

read_varint-nil : read_varint [] ≡ err varint_truncated
unfolding read_varint read_groups
read_varint-nil = refl

pred_suc : (n : ℕ) → suc n - 1 ≡ n
pred_suc n = omega arith

field_of :
    (field wire : ℕ)
    → field < 2 ^ 29
    → wire < 8
    → ((field * 8) % 2 ^ 32 + wire) / 8 % 2 ^ 32 ≡ field
field_of field wire f w = omega arith

wire_of : (field wire : ℕ) → wire < 8 → ((field * 8) % 2 ^ 32 + wire) % 8 ≡ wire
wire_of field wire w = omega arith

module _ {S : Type 0} (handle : ℕ → ℕ → S → List ℕ → Result (S × List ℕ)) where
  pub fields-nil : (fuel : ℕ) (s : S) → fields handle fuel s [] ≡ ok s
  unfolding fields
  fields-nil zero s = refl
  fields-nil (suc fuel) s = refl

  fields-read :
      (fuel : ℕ) (s : S) (bytes : List ℕ) (tag : ℕ) (rest : List ℕ)
      → 1 ≤ fuel
      → read_varint bytes ≡ ok (tag, rest)
      → fields handle fuel s bytes
        ≡ (handle (tag / 8 % 2 ^ 32) (tag % 8) s rest >>= λ r. fields handle (fuel - 1) r.0 r.1)
  unfolding fields
  fields-read fuel s [] tag rest h e = absurd (cc (e, read_varint-nil))
  fields-read zero s (byte ∷ bytes) tag rest h e = absurd (omega arith)
  fields-read (suc fuel) s (byte ∷ bytes) tag rest h e = rw (e, pred_suc fuel) refl

  -- The loop reads a tag as it was written and goes on with the field's body.
  pub fields-put_tag :
      (fuel : ℕ) (s : S) (field wire : ℕ) (rest : List ℕ)
      → 1 ≤ fuel
      → field < 2 ^ 29
      → wire < 8
      → fields handle fuel s (put_tag field wire ++ rest)
        ≡ (handle field wire s rest >>= λ r. fields handle (fuel - 1) r.0 r.1)
  unfolding put_tag
  fields-put_tag fuel s field wire rest h f w =
      fields-read fuel s _ ((field * 8) % 2 ^ 32 + wire) rest h
        (read_varint-put_varint _ rest (omega arith))
      ∙ rw (field_of field wire f w, wire_of field wire w) refl

  -- A field that the handler reads as it was written takes one step of the loop.
  pub fields-put_len_delimited :
      (fuel : ℕ) (s t : S) (field : ℕ) (p rest : List ℕ)
      → 1 ≤ fuel
      → field < 2 ^ 29
      → handle field 2 s (put_varint (length p) ++ (p ++ rest)) ≡ ok (t, rest)
      → fields handle fuel s (put_len_delimited field p ++ rest) ≡ fields handle (fuel - 1) t rest
  unfolding put_len_delimited
  fields-put_len_delimited fuel s t field p rest h f e =
      rw
        (
          append_assoc (put_tag field 2) (put_varint (length p) ++ p) rest,
          append_assoc (put_varint (length p)) p rest,
        )
        (fields-put_tag fuel s field 2 (put_varint (length p) ++ (p ++ rest)) h f (omega arith)
          ∙ rw e refl)

  pub fields-put_number :
      (fuel : ℕ) (s t : S) (field v : ℕ) (rest : List ℕ)
      → 1 ≤ fuel
      → field < 2 ^ 29
      → handle field 0 s (put_varint v ++ rest) ≡ ok (t, rest)
      → fields handle fuel s ((put_tag field 0 ++ put_varint v) ++ rest)
        ≡ fields handle (fuel - 1) t rest
  fields-put_number fuel s t field v rest h f e =
      rw (append_assoc (put_tag field 0) (put_varint v) rest)
        (fields-put_tag fuel s field 0 (put_varint v ++ rest) h f (omega arith) ∙ rw e refl)

  pub fields-last_number :
      (fuel : ℕ) (s t : S) (field v : ℕ)
      → 1 ≤ fuel
      → field < 2 ^ 29
      → handle field 0 s (put_varint v ++ []) ≡ ok (t, [])
      → fields handle fuel s (put_tag field 0 ++ put_varint v) ≡ ok t
  fields-last_number fuel s t field v h f e =
      rw (sym (append-nil (put_tag field 0 ++ put_varint v)))
        (fields-put_number fuel s t field v [] h f e ∙ fields-nil (fuel - 1) t)

pub length-put_len_delimited : (field : ℕ) (p : List ℕ) → 2 ≤ length (put_len_delimited field p)
unfolding put_len_delimited put_tag
length-put_len_delimited field p =
    rw
      (
        length-append (put_varint (field * 8 % 2 ^ 32 + 2)) (put_varint (length p) ++ p),
        length-append (put_varint (length p)) p,
      )
      (omega (arith, length-put_varint (field * 8 % 2 ^ 32 + 2), length-put_varint (length p)))

pub length-put_number : (field v : ℕ) → 2 ≤ length (put_tag field 0 ++ put_varint v)
unfolding put_tag
length-put_number field v =
    rw (length-append (put_varint (field * 8 % 2 ^ 32 + 0)) (put_varint v))
      (omega (arith, length-put_varint (field * 8 % 2 ^ 32 + 0), length-put_varint v))
