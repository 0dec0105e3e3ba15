-- ===== src/Reapi/Varint.antt =====
-- The varints of src/reapi.rs are read back as they are written.
use qontinui_supervisor.Prelude.{
  ℕ, zero, suc, ◌+◌, ◌*◌, ◌^◌, ◌%◌, ◌/◌, ◌<◌, ◌≤◌, ◌≡◌, refl, ◌∙◌, ap, arith, true, false, List,
  ◌∷◌, ◌++◌, eqb, ltb, leb, Bool-cases, inl, inr,
}
use native.Mathlib.Numerals.{towards_suc}
use native.Mathlib.Nat.{mod-eq_of_lt}
use qontinui_supervisor.Reapi.Wire.{ok, put_varint, varint_bytes, read_varint, read_groups}

pow_shift : (s : ℕ) → 2 ^ (s + 7) ≡ 128 * 2 ^ s
pow_shift s = simp towards_suc (omega arith)

spread : (q r p : ℕ) → r * p + q * (128 * p) ≡ (r + 128 * q) * p
spread q r p = omega arith

div_mod : (v : ℕ) → v % 128 + 128 * (v / 128) ≡ v
div_mod v = omega arith

low : (v p : ℕ) → v % 128 * p ≤ v * p
low v p = omega (arith, spread (v / 128) (v % 128) p, ap (λ w. w * p) (div_mod v))

step_pow : (n v : ℕ) → v < 128 ^ suc n → v / 128 < 128 ^ n
step_pow n v h = omega arith

mod_of_lt : (a b : ℕ) → a < b → a % b ≡ a
mod_of_lt a b h = mod-eq_of_lt h

ltb-true : (a b : ℕ) → a < b → ltb a b ≡ true
ltb-true a b h = ground arith

ltb-false : (a b : ℕ) → b ≤ a → ltb a b ≡ false
ltb-false a b h = ground arith

leb-false : (a b : ℕ) → b < a → leb a b ≡ false
leb-false a b h = ground arith

low_bits : (byte : ℕ) → byte < 128 → (byte + 128) % 128 ≡ byte
low_bits byte h = omega arith

-- The first group of a number that has further groups.
first_group :
    (v result shift : ℕ)
    → v * 2 ^ shift < 2 ^ 64
    → result + (v % 128 * 2 ^ shift) % 2 ^ 64 + v / 128 * 2 ^ (shift + 7) ≡ result + v * 2 ^ shift
first_group v result shift h =
    rw
      (
        mod_of_lt (v % 128 * 2 ^ shift) (2 ^ 64) (omega (arith, low v (2 ^ shift), h)),
        pow_shift shift,
      )
      (omega (arith, spread (v / 128) (v % 128) (2 ^ shift), ap (λ w. w * 2 ^ shift) (div_mod v)))

rest_fits : (v shift : ℕ) → v * 2 ^ shift < 2 ^ 64 → v / 128 * 2 ^ (shift + 7) < 2 ^ 64
rest_fits v shift h =
    rw (pow_shift shift) (
      omega (arith, spread (v / 128) (v % 128) (2 ^ shift), ap (λ w. w * 2 ^ shift) (div_mod v), h))

read_groups-last :
    (byte result shift : ℕ) (rest : List ℕ)
    → byte < 128
    → byte * 2 ^ shift < 2 ^ 64
    → read_groups result shift (byte ∷ rest) ≡ ok (result + byte * 2 ^ shift, rest)
unfolding read_groups
read_groups-last byte result shift rest h b =
    rw
      (
        ltb-true (byte % 256) 128 (omega (arith, h)),
        mod_of_lt byte 128 h,
        mod_of_lt (byte * 2 ^ shift) (2 ^ 64) b,
      )
      refl

read_groups-more :
    (byte result shift : ℕ) (rest : List ℕ)
    → byte < 128
    → shift + 7 < 64
    → read_groups result shift ((byte + 128) ∷ rest)
      ≡ read_groups (result + (byte * 2 ^ shift) % 2 ^ 64) (shift + 7) rest
unfolding read_groups
read_groups-more byte result shift rest h b =
    rw
      (
        ltb-false ((byte + 128) % 256) 128 (omega (arith, h)),
        leb-false 64 (shift + 7) b,
        low_bits byte h,
      )
      refl

last_group : (v : ℕ) → eqb (v / 128) 0 ≡ true → v % 128 ≡ v
last_group v e = ground arith

last_small : (v : ℕ) → eqb (v / 128) 0 ≡ true → v < 128
last_small v e = ground arith

more_fuel : (fuel v : ℕ) → v < 128 ^ suc fuel → eqb (v / 128) 0 ≡ false → 1 ≤ fuel
more_fuel zero v h e = absurd (ground (arith, step_pow 0 v h))
more_fuel (suc fuel) v h e = omega arith

fits_more : (fuel shift : ℕ) → 1 ≤ fuel → shift + 7 * suc fuel ≤ 70 → shift + 7 < 64
fits_more fuel shift h k = omega arith

-- What is left of a number is read on top of what has been read, whatever follows it.
read_groups-varint_bytes :
    (fuel v result shift : ℕ) (rest : List ℕ)
    → 1 ≤ fuel
    → v < 128 ^ fuel
    → shift + 7 * fuel ≤ 70
    → v * 2 ^ shift < 2 ^ 64
    → read_groups result shift (varint_bytes fuel v ++ rest) ≡ ok (result + v * 2 ^ shift, rest)
unfolding read_groups varint_bytes
read_groups-varint_bytes zero v result shift rest p h k b = absurd (omega arith)
read_groups-varint_bytes (suc fuel) v result shift rest p h k b =
    elim (Bool-cases (eqb (v / 128) 0)) [
      | inl e ↦ rw (e, last_group v e) (read_groups-last v result shift rest (last_small v e) b)
      | inr e ↦
          rw
            (
              e,
              read_groups-more (v % 128) result shift (varint_bytes fuel (v / 128) ++ rest)
                  (omega arith) (fits_more fuel shift (more_fuel fuel v h e) k),
            )
            (read_groups-varint_bytes fuel (v / 128) (result + (v % 128 * 2 ^ shift) % 2 ^ 64)
                (shift + 7) rest (more_fuel fuel v h e) (step_pow fuel v h) (omega arith)
                (rest_fits v shift b)
              ∙ ap (λ n. ok (n, rest)) (first_group v result shift b))
    ]

-- A 64-bit number is read back as it was written, with what follows it left.
pub read_varint-put_varint :
    (v : ℕ) (rest : List ℕ) → v < 2 ^ 64 → read_varint (put_varint v ++ rest) ≡ ok (v, rest)
unfolding read_varint put_varint
read_varint-put_varint v rest h =
    read_groups-varint_bytes 10 v 0 0 rest (omega arith) (omega arith) (omega arith) (omega arith)
    ∙ ap (λ n. ok (n, rest)) (omega arith)
