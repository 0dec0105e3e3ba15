-- ===== src/Prelude/Time.antt =====
-- Signed integers, and instants as nanoseconds since a fixed origin with the signed differences
-- that `chrono` gives. The integers are written over the native numbers.
use Prim.Native.Nat.{ℕ, zero, suc, ◌+◌, ◌-◌, ◌/◌}
use mathlib.Core.Bool.{Bool, true, false}
use qontinui_supervisor.Prelude.Tests.{ltb, leb, if◌then◌else◌}

-- `negsuc n` is -(n + 1).
pub data ℤ : Type 0 where
  pos : ℕ → ℤ
  negsuc : ℕ → ℤ

abbrev pub neg_part : ℤ → ℕ
neg_part (pos n) = 0
neg_part (negsuc n) = suc n

abbrev pub pos_part : ℤ → ℕ
pos_part (pos n) = n
pos_part (negsuc n) = 0

-- `a < b` on i64.
abbrev pub ltb_ℤ : ℤ → ℤ → Bool
ltb_ℤ a b = ltb (pos_part a + neg_part b) (pos_part b + neg_part a)

abbrev pub eqb_ℤ : ℤ → ℤ → Bool
eqb_ℤ a b = if ltb_ℤ a b then false else if ltb_ℤ b a then false else true

abbrev pub negate : ℕ → ℤ
negate zero = pos 0
negate (suc n) = negsuc n

-- `(a - b).num_seconds()`: whole seconds, rounded towards zero.
abbrev pub seconds_between : ℕ → ℕ → ℤ
seconds_between a b = if leb b a then pos ((a - b) / 1000000000) else negate ((b - a) / 1000000000)

-- `(a - b).num_milliseconds()`: whole milliseconds, rounded towards zero.
abbrev pub millis_between : ℕ → ℕ → ℤ
millis_between a b = if leb b a then pos ((a - b) / 1000000) else negate ((b - a) / 1000000)
