-- ===== src/Base/Ints.antt =====
-- `isize`: signed integers over the native numbers, with the wrap of 64 bits written out.
use Prim.Native.Nat.{ℕ, suc, ◌+◌, ◌-◌, ◌%◌, ◌^◌, ◌<◌}
use mathlib.Core.Path.{◌≡◌}
use native.Mathlib.Omega.{arith}
use propmonitor.Base.Booleans.{ltb, leb, if◌then◌else◌}

-- `negsuc n` is -(n + 1).
pub data ℤ : Type 0 where
  pos : ℕ → ℤ
  negsuc : ℕ → ℤ

abbrev pub pos_part : ℤ → ℕ
pos_part (pos n) = n
pos_part (negsuc n) = 0

abbrev pub neg_part : ℤ → ℕ
neg_part (pos n) = 0
neg_part (negsuc n) = suc n

-- a - b, as an integer.
abbrev pub sub_ℕ : ℕ → ℕ → ℤ
sub_ℕ a b = if leb b a then pos (a - b) else negsuc (b - a - 1)

-- `as usize`: the bit pattern.
abbrev pub as_usize : ℤ → ℕ
as_usize (pos n) = n % 2 ^ 64
as_usize (negsuc n) = 2 ^ 64 - 1 - n % 2 ^ 64

-- The signed number of a bit pattern.
abbrev pub of_bits : ℕ → ℤ
of_bits b = if ltb b (2 ^ 63) then pos b else negsuc (2 ^ 64 - 1 - b)

-- `a + b` and `a - b` of a release build, which wrap.
unfoldable pub wrapping_add : ℤ → ℤ → ℤ
wrapping_add a b = of_bits (as_usize (sub_ℕ (pos_part a + pos_part b) (neg_part a + neg_part b)))

unfoldable pub wrapping_sub : ℤ → ℤ → ℤ
wrapping_sub a b = of_bits (as_usize (sub_ℕ (pos_part a + neg_part b) (neg_part a + pos_part b)))

-- `.max(0)` and `.min(b)`
abbrev pub max_zero : ℤ → ℤ
max_zero (pos n) = pos n
max_zero (negsuc n) = pos 0

abbrev pub min_with : ℤ → ℕ → ℤ
min_with (pos n) b = if leb n b then pos n else pos b
min_with (negsuc n) b = negsuc n

-- `saturating_sub` of an unsigned integer is `-` on ℕ.

-- Far from the ends nothing wraps.
pub wrapping_add_parts :
    (a b : ℤ)
    → pos_part a + neg_part a + pos_part b + neg_part b < 2 ^ 63
    → wrapping_add a b ≡ sub_ℕ (pos_part a + pos_part b) (neg_part a + neg_part b)
unfolding wrapping_add
wrapping_add_parts a b h = ground arith

pub wrapping_sub_parts :
    (a b : ℤ)
    → pos_part a + neg_part a + pos_part b + neg_part b < 2 ^ 63
    → wrapping_sub a b ≡ sub_ℕ (pos_part a + neg_part b) (neg_part a + pos_part b)
unfolding wrapping_sub
wrapping_sub_parts a b h = ground arith
