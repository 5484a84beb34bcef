-- ===== src/Base/Int.antt =====
-- Signed integers over the native numbers, under the library's names, and the int64 of Go.
use picoclawnim.Base.{
  ℕ, suc, ◌+◌, ◌-◌, ◌*◌, ◌/◌, ◌%◌, ◌^◌, ◌≤◌, ◌<◌, ◌≡◌, Bool, arith, ltb, leb, if◌then◌else◌,
}

-- `negsuc n` is -(n + 1).
pub data ℤ : Type 0 where
  pos : ℕ → ℤ
  negsuc : ℕ → ℤ

abbrev pub pos_part : ℤ → ℕ
pos_part (pos n) = n
pos_part (negsuc n) = 0

abbrev pub neg_part : ℤ → ℕ
neg_part (pos n) = 0
neg_part (negsuc n) = suc n

-- a - b, as an integer.
abbrev pub sub_ℕ : ℕ → ℕ → ℤ
sub_ℕ a b = if leb b a then pos (a - b) else negsuc (b - a - 1)

infixl 65 ◌+ℤ◌
infixl 70 ◌*ℤ◌
infix 50 ◌≤ℤ◌ ◌<ℤ◌
unfoldable pub ◌+ℤ◌ : ℤ → ℤ → ℤ
a +ℤ b = sub_ℕ (pos_part a + pos_part b) (neg_part a + neg_part b)

unfoldable pub ◌*ℤ◌ : ℤ → ℤ → ℤ
a *ℤ b =
    sub_ℕ (pos_part a * pos_part b + neg_part a * neg_part b)
      (pos_part a * neg_part b + neg_part a * pos_part b)

abbrev pub ◌≤ℤ◌ : ℤ → ℤ → Type 0
a ≤ℤ b = pos_part a + neg_part b ≤ pos_part b + neg_part a

abbrev pub ◌<ℤ◌ : ℤ → ℤ → Type 0
a <ℤ b = pos_part a + neg_part b < pos_part b + neg_part a

abbrev pub ltb_ℤ : ℤ → ℤ → Bool
ltb_ℤ a b = ltb (pos_part a + neg_part b) (pos_part b + neg_part a)

abbrev pub leb_ℤ : ℤ → ℤ → Bool
leb_ℤ a b = leb (pos_part a + neg_part b) (pos_part b + neg_part a)

-- The int64 with a given bit pattern below 2^64.
abbrev of_bits : ℕ → ℤ
of_bits b = if ltb b (2 ^ 63) then pos b else negsuc (2 ^ 64 - 1 - b)

-- An integer cut to 64 bits, as Go's arithmetic on int64 does.
unfoldable pub wrap64 : ℤ → ℤ
wrap64 (pos n) = of_bits (n % 2 ^ 64)
wrap64 (negsuc n) = of_bits (2 ^ 64 - 1 - n % 2 ^ 64)

-- `z / k` on integers, towards zero.
unfoldable pub quot : ℤ → ℕ → ℤ
quot (pos n) k = pos (n / k)
quot (negsuc n) k = sub_ℕ 0 (suc n / k)

pub +ℤ_parts :
    (a b : ℤ)
    → pos_part (a +ℤ b) + neg_part a + neg_part b ≡ neg_part (a +ℤ b) + pos_part a + pos_part b
unfolding ◌+ℤ◌
+ℤ_parts a b = ground arith

-- A value in the range of int64 is not changed.
pub wrap64_in_range : (z : ℤ) → negsuc (2 ^ 63 - 1) ≤ℤ z → z <ℤ pos (2 ^ 63) → wrap64 z ≡ z
unfolding wrap64
wrap64_in_range (pos n) lo hi = ground arith
wrap64_in_range (negsuc n) lo hi = ground arith

-- The result is in the range of int64.
pub wrap64_bounds : (z : ℤ) → (negsuc (2 ^ 63 - 1) ≤ℤ wrap64 z) × (wrap64 z <ℤ pos (2 ^ 63))
unfolding wrap64
wrap64_bounds (pos n) = ground arith
wrap64_bounds (negsuc n) = ground arith
