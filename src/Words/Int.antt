-- ===== src/Words/Int.antt =====
-- Signed integers of C over the native numbers, under the library's names: the exact operations,
-- and the conversions between a 32-bit word and the value it has as an `int`.
use qemu_devices_and_drivers.Base.{
  ℕ, suc, ◌+◌, ◌-◌, ◌*◌, ◌/◌, ◌%◌, ◌^◌, ◌≡◌, Bool, ◌&&◌, arith, ltb, leb, if◌then◌else◌, Outcome,
  done, fault,
}

-- `negsuc n` is -(n + 1).
pub data ℤ : Type 0 where
  pos : ℕ → ℤ
  negsuc : ℕ → ℤ

abbrev pub pos_part : ℤ → ℕ
pos_part (pos n) = n
pos_part (negsuc n) = 0

abbrev pub neg_part : ℤ → ℕ
neg_part (pos n) = 0
neg_part (negsuc n) = suc n

abbrev pub magnitude : ℤ → ℕ
magnitude (pos n) = n
magnitude (negsuc n) = suc n

-- a - b, as an integer.
abbrev pub sub_ℕ : ℕ → ℕ → ℤ
sub_ℕ a b = if leb b a then pos (a - b) else negsuc (b - a - 1)

infixl 65 ◌+ℤ◌ ◌-ℤ◌
infixl 70 ◌*ℤ◌ ◌/ℤ◌
unfoldable pub ◌+ℤ◌ : ℤ → ℤ → ℤ
a +ℤ b = sub_ℕ (pos_part a + pos_part b) (neg_part a + neg_part b)

unfoldable pub ◌-ℤ◌ : ℤ → ℤ → ℤ
a -ℤ b = sub_ℕ (pos_part a + neg_part b) (neg_part a + pos_part b)

unfoldable pub ◌*ℤ◌ : ℤ → ℤ → ℤ
a *ℤ b =
    sub_ℕ (pos_part a * pos_part b + neg_part a * neg_part b)
      (pos_part a * neg_part b + neg_part a * pos_part b)

-- The quotient rounds towards 0.
unfoldable pub ◌/ℤ◌ : ℤ → ℤ → ℤ
pos a /ℤ b = sub_ℕ (a / pos_part b) (a / neg_part b)
negsuc a /ℤ b = sub_ℕ (suc a / neg_part b) (suc a / pos_part b)

-- The value is one of an `int32_t`.
abbrev pub fits32 : ℤ → Bool
fits32 z = ltb (pos_part z) (2 ^ 31) && leb (neg_part z) (2 ^ 31)

-- A 32-bit word as an `int32_t`, and back.
unfoldable pub int32 : ℕ → ℤ
int32 w = if ltb (w % 2 ^ 32) (2 ^ 31) then pos (w % 2 ^ 32) else negsuc (2 ^ 32 - 1 - w % 2 ^ 32)

unfoldable pub word32 : ℤ → ℕ
word32 z = (pos_part z % 2 ^ 32 + 2 ^ 32 - neg_part z % 2 ^ 32) % 2 ^ 32

pub word32-int32 : (w : ℕ) → word32 (int32 w) ≡ w % 2 ^ 32
unfolding word32 int32
word32-int32 w = ground arith

pub int32-word32 : (z : ℤ) → fits32 z ≡ Bool.true → int32 (word32 z) ≡ z
unfolding word32 int32
int32-word32 (pos n) h = ground arith
int32-word32 (negsuc n) h = ground arith

-- The result of an `int` operation: one that does not fit is undefined.
abbrev pub checked : ℤ → Outcome ℤ
checked z = if fits32 z then done z else fault

-- The same where the result cannot be negative.
abbrev pub checked_ℕ : ℕ → Outcome ℕ
checked_ℕ n = if ltb n (2 ^ 31) then done n else fault

abbrev pub ltbℤ : ℤ → ℤ → Bool
ltbℤ a b = ltb (pos_part a + neg_part b) (pos_part b + neg_part a)
