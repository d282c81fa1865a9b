-- ===== src/Words/Masks.antt =====
-- Equations between masks of 64 bits, proved bit by bit.
use qemu_devices_and_drivers.Base.{
  ℕ, zero, suc, ◌+◌, ◌-◌, ◌%◌, ◌^◌, ◌<◌, bit_and, bit_or, bit_xor, max, min, ◌≡◌, refl, arith,
}
use qemu_devices_and_drivers.Words.{not64}
use qemu_devices_and_drivers.Words.Bits.{
  bit, bit-lt_two, bit-bit_or, bit-bit_and, bit-bit_xor, bit_or-lt, bit_ext, bit-complement,
  bit_and-le,
}

pub bit-not64 : (a j : ℕ) → a < 2 ^ 64 → j < 64 → bit (not64 a) j ≡ 1 - bit a j
bit-not64 a j h l = omega (arith, bit-complement 64 a j h l)

pub bit_and-lt64 : (a b : ℕ) → a < 2 ^ 64 → bit_and a b < 2 ^ 64
bit_and-lt64 a b h = omega (arith, bit_and-le a b)

pub not64-lt : (a : ℕ) → not64 a < 2 ^ 64
not64-lt a = omega arith

module _ (o m d : ℕ) (ho : o < 2 ^ 64) (hm : m < 2 ^ 64) (hd : d < 2 ^ 64) where
  -- Turning on the selected pins that are 0 is turning on the selected pins.
  pub or_missing : bit_or o (bit_and (bit_and m (not64 o)) d) ≡ bit_or o (bit_and m d)
  or_missing =
      bit_ext 64 _ _ (bit_or-lt 64 _ _ ho (bit_and-lt64 _ _ (bit_and-lt64 _ _ hm)))
        (bit_or-lt 64 _ _ ho (bit_and-lt64 _ _ hm))
        λ j h.
          simp (bit-bit_or, bit-bit_and, bit-not64 o j ho h)
            (bits _ _ _ (bit-lt_two o j) (bit-lt_two m j) (bit-lt_two d j))
    where
      bits : (x y z : ℕ) → x < 2 → y < 2 → z < 2 → max x (min (min y (1 - x)) z) ≡ max x (min y z)
      bits x y z hx hy hz = omega arith

  -- Turning off the selected pins that are 1 is turning off the selected pins.
  pub and_present : bit_and o (not64 (bit_and (bit_and m o) d)) ≡ bit_and o (not64 (bit_and m d))
  and_present = bit_ext 64 _ _ (bit_and-lt64 _ _ ho) (bit_and-lt64 _ _ ho) λ j h.
      simp
        (
          bit-bit_and,
          bit-not64 (bit_and (bit_and m o) d) j (bit_and-lt64 _ _ (bit_and-lt64 _ _ hm)) h,
          bit-not64 (bit_and m d) j (bit_and-lt64 _ _ hm) h,
        )
        (bits _ _ _ (bit-lt_two o j) (bit-lt_two m j) (bit-lt_two d j))
    where
      bits : (x y z : ℕ) → x < 2 → y < 2 → z < 2 → min x (1 - min (min y x) z) ≡ min x (1 - min y z)
      bits x y z hx hy hz = omega arith

  -- Turning the changed pins on and off leaves `m` at the pins of `d` and `o` at the others.
  pub changed_pins :
      bit_and
        (bit_or o (bit_and (bit_and m (bit_xor m o)) d))
        (not64 (bit_and (bit_and (not64 m) (bit_xor m o)) d))
      ≡ bit_or (bit_and m d) (bit_and o (not64 d))
  changed_pins =
      bit_ext 64 _ _
        (bit_and-lt64 _ _ (bit_or-lt 64 _ _ ho (bit_and-lt64 _ _ (bit_and-lt64 _ _ hm))))
        (bit_or-lt 64 _ _ (bit_and-lt64 _ _ hm) (bit_and-lt64 _ _ ho))
        λ j h.
          simp
            (
              bit-bit_and,
              bit-bit_or,
              bit-bit_xor,
              bit-not64 (bit_and (bit_and (not64 m) (bit_xor m o)) d) j
                  (bit_and-lt64 _ _ (bit_and-lt64 _ _ (not64-lt m))) h,
              bit-not64 m j hm h,
              bit-not64 d j hd h,
            )
            (bits _ _ _ (bit-lt_two o j) (bit-lt_two m j) (bit-lt_two d j))
    where
      bits :
          (x y z : ℕ)
          → x < 2
          → y < 2
          → z < 2
          → min (max x (min (min y ((y + x) % 2)) z)) (1 - min (min (1 - y) ((y + x) % 2)) z)
            ≡ max (min y z) (min x (1 - z))
      bits (suc (suc x)) y z hx hy hz = absurd (omega arith)
      bits x (suc (suc y)) z hx hy hz = absurd (omega arith)
      bits x y (suc (suc z)) hx hy hz = absurd (omega arith)
      bits zero zero zero hx hy hz = refl
      bits zero zero (suc zero) hx hy hz = refl
      bits zero (suc zero) zero hx hy hz = refl
      bits zero (suc zero) (suc zero) hx hy hz = refl
      bits (suc zero) zero zero hx hy hz = refl
      bits (suc zero) zero (suc zero) hx hy hz = refl
      bits (suc zero) (suc zero) zero hx hy hz = refl
      bits (suc zero) (suc zero) (suc zero) hx hy hz = refl
