-- ===== src/Lux/Mgmt/Irq.antt =====
-- The interrupt lines of function 1.
use qemu_devices_and_drivers.Base.{
  ℕ, ◌+◌, ◌-◌, ◌^◌, ◌<◌, bit_and, some, ◌==◌, ◌≡◌, refl, ◌∙◌, ap, arith, if◌then◌else◌,
}
use qemu_devices_and_drivers.Words.{u32, not32}
use qemu_devices_and_drivers.Words.Bits.{bit, bit-bit_and, bit-lt_two, bit-complement}
use qemu_devices_and_drivers.Lux.Device.{F1, reg_irq_status, reg_irq_ack}
use qemu_devices_and_drivers.Lux.Mgmt.{
  device_irq_tick, irq_loop, is_set, f1_bar0_read, f1_bar0_write,
}
use qemu_devices_and_drivers.Lux.Mgmt.Timer.{is_set-bit}

-- Line `k` of function 1 is pending: it is raised and not masked.
abbrev pub pending : F1 → ℕ → ℕ
pending f k = if bit f.irq_status k == 1 then 1 - bit f.irq_mask k else 0

is_set-pending :
    (f : F1) (k : ℕ)
    → f.irq_mask < 2 ^ 32
    → k < 32
    → (is_set (bit_and f.irq_status (not32 f.irq_mask)) (2 ^ k) ≡ (pending f k == 1))
      × (pending f k < 2)
is_set-pending f k h l = (
  is_set-bit (bit_and f.irq_status (not32 f.irq_mask)) k
      ∙ rw (bit-bit_and f.irq_status (not32 f.irq_mask) k) (
          ground (
            arith,
            bit-complement 32 f.irq_mask k h l,
            bit-lt_two f.irq_mask k,
            bit-lt_two f.irq_status k,
          )),
  ground (arith, bit-lt_two f.irq_mask k),
)

abbrev count_if : ℕ → F1 → F1
count_if p f = if p == 1 then record f { fired = f.fired + 1 } else f

count_if_lem : (f : F1) (p : ℕ) → p < 2 → count_if p f ≡ record f { fired = f.fired + p }
count_if_lem f p h = ground arith

count_three :
    (f : F1) (p q r : ℕ)
    → p < 2
    → q < 2
    → r < 2
    → count_if r (count_if q (count_if p f)) ≡ record f { fired = f.fired + p + q + r }
count_three f p q r hp hq hr =
    ap (λ (g : F1). count_if r (count_if q g)) (count_if_lem f p hp)
    ∙ ap (count_if r) (count_if_lem (record f { fired = f.fired + p }) q hq)
    ∙ count_if_lem (record f { fired = f.fired + p + q }) r hr

-- One tick triggers the message interrupt once for each of the three lines that is raised and not
-- masked, and changes no register.
pub device_irq_tick-fired :
    (f : F1)
    → f.irq_mask < 2 ^ 32
    → device_irq_tick f ≡ record f { fired = f.fired + pending f 0 + pending f 1 + pending f 2 }
unfolding device_irq_tick irq_loop
device_irq_tick-fired f h =
    let p₀ = is_set-pending f 0 h (omega arith) in
    let p₁ = is_set-pending f 1 h (omega arith) in
    let p₂ = is_set-pending f 2 h (omega arith) in
    rw (p₀.0, p₁.0, p₂.0) (count_three f (pending f 0) (pending f 1) (pending f 2) p₀.1 p₁.1 p₂.1)

-- Writing a mask to the acknowledge register lowers exactly the lines of the mask: a line is raised
-- afterwards when it was raised and is not in the mask. Nothing else changes.
f1_bar0_write_ack :
    (f : F1) (mask k : ℕ)
    → k < 32
    → let f' = (f1_bar0_write f mask 4 reg_irq_ack).0 in
      (bit f'.irq_status k ≡ (if bit (u32 mask) k == 1 then 0 else bit f.irq_status k))
      × (f' ≡ record f { irq_status = f'.irq_status })
      × (f1_bar0_read f' 4 reg_irq_status ≡ some f'.irq_status)
unfolding f1_bar0_write f1_bar0_read
f1_bar0_write_ack f mask k h = (
  bit-bit_and f.irq_status (not32 (u32 mask)) k
      ∙ ground (
        arith,
        bit-complement 32 (u32 mask) k (omega arith) h,
        bit-lt_two (u32 mask) k,
        bit-lt_two f.irq_status k,
      ),
  refl,
  refl,
)
