-- ===== src/Drivers/Irq/Lines.antt =====
-- What the interrupt chip's operations do to the lines of the device.
use qemu_devices_and_drivers.Base.{ℕ, ◌<◌, bit_and, bit_or, ◌==◌, if◌then◌else◌, ◌≡◌, ◌∙◌, arith}
use qemu_devices_and_drivers.Words.{u32, not32, ◌<<<◌}
use qemu_devices_and_drivers.Words.Bits.{
  bit, bit-bit_and, bit-bit_or, bit-lt_two, bit-mod, bit-shl, bit-complement,
}
use qemu_devices_and_drivers.Lux.Device.{F1}
use qemu_devices_and_drivers.Lux.Mgmt.{f1_bar0_access, f1_bar0_read, f1_bar0_write}
use qemu_devices_and_drivers.Lux.Mgmt.Irq.{pending}
use qemu_devices_and_drivers.Drivers.Irq.{readl, writel, lux_irq_mask, lux_irq_unmask, lux_irq_ack}

-- Bit `k` of the mask of line `n`.
bit-line : (n k : ℕ) → k < 32 → bit (u32 (1 <<< n)) k ≡ (if n == k then 1 else 0)
bit-line n k l = bit-mod 32 (1 <<< n) k l ∙ bit-shl 1 n k (omega arith)

pub bit-not_line : (n k : ℕ) → k < 32 → bit (not32 (u32 (1 <<< n))) k ≡ (if n == k then 0 else 1)
bit-not_line n k l =
    ground (arith, bit-complement 32 (u32 (1 <<< n)) k (omega arith) l, bit-line n k l)

-- Masking line `n` keeps it from being pending, unmasking it makes it pending when it is raised, and
-- acknowledging it lowers it. Every other line is pending as it was.
lux_irq-pending :
    (f : F1) (n k : ℕ)
    → k < 32
    → (pending (lux_irq_mask f n) k ≡ (if n == k then 0 else pending f k))
      × (pending (lux_irq_unmask f n) k ≡ (if n == k then bit f.irq_status k else pending f k))
      × (pending (lux_irq_ack f n) k ≡ (if n == k then 0 else pending f k))
unfolding lux_irq_mask lux_irq_unmask lux_irq_ack readl writel f1_bar0_access f1_bar0_read
    f1_bar0_write
lux_irq-pending f n k l = (
  ground (
    arith,
    bit-mod 32 (bit_or f.irq_mask (u32 (1 <<< n))) k l,
    bit-bit_or f.irq_mask (u32 (1 <<< n)) k,
    bit-line n k l,
    bit-lt_two f.irq_mask k,
    bit-lt_two f.irq_status k,
  ),
  ground (
    arith,
    bit-mod 32 (bit_and f.irq_mask (not32 (u32 (1 <<< n)))) k l,
    bit-bit_and f.irq_mask (not32 (u32 (1 <<< n))) k,
    bit-not_line n k l,
    bit-lt_two f.irq_mask k,
    bit-lt_two f.irq_status k,
  ),
  ground (
    arith,
    bit-bit_and f.irq_status (not32 (u32 (u32 (1 <<< n)))) k,
    bit-complement 32 (u32 (u32 (1 <<< n))) k (omega arith) l,
    bit-mod 32 (u32 (1 <<< n)) k l,
    bit-line n k l,
    bit-lt_two f.irq_mask k,
    bit-lt_two f.irq_status k,
  ),
)
