-- ===== src/Lux/Mgmt/Valid.antt =====
-- Accesses and ticks keep the registers of function 1 within their widths.
use qemu_devices_and_drivers.Base.{ℕ, Bool, true, false, arith}
use qemu_devices_and_drivers.Words.{not32, u32}
use qemu_devices_and_drivers.Words.Bits.{bit_and-le, bit_or-lt}
use qemu_devices_and_drivers.Lux.Device.{F1, IsMgmtValid}
use qemu_devices_and_drivers.Lux.Mgmt.{
  f1_bar0_access, f1_bar0_write, device_timer_tick, timer_fire, device_irq_tick,
}
use qemu_devices_and_drivers.Lux.Mgmt.Irq.{device_irq_tick-fired}

-- An access to function 1's BAR 0, a read or a write at any offset and of any size, keeps its
-- registers within their widths.
pub f1_bar0_access-IsMgmtValid :
    (f : F1) (buf count offset : ℕ) (is_write : Bool)
    → IsMgmtValid f
    → IsMgmtValid (f1_bar0_access f buf count offset is_write).0
unfolding f1_bar0_access f1_bar0_write
f1_bar0_access-IsMgmtValid f buf count offset true v =
    ground (arith, bit_and-le f.irq_status (not32 (u32 buf)))
f1_bar0_access-IsMgmtValid f buf count offset false v = v

pub device_timer_tick-IsMgmtValid :
    (f : F1) (now : ℕ) → IsMgmtValid f → IsMgmtValid (device_timer_tick f now)
unfolding device_timer_tick timer_fire
device_timer_tick-IsMgmtValid f now v =
    ground (arith, bit_or-lt 32 f.irq_status 1 v.irq_status_fits (omega arith))

pub device_irq_tick-IsMgmtValid : (f : F1) → IsMgmtValid f → IsMgmtValid (device_irq_tick f)
device_irq_tick-IsMgmtValid f v = rw (device_irq_tick-fired f v.irq_mask_fits) (omega (arith, v))
