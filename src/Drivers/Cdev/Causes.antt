-- ===== src/Drivers/Cdev/Causes.antt =====
-- qemu-drivers/led-gpio/lux-cdev.c: the causes of the LED's interrupts.
use qemu_devices_and_drivers.Base.{
  ℕ, ◌+◌, ◌*◌, ◌/◌, ◌<◌, bit_and, Bool, true, ◌==◌, leb, if◌then◌else◌, Option, some, List, done,
  fault, ◌≡◌, ◌≢◌, refl, arith, ==_ne,
}
use qemu_devices_and_drivers.Protocol.{LedCommand}
use qemu_devices_and_drivers.Lux.Device.{F0, IsValid}
use qemu_devices_and_drivers.Lux.Bar0.{f0_bar0_access, f0_bar0_read}
use qemu_devices_and_drivers.Lux.Bar1.{f0_bar1_access, f0_bar1_write}
use qemu_devices_and_drivers.Lux.Bar1.Access.{f0_bar1_read-f0_bar1_write}
use qemu_devices_and_drivers.Drivers.Cdev.Files.{eighth, not_far}
use qemu_devices_and_drivers.Drivers.Cdev.{
  LuxCdev, count_of, minus, einval, cdev_readl, lux_smart_irq_handler, wait_for_cause, finish_write,
  lux_smart_write,
}

-- A handler takes the causes out of the device and wakes the writer up, unless it is called with an
-- error and another cause at once: then it reads past the end of the names of the causes.
pub lux_smart_irq_handler_lem :
    (is_error : Bool) (c : LuxCdev)
    → lux_smart_irq_handler is_error c ≡ (
        if leb 9 c.device.led_irq_cause
        then fault
        else done (record c {
          device = record c.device { led_irq_cause = 0 };
          last_irq_cause = c.device.led_irq_cause;
          was_error = is_error;
          wakeups = c.wakeups + 1;
        }))
unfolding lux_smart_irq_handler cdev_readl f0_bar0_access f0_bar0_read
lux_smart_irq_handler_lem is_error c = ground arith

module _ (write_ok : List LedCommand → Bool) where
  -- When a cause is left over from an earlier event, a write of an LED does not wait for its own: it
  -- returns at once, and its result is that of the earlier event.
  lux_smart_write_stale :
      (wait : LuxCdev → LuxCdev × Option ℕ) (c : LuxCdev) (offset word : ℕ)
      → IsValid c.device
      → offset < 512
      → ((sent : List LedCommand) → write_ok sent ≡ true)
      → c.last_irq_cause ≢ 0
      → (f' : F0) × (f0_bar1_write write_ok c.device word 8 (offset / 8 * 8) ≡ done (f', some 8))
        × (lux_smart_write write_ok wait c 8 offset (some word)
            ≡ done (
              record c { device = f'; last_irq_cause = 0 },
              if bit_and c.last_irq_cause 8 == 0 then count_of 8 else minus einval,
              offset + 8,
            ))
  unfolding lux_smart_write f0_bar1_access wait_for_cause finish_write
  lux_smart_write_stale wait c offset word v l accepted stale =
      let i = offset / 8 in
      let (f', wrote, _, _) =
        f0_bar1_read-f0_bar1_write write_ok c.device word i 0 i v (omega arith) accepted in
      (
        f',
        rw (eighth i) wrote,
        rw (not_far offset l, eighth i, wrote, ==_ne c.last_irq_cause 0 stale) refl,
      )
