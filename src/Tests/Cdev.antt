-- ===== src/Tests/Cdev.antt =====
-- The theorems of the LED's character device and of the LED subsystem at concrete inputs: an adapter
-- whose pins 0 and 1 are outputs, and a wait that ends with the interrupt of LED 0.
use qemu_devices_and_drivers.Base.{
  ℕ, Bool, true, false, Option, none, some, List, done, ◌≡◌, refl, arith,
}
use qemu_devices_and_drivers.Protocol.{LedCommand}
use qemu_devices_and_drivers.Lux.Device.{smart_led_word}
use qemu_devices_and_drivers.Lux.Bar1.Access.{written_led}
use qemu_devices_and_drivers.Drivers.Cdev.{
  LuxCdev, CdevRet, count_of, lux_smart_write, lux_smart_read,
}
use qemu_devices_and_drivers.Drivers.Cdev.Files.{lux_smart_read-lux_smart_write}
use qemu_devices_and_drivers.Tests.Lux.{gpio, gpio-IsValid}

abbrev accepts : List LedCommand → Bool
accepts sent = true

abbrev wait_on : LuxCdev → LuxCdev × Option ℕ
wait_on c = (record c { last_irq_cause = 1 }, none)

abbrev opened : LuxCdev
opened = record { device = gpio; last_irq_cause = 0; was_error = false; wakeups = 0 }

abbrev left_over : LuxCdev
left_over = record opened { last_irq_cause = 8 }

file_example :
    (c₁ : LuxCdev) × (ret : CdevRet) × (lux_smart_write accepts wait_on opened 8 12 (some 1)
      ≡ done (c₁, ret, 20))
    × (lux_smart_read accepts c₁ 8 12 false
        ≡ done (c₁, count_of 8, some (smart_led_word (written_led gpio 1 1)), 20))
file_example =
    lux_smart_read-lux_smart_write accepts wait_on opened 12 1 gpio-IsValid (omega arith)
      (λ sent. refl) (λ c. refl) (λ c. refl)

abbrev grey : ℕ → ℕ × ℕ × ℕ
grey brightness = (brightness, brightness, brightness)
