-- ===== src/Drivers/Cdev/Written.antt =====
-- qemu-drivers/led-gpio/lux-cdev.c: what one write of the LED file does to the device.
use qemu_devices_and_drivers.Base.{
  ℕ, ◌*◌, ◌/◌, ◌<◌, Bool, true, ◌==◌, if◌then◌else◌, Option, none, some, List, get_or, done, ◌≡◌,
  refl, ◌∙◌, arith, Bool-cases, inl, inr,
}
use qemu_devices_and_drivers.Protocol.{LedCommand}
use qemu_devices_and_drivers.Lux.Device.{dark, led_nr, IsValid}
use qemu_devices_and_drivers.Lux.Bar1.{f0_bar1_access}
use qemu_devices_and_drivers.Lux.Bar1.Access.{written_led, f0_bar1_write_led}
use qemu_devices_and_drivers.Lux.Bar1.Valid.{f0_bar1_write-IsValid}
use qemu_devices_and_drivers.Drivers.Cdev.{
  LuxCdev, CdevRet, wait_for_cause, finish_write, lux_smart_write,
}
use qemu_devices_and_drivers.Drivers.Cdev.Files.{eighth, not_far}

-- What happens leaves the LEDs and the directions of the pins alone, and a valid device valid.
pub record IsQuiet (step : LuxCdev → LuxCdev) : Type 0 where
  pub stays_valid : (c : LuxCdev) → IsValid c.device → IsValid (LuxCdev.device (step c))
  pub direction_kept : (c : LuxCdev) → (LuxCdev.device (step c)).direction ≡ c.device.direction
  pub leds_kept : (c : LuxCdev) → (LuxCdev.device (step c)).leds ≡ c.device.leds

finish_write_device :
    (count offset : ℕ) (p : LuxCdev × Option ℕ)
    → LuxCdev.device (finish_write count offset p).0 ≡ LuxCdev.device p.0
unfolding finish_write
finish_write_device count offset (c, some error) = refl
finish_write_device count offset (c, none) = refl

wait_for_cause-IsQuiet :
    (wait : LuxCdev → LuxCdev × Option ℕ)
    → IsQuiet (λ c. (wait c).0)
    → IsQuiet (λ c. (wait_for_cause wait c).0)
unfolding wait_for_cause
wait_for_cause-IsQuiet wait q = record {
  stays_valid = λ c v. elim (Bool-cases (c.last_irq_cause == 0)) [
    | inl e ↦ rw e (q.stays_valid c v)
    | inr e ↦ rw e v
  ];
  direction_kept = λ c. elim (Bool-cases (c.last_irq_cause == 0)) [
    | inl e ↦ rw e (q.direction_kept c)
    | inr e ↦ rw e refl
  ];
  leds_kept = λ c. elim (Bool-cases (c.last_irq_cause == 0)) [
    | inl e ↦ rw e (q.leds_kept c)
    | inr e ↦ rw e refl
  ];
}

-- A write at the place of LED `i` returns and leaves that LED written and the others as they were,
-- whatever the result is that the user gets.
pub lux_smart_write_led :
    (write_ok : List LedCommand → Bool) (wait : LuxCdev → LuxCdev × Option ℕ) (c : LuxCdev)
    (i word : ℕ)
    → IsValid c.device
    → i < led_nr
    → ((sent : List LedCommand) → write_ok sent ≡ true)
    → IsQuiet (λ c'. (wait c').0)
    → (r : LuxCdev × CdevRet × ℕ) × (lux_smart_write write_ok wait c 8 (i * 8) (some word) ≡ done r)
      × IsValid (LuxCdev.device r.0)
      × ((LuxCdev.device r.0).direction ≡ c.device.direction)
      × ((j : ℕ)
          → get_or (LuxCdev.device r.0).leds j dark
            ≡ (if i == j then written_led c.device i word else get_or c.device.leds j dark))
unfolding lux_smart_write f0_bar1_access
lux_smart_write_led write_ok wait c i word v l accepted quiet =
    let (f', wrote, direction, shows) = f0_bar1_write_led write_ok c.device word i v l accepted in
    let c₁ : LuxCdev = record c { device = f' } in
    let waited = wait_for_cause wait c₁ in
    let q = wait_for_cause-IsQuiet wait quiet in
    let same = finish_write_device 8 (i * 8) waited in
    (
      finish_write 8 (i * 8) waited,
      rw (not_far (i * 8) (omega arith), index i, eighth i, wrote) refl,
      rw same (
          q.stays_valid c₁
            (f0_bar1_write-IsValid write_ok c.device f' word 8 (8 * i) (some 8) v wrote)),
      rw same (q.direction_kept c₁ ∙ direction),
      λ j. rw (same, q.leds_kept c₁) (shows j),
    )
  where
    index : (i : ℕ) → i * 8 / 8 ≡ i
    index i = omega arith
