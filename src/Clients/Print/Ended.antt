-- ===== src/Clients/Print/Ended.antt =====
-- user-clients/print-to-led-pwrite.c: the state in which the program leaves the LEDs.
use qemu_devices_and_drivers.Base.{
  ℕ, bit_and, bit_or, Bool, true, false, ◌==◌, Option, List, done, ◌≡◌, refl, ◌∙◌, arith,
  Bool-cases, Option-cases, inl, inr, ◌||◌,
}
use qemu_devices_and_drivers.Words.{u64, not64}
use qemu_devices_and_drivers.Words.Bits.{bit_and-le, bit_or-zero}
use qemu_devices_and_drivers.Protocol.{LedCommand}
use qemu_devices_and_drivers.Lux.Device.{F0, IsValid, reg_direction}
use qemu_devices_and_drivers.Lux.Led.{device_get_led_states}
use qemu_devices_and_drivers.Lux.Bar0.{f0_bar0_access, f0_bar0_write, write_direction}
use qemu_devices_and_drivers.Lux.Bar0.Data.{
  f0_bar0_access-IsValid, get-write_data, write_data-IsValid,
}
use qemu_devices_and_drivers.Drivers.Gpio.{writeq}
use qemu_devices_and_drivers.Drivers.Cdev.{
  LuxCdev, count_of, IrqAnswers, cdev_writel, lux_smart_open, lux_smart_release, clear_screen,
  set_direction_out, get_info, lux_smart_ioctl,
}
use qemu_devices_and_drivers.Drivers.Cdev.Written.{IsQuiet}
use qemu_devices_and_drivers.Clients.Print.{gpio_out_mask, after_open, print_to_led}
use qemu_devices_and_drivers.Clients.Print.Shown.{IsReady, print_string-IsReady}

writel-IsValid : (f : F0) (value offset : ℕ) → IsValid f → IsValid (cdev_writel f value offset)
unfolding cdev_writel
writel-IsValid f value offset v = f0_bar0_access-IsValid f value 4 offset true v

lux_smart_open-IsValid :
    (a : IrqAnswers) (c : LuxCdev)
    → IsValid c.device
    → IsValid (LuxCdev.device (lux_smart_open a c).0)
unfolding lux_smart_open
lux_smart_open-IsValid a c v = elim (Bool-cases a.domain) [
  | inr e ↦ rw e v
  | inl e ↦ elim (Bool-cases (a.virq == 0 || a.virq_err == 0)) [
    | inl n ↦ rw (e, n) v
    | inr n ↦ elim (Option-cases a.request) [
      | inr (error, r) ↦ rw (e, n, r) v
      | inl r ↦ elim (Option-cases a.request_err) [
        | inr (error, r') ↦ rw (e, n, r, r') v
        | inl r' ↦ rw (e, n, r, r') (writel-IsValid c.device _ _ v)
      ]
    ]
  ]
]

-- With all pins as outputs.
directed-IsReady :
    (c : LuxCdev)
    → IsValid c.device
    → IsReady
        (lux_smart_ioctl (lux_smart_ioctl c (set_direction_out gpio_out_mask)).0 (get_info false)).0
unfolding lux_smart_ioctl writeq f0_bar0_access f0_bar0_write write_direction
directed-IsReady c v = record {
  valid = f0_bar0_access-IsValid c.device gpio_out_mask 8 reg_direction true v;
  all_out = refl;
}

abbrev finished : LuxCdev → LuxCdev
finished c = (lux_smart_release (lux_smart_ioctl c clear_screen).0).0

finished_dark :
    (c : LuxCdev)
    → IsReady c
    → IsValid (LuxCdev.device (finished c))
      × (device_get_led_states (LuxCdev.device (finished c)) ≡ 0)
      × ((LuxCdev.device (finished c)).led_ctrl ≡ 0)
unfolding lux_smart_release lux_smart_ioctl writeq cdev_writel f0_bar0_access f0_bar0_write
    device_get_led_states
finished_dark c ready = (
  record {
    leds_count = (write_data-IsValid c.device 0 ready.valid).leds_count;
    direction_fits = (write_data-IsValid c.device 0 ready.valid).direction_fits;
    led_ctrl_fits = omega arith;
    led_irq_cause_fits = (write_data-IsValid c.device 0 ready.valid).led_irq_cause_fits;
    state_fits = (write_data-IsValid c.device 0 ready.valid).state_fits;
  },
  get-write_data c.device 0 ready.valid
      ∙ rw ready.all_out (nothing (device_get_led_states c.device)),
  refl,
)
  where
    nothing :
        (old : ℕ) → bit_or (bit_and (u64 0) gpio_out_mask) (bit_and old (not64 gpio_out_mask)) ≡ 0
    nothing old =
        let here : bit_and (u64 0) gpio_out_mask ≡ 0 = omega (arith, bit_and-le 0 gpio_out_mask) in
        let there : bit_and old (not64 gpio_out_mask) ≡ 0 = omega (arith, bit_and-le old 0) in
        rw (here, there) (bit_or-zero 0)

module _ (write_ok : List LedCommand → Bool) (wait : LuxCdev → LuxCdev × Option ℕ)
    (sleep : LuxCdev → LuxCdev) (accepted : (sent : List LedCommand) → write_ok sent ≡ true)
    (wait_quiet : IsQuiet (λ c. (wait c).0)) (sleep_quiet : IsQuiet sleep) where
  -- When the file can be opened, and every wait for an interrupt and every sleep ends, the program
  -- comes to an end for every string, and leaves all LEDs off and their interrupt disabled. The device is valid at the beginning, the LED socket accepts
  -- every command, and what happens during the waits and sleeps leaves the LEDs and directions alone.
  pub print_to_led_ends :
      (answers : IrqAnswers) (str : List ℕ) (device : LuxCdev)
      → IsValid device.device
      → (lux_smart_open answers device).1 ≡ count_of 0
      → (device' : LuxCdev) × (print_to_led write_ok wait sleep answers str device ≡ done device')
        × IsValid device'.device
        × (device_get_led_states device'.device ≡ 0)
        × (device'.device.led_ctrl ≡ 0)
  unfolding print_to_led after_open
  print_to_led_ends answers str device v opens =
      let ready =
        directed-IsReady (lux_smart_open answers device).0
          (lux_smart_open-IsValid answers device v) in
      let (b, run, ready_b) =
        print_string-IsReady write_ok wait sleep accepted wait_quiet sleep_quiet str _ ready in
      let (valid, dark_all, disabled) = finished_dark b ready_b in
      (finished b, rw (opens, run) refl, valid, dark_all, disabled)
