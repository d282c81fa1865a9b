-- ===== src/Clients/Print.antt =====
-- user-clients/print-to-led-pwrite.c: printing a string on the LEDs through the LED file, run against
-- the models of the driver and the device. What happens while a write waits for its interrupt is the
-- argument `wait`, and what happens while the program sleeps is `sleep`. The samples of the clock and
-- the statistics are not modelled.
pub mod Shown
pub mod Ended
use qemu_devices_and_drivers.Base.{
  ℕ, ◌+◌, ◌-◌, ◌*◌, ◌^◌, bit_and, Bool, false, List, [], ◌∷◌, Option, some, Outcome, done, bind,
  for_range,
}
use qemu_devices_and_drivers.Words.{◌>>>◌}
use qemu_devices_and_drivers.Protocol.{LedCommand}
use qemu_devices_and_drivers.Lux.Device.{SmartLed, smart_led_word}
use qemu_devices_and_drivers.Drivers.Cdev.{
  LuxCdev, CdevRet, count_of, minus, sizeof_smart_led, IrqAnswers, lux_smart_open,
  lux_smart_release, lux_smart_write, set_direction_out, get_info, clear_screen, lux_smart_ioctl,
}
use qemu_devices_and_drivers.Clients.Font.{font}

abbrev pub gpio_out_mask : ℕ
gpio_out_mask = 0xffffffffffffffff

abbrev pub row_nr : ℕ
row_nr = 8

abbrev pub col_nr : ℕ
col_nr = 8

-- The LED of column `x` and row `y` of a character.
unfoldable pub get_led_from_char : (c y x : ℕ) → SmartLed
get_led_from_char c y x = record {
  state = bit_and (font c y >>> (7 - x)) 1;
  color = record { c0 = 255; c1 = 255; c2 = 100; c3 = 255 };
}

module _ (write_ok : List LedCommand → Bool) (wait : LuxCdev → LuxCdev × Option ℕ)
    (sleep : LuxCdev → LuxCdev) where
  -- The result of `pwrite` is not looked at.
  unfoldable pub print_pixel : (c y x : ℕ) → LuxCdev → Outcome LuxCdev
  print_pixel c y x device =
      let led_id = y * 8 + x in
      bind
        (lux_smart_write write_ok wait device 8 (led_id * sizeof_smart_led)
          (some (smart_led_word (get_led_from_char c y x))))
        (λ r. done (sleep r.0))

  unfoldable pub print_char : ℕ → LuxCdev → Outcome LuxCdev
  print_char c device =
      bind (for_range row_nr 0 (λ y. for_range col_nr 0 (print_pixel c y)) device)
        (λ device'. done (sleep device'))

  unfoldable pub print_string : List ℕ → LuxCdev → Outcome LuxCdev
  print_string [] device = done device
  print_string (c ∷ str) device = bind (print_char c device) (print_string str)

  -- `main` from the result of `open` on. When the file cannot be opened, the program ends there.
  unfoldable pub after_open : List ℕ → LuxCdev → CdevRet → Outcome LuxCdev
  after_open str device (minus error) = done device
  after_open str device (count_of n) =
      let directed = (lux_smart_ioctl device (set_direction_out gpio_out_mask)).0 in
      bind (print_string str (lux_smart_ioctl directed (get_info false)).0)
        (λ printed. done (lux_smart_release (lux_smart_ioctl printed clear_screen).0).0)

  unfoldable pub print_to_led : IrqAnswers → List ℕ → LuxCdev → Outcome LuxCdev
  print_to_led answers str device =
      let opened = lux_smart_open answers device in after_open str opened.0 opened.1
