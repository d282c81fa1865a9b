-- ===== src/Drivers/Leds.antt =====
-- qemu-drivers/led-gpio/lux-led.c and lux-led-mc.c: the LEDs of the LED subsystem, over the GPIO chip
-- and over the LED registers of function 0.
pub mod Shown
use qemu_devices_and_drivers.Base.{
  ℕ, ◌+◌, ◌*◌, ◌%◌, ◌^◌, Bool, true, ◌==◌, ltb, if◌then◌else◌, List, Outcome, done, fault, bind,
  Option,
}
use qemu_devices_and_drivers.Protocol.{Color, LedCommand}
use qemu_devices_and_drivers.Lux.Device.{F0, SmartLed, smart_led_word}
use qemu_devices_and_drivers.Lux.Bar1.{f0_bar1_access}
use qemu_devices_and_drivers.Drivers.Gpio.{lux_gpio_set}

-- `lux_led_set_brightness`, where `gpiod_set_value` sets the pin of the LED.
unfoldable pub lux_led_set_brightness : F0 → (led_id brightness : ℕ) → F0
lux_led_set_brightness f led_id brightness =
    lux_gpio_set f led_id (if brightness == 0 then 0 else 1)

-- The LED that `lux_mc_led_set_brightness` writes. `components` is what `led_mc_calc_color_components`
-- gives for red, green and blue.
unfoldable pub led_data : (components : ℕ → ℕ × ℕ × ℕ) → ℕ → SmartLed
led_data components brightness =
    let (red, green, blue) = components brightness in
    record {
      state = if ltb 0 brightness then 1 else 0;
      color = record { c0 = red % 2 ^ 8; c1 = green % 2 ^ 8; c2 = blue % 2 ^ 8; c3 = 255 };
    }

unfoldable pub lux_mc_led_set_brightness :
    (List LedCommand → Bool) → (ℕ → ℕ × ℕ × ℕ) → F0 → (led_id brightness : ℕ) → Outcome F0
lux_mc_led_set_brightness write_ok components f led_id brightness =
    bind
      (f0_bar1_access write_ok f (smart_led_word (led_data components brightness)) 8 (led_id * 8)
        true)
      (λ r. done r.0)
