-- ===== src/Drivers/Leds/Shown.antt =====
-- What an LED of the LED subsystem shows after its brightness was set.
use qemu_devices_and_drivers.Base.{
  ℕ, ◌*◌, ◌/◌, ◌%◌, ◌^◌, ◌<◌, Bool, true, false, ◌==◌, ltb, if◌then◌else◌, List, get_or, done, ◌≡◌,
  refl, ◌∙◌, arith,
}
use qemu_devices_and_drivers.Protocol.{LedCommand, word_color}
use qemu_devices_and_drivers.Lux.Device.{F0, SmartLed, dark, smart_led_word, led_nr, IsValid}
use qemu_devices_and_drivers.Lux.Bar1.{f0_bar1_access}
use qemu_devices_and_drivers.Lux.Bar1.Access.{f0_bar1_read-f0_bar1_write}
use qemu_devices_and_drivers.Words.Bits.{bit}
use qemu_devices_and_drivers.Drivers.Leds.{led_data, lux_mc_led_set_brightness}

pub word_parts :
    (state r g b : ℕ)
    → state < 2
    → r < 256
    → g < 256
    → b < 256
    → let led : SmartLed = record {
      state = state;
      color = record { c0 = r; c1 = g; c2 = b; c3 = 255 };
    } in
      (smart_led_word led % 2 ≡ state) × (word_color (smart_led_word led / 2 ^ 32) ≡ led.color)
unfolding smart_led_word word_color
word_parts state r g b ls lr lg lb = (omega arith, ground arith)

switch-lt : (b : Bool) → (if b then 1 else 0) < 2
switch-lt true = omega arith
switch-lt false = omega arith

-- The parts of the word that the driver writes.
led_word_parts :
    (components : ℕ → ℕ × ℕ × ℕ) (brightness : ℕ)
    → let led = led_data components brightness in
      (smart_led_word led % 2 ≡ led.state) × (word_color (smart_led_word led / 2 ^ 32) ≡ led.color)
unfolding led_data
led_word_parts components brightness =
    let (red, green, blue) = components brightness in
    word_parts (if ltb 0 brightness then 1 else 0) (red % 2 ^ 8) (green % 2 ^ 8) (blue % 2 ^ 8)
      (switch-lt (ltb 0 brightness)) (omega arith) (omega arith) (omega arith)

led_state :
    (components : ℕ → ℕ × ℕ × ℕ) (brightness : ℕ)
    → (led_data components brightness).state ≡ (if ltb 0 brightness then 1 else 0)
unfolding led_data
led_state components brightness = refl

-- Setting the brightness of LED `i` writes its colour components with full alpha, and switches it
-- on exactly when the brightness is not 0, if its pin is an output. The other LEDs are as they were.
lux_mc_led_set_brightness_lem :
    (write_ok : List LedCommand → Bool) (components : ℕ → ℕ × ℕ × ℕ) (f : F0) (i brightness j : ℕ)
    → IsValid f
    → i < led_nr
    → ((sent : List LedCommand) → write_ok sent ≡ true)
    → (f' : F0) × (lux_mc_led_set_brightness write_ok components f i brightness ≡ done f')
      × (get_or f'.leds j dark ≡ (
          if i == j
          then record {
            state =
                if bit f.direction i == 1
                then (if ltb 0 brightness then 1 else 0)
                else (get_or f.leds i dark).state;
            color = (led_data components brightness).color;
          }
          else get_or f.leds j dark))
unfolding lux_mc_led_set_brightness f0_bar1_access
lux_mc_led_set_brightness_lem write_ok components f i brightness j v l accepted =
    let (f', wrote, _, shows) =
      f0_bar1_read-f0_bar1_write write_ok f (smart_led_word (led_data components brightness)) i 0 j
        v l accepted in
    let parts = led_word_parts components brightness in
    (
      f',
      rw (eighth i, wrote) refl,
      shows ∙ rw (parts.0, parts.1, led_state components brightness) refl,
    )
  where
    eighth : (i : ℕ) → i * 8 ≡ 8 * i
    eighth i = omega arith
