-- ===== src/Clients/Print/Shown.antt =====
-- user-clients/print-to-led-pwrite.c: what the LEDs show after a string was printed.
use qemu_devices_and_drivers.Base.{
  ℕ, ◌+◌, ◌-◌, ◌*◌, ◌/◌, ◌%◌, ◌^◌, ◌<◌, bit_and, Bool, true, ◌==◌, if◌then◌else◌, Option, List, [],
  ◌∷◌, ◌++◌, get_or, done, bind, for_range, for_range-invariant, ◌≡◌, refl, ap, ◌∙◌, arith, ==_iff,
  ==_ne,
}
use native.Mathlib.Decide.{ℕ_discrete}
use qemu_devices_and_drivers.Words.{◌>>>◌}
use qemu_devices_and_drivers.Words.Bits.{
  bit, bit_and-one, bit_and-shr_one, bit-complement, bit_zero,
}
use qemu_devices_and_drivers.Protocol.{LedCommand, word_color}
use qemu_devices_and_drivers.Lux.Device.{SmartLed, smart_led_word, dark, IsValid}
use qemu_devices_and_drivers.Lux.Bar1.Access.{written_led}
use qemu_devices_and_drivers.Drivers.Cdev.{LuxCdev}
use qemu_devices_and_drivers.Drivers.Cdev.Written.{IsQuiet, lux_smart_write_led}
use qemu_devices_and_drivers.Drivers.Leds.Shown.{word_parts}
use qemu_devices_and_drivers.Clients.Font.{font}
use qemu_devices_and_drivers.Clients.Print.{
  gpio_out_mask, get_led_from_char, print_pixel, print_char, print_string,
}

-- A valid device all of whose pins are outputs.
pub record IsReady (c : LuxCdev) : Type 0 where
  pub valid : IsValid c.device
  pub all_out : (LuxCdev.device c).direction ≡ gpio_out_mask

-- LED `j` of a character, eight to a row: it is on when the bit of its column is set in its row of
-- the font, where the leftmost column has the highest bit. The colour is that of the text.
abbrev pub glyph_led : ℕ → ℕ → SmartLed
glyph_led c j = record {
  state = bit (font c (j / 8)) (7 - j % 8);
  color = record { c0 = 255; c1 = 255; c2 = 100; c3 = 255 };
}

glyph_led-get_led_from_char :
    (c y x : ℕ) → x < 8 → get_led_from_char c y x ≡ glyph_led c (y * 8 + x)
unfolding get_led_from_char
glyph_led-get_led_from_char c y x l =
    let row : (y * 8 + x) / 8 ≡ y = omega arith in
    let column : (y * 8 + x) % 8 ≡ x = omega arith in
    rw (row, column, bit_and-shr_one (font c y) (7 - x)) refl

-- The first `n` LEDs show the character.
abbrev pub Shows : ℕ → ℕ → LuxCdev → Type 0
Shows c n device = (j : ℕ) → j < n → get_or (LuxCdev.device device).leds j dark ≡ glyph_led c j

pub every_pin : (j : ℕ) → j < 64 → bit gpio_out_mask j ≡ 1
every_pin j l = omega (arith, bit-complement 64 0 j (omega arith) l, bit_zero j)

-- The word of an LED of a character, taken apart.
glyph_word :
    (c y x : ℕ)
    → let led = get_led_from_char c y x in
      (smart_led_word led % 2 ≡ led.state) × (word_color (smart_led_word led / 2 ^ 32) ≡ led.color)
unfolding get_led_from_char
glyph_word c y x =
    word_parts (bit_and (font c y >>> (7 - x)) 1) 255 255 100
      (omega (arith, bit_and-one (font c y >>> (7 - x)))) (omega arith) (omega arith) (omega arith)

module _ (write_ok : List LedCommand → Bool) (wait : LuxCdev → LuxCdev × Option ℕ)
    (sleep : LuxCdev → LuxCdev) (accepted : (sent : List LedCommand) → write_ok sent ≡ true)
    (wait_quiet : IsQuiet (λ c. (wait c).0)) (sleep_quiet : IsQuiet sleep) where
  pixel_shown :
      (c y x : ℕ) (device : LuxCdev)
      → x < 8
      → y < 8
      → IsReady device
      → Shows c (y * 8 + x) device
      → (device' : LuxCdev) × (print_pixel write_ok wait sleep c y x device ≡ done device')
        × IsReady device'
        × Shows c (y * 8 + (x + 1)) device'
  unfolding print_pixel
  pixel_shown c y x device lx ly ready shown =
      let i = y * 8 + x in
      let led = get_led_from_char c y x in
      let (r, wrote, valid, direction, leds) =
        lux_smart_write_led write_ok wait device i (smart_led_word led) ready.valid (omega arith)
          accepted wait_quiet in
      (
        sleep r.0,
        rw wrote refl,
        record {
          valid = sleep_quiet.stays_valid r.0 valid;
          all_out = sleep_quiet.direction_kept r.0 ∙ direction ∙ ready.all_out;
        },
        λ j l. rw (sleep_quiet.leds_kept r.0) (leds j ∙ now j l),
      )
    where
      now :
          (j : ℕ)
          → j < y * 8 + (x + 1)
          → (if y * 8 + x == j
              then written_led device.device (y * 8 + x) (smart_led_word (get_led_from_char c y x))
              else get_or device.device.leds j dark)
            ≡ glyph_led c j
      now j l = elim (ℕ_discrete (y * 8 + x) j) [
        | yes e ↦
            rw
              (
                ← e,
                (==_iff (y * 8 + x) (y * 8 + x)).1 refl,
                ready.all_out,
                every_pin (y * 8 + x) (omega arith),
                (glyph_word c y x).0,
                (glyph_word c y x).1,
              )
              (glyph_led-get_led_from_char c y x lx)
        | no n ↦ rw (==_ne (y * 8 + x) j n) (shown j (omega arith))
      ]

  row_shown :
      (c y : ℕ) (device : LuxCdev)
      → y < 8
      → IsReady device
      → Shows c (y * 8) device
      → (device' : LuxCdev) × (for_range 8 0 (print_pixel write_ok wait sleep c y) device
          ≡ done device')
        × IsReady device'
        × Shows c ((y + 1) * 8) device'
  row_shown c y device ly ready shown =
      let (device', run, (ready', shown')) =
        for_range-invariant (λ x b. IsReady b × Shows c (y * 8 + x) b) 8 0
          (print_pixel write_ok wait sleep c y) device (ready, λ j l. shown j (omega (arith, l)))
          (λ x b _ lx (ready_b, shows_b).
            let (b', e, ready_b', shows_b') =
              pixel_shown c y x b (omega (arith, lx)) ly ready_b shows_b in
            (b', e, (ready_b', shows_b'))) in
      (device', run, ready', λ j l. shown' j (omega (arith, l)))

  pub print_char-Shows :
      (c : ℕ) (device : LuxCdev)
      → IsReady device
      → (device' : LuxCdev) × (print_char write_ok wait sleep c device ≡ done device')
        × IsReady device'
        × Shows c 64 device'
  unfolding print_char
  print_char-Shows c device ready =
      let (b, run, (ready_b, shows_b)) =
        for_range-invariant (λ y b. IsReady b × Shows c (y * 8) b) 8 0
          (λ y. for_range 8 0 (print_pixel write_ok wait sleep c y)) device
          (ready, λ j l. absurd (omega (arith, l)))
          (λ y b _ ly (ready_b, shows_b).
            let (b', e, ready_b', shows_b') = row_shown c y b (omega (arith, ly)) ready_b shows_b in
            (b', e, (ready_b', shows_b'))) in
      (
        sleep b,
        rw run refl,
        record {
          valid = sleep_quiet.stays_valid b ready_b.valid;
          all_out = sleep_quiet.direction_kept b ∙ ready_b.all_out;
        },
        λ j l. rw (sleep_quiet.leds_kept b) (shows_b j l),
      )

  pub print_string-IsReady :
      (str : List ℕ) (device : LuxCdev)
      → IsReady device
      → (device' : LuxCdev) × (print_string write_ok wait sleep str device ≡ done device')
        × IsReady device'
  unfolding print_string
  print_string-IsReady [] device ready = (device, refl, ready)
  print_string-IsReady (c ∷ str) device ready =
      let (b, first, ready_b, _) = print_char-Shows c device ready in
      let (device', rest, ready') = print_string-IsReady str b ready_b in
      (device', ap (λ r. bind r (print_string write_ok wait sleep str)) first ∙ rest, ready')

  -- When every wait for an interrupt and every sleep ends, printing a string comes to an end, and then
  -- the LEDs show its last character: LED `8 * y + x` is on when the bit of column `x`, counted from
  -- the highest, is set in row `y` of the font, and has the colour of the text, which is (255, 255,
  -- 100). The device is valid with all of its pins as outputs at the beginning, the LED socket accepts
  -- every command, and what happens during the waits and sleeps leaves the LEDs and directions alone.
  pub print_string-Shows :
      (str : List ℕ) (c : ℕ) (device : LuxCdev)
      → IsReady device
      → (device' : LuxCdev) × (print_string write_ok wait sleep (str ++ c ∷ []) device
          ≡ done device')
        × IsReady device'
        × Shows c 64 device'
  unfolding print_string
  print_string-Shows [] c device ready =
      let (b, run, ready_b, shows_b) = print_char-Shows c device ready in
      (b, rw run refl, ready_b, shows_b)
  print_string-Shows (d ∷ str) c device ready =
      let (b, first, ready_b, _) = print_char-Shows d device ready in
      let (device', rest, ready', shows') = print_string-Shows str c b ready_b in
      (
        device',
        ap (λ r. bind r (print_string write_ok wait sleep (str ++ c ∷ []))) first ∙ rest,
        ready',
        shows',
      )
