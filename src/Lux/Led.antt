-- ===== src/Lux/Led.antt =====
-- qemu-devices/lux/led.c: reading and driving the LED pins.
pub mod Pins
pub mod States
use qemu_devices_and_drivers.Base.{
  ℕ, zero, suc, ◌+◌, ◌*◌, ◌/◌, ◌%◌, ◌^◌, bit_and, bit_or, Bool, true, false, not, List, [], ◌∷◌,
  ◌++◌, ◌==◌, if◌then◌else◌, get_or, set,
}
use qemu_devices_and_drivers.Words.{◌>>>◌, ◌<<<◌}
use qemu_devices_and_drivers.Protocol.{Color, black, LedCommand, cmd_on, cmd_off, cmd_set_color}
use qemu_devices_and_drivers.Lux.Device.{SmartLed, dark, F0, led_nr, direction_out}

-- The loop of `device_get_led_states` from LED `i` on, with `left` rounds to go.
pub get_loop : List SmartLed → ℕ → ℕ → ℕ → ℕ
get_loop leds zero i states = states
get_loop leds (suc left) i states =
    let state = bit_and (get_or leds i dark).state 1 in
    let mask = state <<< i in get_loop leds left (i + 1) (bit_or states mask)

unfoldable pub device_get_led_states : F0 → ℕ
unfolding get_loop
device_get_led_states f = get_loop f.leds led_nr 0 0

-- The body of the loops of `device_set_led_states` and `device_clr_led_states`, which differ in
-- the level that is stored and the command that is sent. A pin that is not selected by `states`
-- or not an output is left alone.
pub drive_pin : ℕ → ℕ → ℕ → ℕ → ℕ → F0 × ℕ → F0 × ℕ
drive_pin level command states direction i (f, count) =
    if bit_and (states >>> i) 1 == 0
    then (f, count)
    else if not (bit_and (direction >>> i) 1 == direction_out)
    then (f, count)
    else (
      record f {
        leds = set f.leds i (record (get_or f.leds i dark) { state = level });
        sent = f.sent ++ record { cmd = command; led_id = i; color = black } ∷ [];
      },
      count + 1,
    )

pub drive_loop : ℕ → ℕ → ℕ → ℕ → ℕ → ℕ → F0 × ℕ → F0 × ℕ
drive_loop level command states direction zero i s = s
drive_loop level command states direction (suc left) i s =
    drive_loop level command states direction left (i + 1)
      (drive_pin level command states direction i s)

-- The result is the number of LEDs that were set.
unfoldable pub device_set_led_states : F0 → ℕ → F0 × ℕ
unfolding drive_loop drive_pin
device_set_led_states f states = drive_loop 1 cmd_on states f.direction led_nr 0 (f, 0)

unfoldable pub device_clr_led_states : F0 → ℕ → F0 × ℕ
unfolding drive_loop drive_pin
device_clr_led_states f states = drive_loop 0 cmd_off states f.direction led_nr 0 (f, 0)
