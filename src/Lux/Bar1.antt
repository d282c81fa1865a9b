-- ===== src/Lux/Bar1.antt =====
-- qemu-devices/lux/f0_bar1.c: the smart LEDs of function 0, and the colour functions of
-- qemu-devices/lux/led.c. Whether `write` on the LED socket accepts a command is the parameter
-- `write_ok`, a function of the commands that were passed to it before.
pub mod Access
pub mod Valid
use qemu_devices_and_drivers.Base.{
  ℕ, ◌+◌, ◌*◌, ◌/◌, ◌%◌, ◌^◌, bit_and, Bool, true, false, List, [], ◌∷◌, ◌++◌, ◌==◌, ◌||◌, ltb,
  if◌then◌else◌, get_or, set, Option, none, some, Outcome, done, fault,
}
use qemu_devices_and_drivers.Words.{u32, ◌<<<◌}
use qemu_devices_and_drivers.Protocol.{Color, LedCommand, color_word, word_color, cmd_set_color}
use qemu_devices_and_drivers.Lux.Device.{SmartLed, dark, smart_led_word, word_smart_led, F0, led_nr}
use qemu_devices_and_drivers.Lux.Led.{device_set_led_states, device_clr_led_states}

-- `enum f0_bar1_regs` and the size of its registers.
abbrev pub reg_state : ℕ
reg_state = 0x00

abbrev pub reg_color : ℕ
reg_color = 0x04

abbrev pub f0_bar1_reg_size : ℕ
f0_bar1_reg_size = 4

-- `offset / sizeof(struct smart_led)`.
abbrev pub led_id_of : ℕ → ℕ
led_id_of offset = offset / 8

-- A pointer to the LED may be one past the end of the array, as long as nothing is read through it.
unfoldable pub f0_bar1_read : F0 → ℕ → ℕ → ℕ → Outcome (F0 × Option ℕ)
f0_bar1_read f buf count offset =
    let led_id = led_id_of offset in
    let led = get_or f.leds led_id dark in
    let reg_offset = offset % f0_bar1_reg_size in
    if count == f0_bar1_reg_size * 2
    then if ltb led_id led_nr then done (f, some (smart_led_word led)) else fault
    else if count == f0_bar1_reg_size
    then if ltb led_id
        (if reg_offset == reg_state || reg_offset == reg_color then led_nr else led_nr + 1)
      then (let buf' : ℕ = if reg_offset == reg_state then led.state else buf in
          let buf'' : ℕ = if reg_offset == reg_color then color_word led.color else buf' in
          done (f, some buf''))
      else fault
    else done (f, none)

-- The result of `device_get_led_color`: what it stores through `color`.
unfoldable pub device_get_led_color : F0 → ℕ → Outcome ℕ
device_get_led_color f led_id =
    if ltb led_id led_nr then done (get_or f.leds led_id dark).color.c0 else fault

-- A shift by 64 or more is undefined, as is the array access.
unfoldable pub write_led_state : F0 → ℕ → ℕ → Outcome (F0 × Bool)
write_led_state f led_id state =
    if ltb led_id led_nr
    then if bit_and state 1 == 1
      then done ((device_set_led_states f (1 <<< led_id)).0, true)
      else done ((device_clr_led_states f (1 <<< led_id)).0, true)
    else fault

-- `if (... < 0) return -1;` before the next step.
abbrev pub and_then : Outcome (F0 × Bool) → (F0 → Outcome (F0 × Bool)) → Outcome (F0 × Bool)
and_then (done (f, true)) next = next f
and_then (done (f, false)) next = done (f, false)
and_then fault next = fault

-- `ret < 0 ? -1 : count`.
abbrev pub count_or_error : ℕ → Outcome (F0 × Bool) → Outcome (F0 × Option ℕ)
count_or_error count (done (f, true)) = done (f, some count)
count_or_error count (done (f, false)) = done (f, none)
count_or_error count fault = fault

module _ (write_ok : List LedCommand → Bool) where
  -- The colour is stored before the command is sent.
  unfoldable pub device_set_led_color : F0 → ℕ → Color → Outcome (F0 × Bool)
  device_set_led_color f led_id color =
      let cmd : LedCommand = record { cmd = cmd_set_color; led_id = led_id; color = color } in
      let led = record (get_or f.leds led_id dark) { color = color } in
      if ltb led_id led_nr
      then done
          (record f { leds = set f.leds led_id led; sent = f.sent ++ cmd ∷ [] }, write_ok f.sent)
      else fault

  unfoldable pub write_led_color : F0 → ℕ → Color → Outcome (F0 × Bool)
  write_led_color f led_id color = device_set_led_color f led_id color

  unfoldable pub f0_bar1_write_smart_led : F0 → ℕ → ℕ → Outcome (F0 × Bool)
  f0_bar1_write_smart_led f buf offset =
      let led = word_smart_led buf in
      let led_id = led_id_of offset in
      and_then (write_led_state f led_id led.state) (λ f'. write_led_color f' led_id led.color)

  unfoldable pub f0_bar1_write_smart_led_component : F0 → ℕ → ℕ → Outcome (F0 × Bool)
  f0_bar1_write_smart_led_component f buf offset =
      let led_id = led_id_of offset in
      let reg_offset = offset % f0_bar1_reg_size in
      if reg_offset == reg_state
      then write_led_state f led_id (u32 buf)
      else if reg_offset == reg_color
      then write_led_color f led_id (word_color buf)
      else done (f, true)

  unfoldable pub f0_bar1_write : F0 → ℕ → ℕ → ℕ → Outcome (F0 × Option ℕ)
  f0_bar1_write f buf count offset =
      if count == f0_bar1_reg_size * 2
      then count_or_error count (f0_bar1_write_smart_led f buf offset)
      else if count == f0_bar1_reg_size
      then count_or_error count (f0_bar1_write_smart_led_component f buf offset)
      else done (f, none)

  unfoldable pub f0_bar1_access : F0 → ℕ → ℕ → ℕ → Bool → Outcome (F0 × Option ℕ)
  f0_bar1_access f buf count offset is_write =
      if is_write then f0_bar1_write f buf count offset else f0_bar1_read f buf count offset
