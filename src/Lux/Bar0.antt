-- ===== src/Lux/Bar0.antt =====
-- qemu-devices/lux/f0_bar0.c: the GPIO registers of function 0.
-- `buf` is the little-endian content of the buffer. A read gives what it leaves there, a write the
-- byte count, and `none` is the result -1.
pub mod Data
use qemu_devices_and_drivers.Base.{
  ℕ, ◌+◌, ◌-◌, ◌%◌, ◌^◌, bit_and, bit_or, bit_xor, ◌==◌, if◌then◌else◌, Option, none, some, Bool,
}
use qemu_devices_and_drivers.Words.{u32, u64, not64}
use qemu_devices_and_drivers.Lux.Device.{
  F0, reg_magic, reg_version, reg_direction, reg_data, reg_set, reg_clr, reg_led_ctrl,
  reg_led_irq_cause, magic, version,
}
use qemu_devices_and_drivers.Lux.Led.{
  device_get_led_states, device_set_led_states, device_clr_led_states,
}

-- A register that is read with `width` bytes and no others.
abbrev sized : ℕ → ℕ → F0 → ℕ → F0 → F0 × Option ℕ
sized width count f value f' = if count == width then (f', some value) else (f, none)

unfoldable pub f0_bar0_read : F0 → ℕ → ℕ → F0 × Option ℕ
f0_bar0_read f count offset =
    if offset == reg_magic
    then sized 4 count f magic f
    else if offset == reg_version
    then sized 4 count f version f
    else if offset == reg_direction
    then sized 8 count f f.direction f
    else if offset == reg_data
    then sized 8 count f (device_get_led_states f) f
    else if offset == reg_led_ctrl
    then sized 4 count f f.led_ctrl f
    else if offset == reg_led_irq_cause
    then sized 4 count f f.led_irq_cause (record f { led_irq_cause = 0 })
    else (f, none)

-- `REG_DIRECTION`: 4 bytes replace the lower half.
unfoldable pub write_direction : F0 → ℕ → ℕ → F0 × Option ℕ
write_direction f buf count =
    if count == 4
    then (record f { direction = f.direction - f.direction % 2 ^ 32 + u32 buf }, some count)
    else if count == 8
    then (record f { direction = u64 buf }, some count)
    else (f, none)

-- `REG_DATA`.
unfoldable pub write_data : F0 → ℕ → F0
write_data f buf =
    let states = u64 buf in
    let changed_leds = bit_xor states (device_get_led_states f) in
    let f' = (device_set_led_states f (bit_and states changed_leds)).0 in
    (device_clr_led_states f' (bit_and (not64 states) changed_leds)).0

-- `REG_SET`: only pins that are now 0.
unfoldable pub write_set : F0 → ℕ → F0
write_set f buf =
    let mask = u64 buf in
    let current_states = device_get_led_states f in
    (device_set_led_states f (bit_and mask (not64 current_states))).0

-- `REG_CLR`: only pins that are now 1.
unfoldable pub write_clr : F0 → ℕ → F0
write_clr f buf =
    let mask = u64 buf in
    let current_states = device_get_led_states f in
    (device_clr_led_states f (bit_and mask current_states)).0

unfoldable pub f0_bar0_write : F0 → ℕ → ℕ → ℕ → F0 × Option ℕ
f0_bar0_write f buf count offset =
    if offset == reg_direction
    then write_direction f buf count
    else if offset == reg_data
    then (if count == 8 then (write_data f buf, some count) else (f, none))
    else if offset == reg_set
    then (if count == 8 then (write_set f buf, some count) else (f, none))
    else if offset == reg_clr
    then (if count == 8 then (write_clr f buf, some count) else (f, none))
    else if offset == reg_led_ctrl
    then (if count == 4 then (record f { led_ctrl = u32 buf }, some count) else (f, none))
    else (f, none)

unfoldable pub f0_bar0_access : F0 → ℕ → ℕ → ℕ → Bool → F0 × Option ℕ
f0_bar0_access f buf count offset is_write =
    if is_write then f0_bar0_write f buf count offset else f0_bar0_read f count offset
