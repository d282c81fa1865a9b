-- ===== src/Drivers/Gpio.antt =====
-- qemu-drivers/led-gpio/lux-gpio-chip.c: the operations of the GPIO chip. `readq` and `writeq` reach
-- BAR 0 of function 0; what the kernel reads when the device refuses is all ones.
pub mod Pins
use qemu_devices_and_drivers.Base.{
  ℕ, ◌%◌, ◌^◌, bit_and, bit_or, ◌==◌, if◌then◌else◌, Option, none, some, Bool, true, false,
}
use qemu_devices_and_drivers.Words.{u64, not64, ◌<<<◌, ◌>>>◌}
use qemu_devices_and_drivers.Lux.Device.{
  F0, reg_direction, reg_data, reg_set, reg_clr, direction_out,
}
use qemu_devices_and_drivers.Lux.Bar0.{f0_bar0_access}

-- Linux: `GPIO_LINE_DIRECTION_OUT` and `GPIO_LINE_DIRECTION_IN`.
abbrev pub gpio_line_direction_out : ℕ
gpio_line_direction_out = 0

abbrev pub gpio_line_direction_in : ℕ
gpio_line_direction_in = 1

unfoldable pub readq : F0 → ℕ → ℕ
readq f offset = elim (f0_bar0_access f 0 8 offset false).1 [ none ↦ not64 0 | some value ↦ value ]

unfoldable pub writeq : F0 → ℕ → ℕ → F0
writeq f value offset = (f0_bar0_access f value 8 offset true).0

unfoldable pub lux_gpio_set : F0 → ℕ → ℕ → F0
lux_gpio_set f offset value =
    let pin_mask = u64 (1 <<< offset) in
    if value == 0 then writeq f pin_mask reg_clr else writeq f pin_mask reg_set

unfoldable pub lux_gpio_direction_output : F0 → ℕ → ℕ → F0
lux_gpio_direction_output f offset value =
    let pin_mask = u64 (1 <<< offset) in
    let original_direction = readq f reg_direction in
    let new_direction = bit_or pin_mask original_direction in
    let f' = writeq f new_direction reg_direction in
    if value == 0 then writeq f' pin_mask reg_clr else writeq f' pin_mask reg_set

unfoldable pub lux_gpio_direction_input : F0 → ℕ → F0
lux_gpio_direction_input f offset =
    let pin_mask = u64 (1 <<< offset) in
    let original_direction = readq f reg_direction in
    let new_direction = bit_and (not64 pin_mask) original_direction in
    writeq f new_direction reg_direction

unfoldable pub lux_gpio_get_direction : F0 → ℕ → ℕ
lux_gpio_get_direction f offset =
    let hw_direction = bit_and (readq f reg_direction >>> offset) 1 in
    if hw_direction == direction_out then gpio_line_direction_out else gpio_line_direction_in

unfoldable pub lux_gpio_get : F0 → ℕ → ℕ
lux_gpio_get f offset = bit_and (readq f reg_data >>> offset) 1

unfoldable pub lux_gpio_set_multiple : F0 → ℕ → ℕ → F0
lux_gpio_set_multiple f mask bits =
    let f' = writeq f (bit_and mask bits) reg_set in writeq f' (bit_and mask (not64 bits)) reg_clr

unfoldable pub lux_gpio_get_multiple : F0 → ℕ → ℕ
lux_gpio_get_multiple f mask = bit_and (readq f reg_data) mask
