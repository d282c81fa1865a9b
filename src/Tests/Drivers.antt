-- ===== src/Tests/Drivers.antt =====
-- The theorems of the drivers at concrete inputs.
use qemu_devices_and_drivers.Base.{◌==◌, if◌then◌else◌, ◌≡◌, arith}
use qemu_devices_and_drivers.Drivers.Gpio.{
  lux_gpio_get, lux_gpio_get_direction, lux_gpio_direction_output, gpio_line_direction_out,
}
use qemu_devices_and_drivers.Drivers.Gpio.Pins.{lux_gpio_get-lux_gpio_direction_output}
use qemu_devices_and_drivers.Tests.Lux.{gpio, gpio-IsValid}

output_example :
    (lux_gpio_get (lux_gpio_direction_output gpio 5 1) 5
      ≡ (if 5 == 5 then (if 1 == 0 then 0 else 1) else lux_gpio_get gpio 5))
    × (lux_gpio_get_direction (lux_gpio_direction_output gpio 5 1) 5
        ≡ (if 5 == 5 then gpio_line_direction_out else lux_gpio_get_direction gpio 5))
output_example = lux_gpio_get-lux_gpio_direction_output gpio 5 1 5 gpio-IsValid (omega arith)
