-- ===== src/Protocol.antt =====
-- qemu-devices/led/include/protocol.h: the messages between a GPIO device and the LED grid.
-- The enums are bytes on the wire, so any value may arrive: they are kept as numbers.
-- `led_id` is the bit pattern of an `int32_t`.
use qemu_devices_and_drivers.Base.{ℕ, ◌+◌, ◌*◌, ◌/◌, ◌%◌, ◌^◌}

-- The four bytes `uint8_t color[4]` of a command or of an LED.
pub record Color : Type 0 where
  pub c0 : ℕ
  pub c1 : ℕ
  pub c2 : ℕ
  pub c3 : ℕ

abbrev pub black : Color
black = record { c0 = 0; c1 = 0; c2 = 0; c3 = 0 }

-- The bytes read as a little-endian `uint32_t`, and back.
unfoldable pub color_word : Color → ℕ
color_word c = c.c0 + c.c1 * 2 ^ 8 + c.c2 * 2 ^ 16 + c.c3 * 2 ^ 24

unfoldable pub word_color : ℕ → Color
word_color w = record {
  c0 = w % 2 ^ 8;
  c1 = w / 2 ^ 8 % 2 ^ 8;
  c2 = w / 2 ^ 16 % 2 ^ 8;
  c3 = w / 2 ^ 24 % 2 ^ 8;
}

abbrev pub cmd_toggle : ℕ
cmd_toggle = 1

abbrev pub cmd_on : ℕ
cmd_on = 2

abbrev pub cmd_off : ℕ
cmd_off = 4

abbrev pub cmd_set_color : ℕ
cmd_set_color = 8

abbrev pub lev_on : ℕ
lev_on = 1

abbrev pub lev_off : ℕ
lev_off = 2

abbrev pub lev_color : ℕ
lev_color = 4

abbrev pub lev_err : ℕ
lev_err = 8

abbrev pub lerr_unknown_cmd : ℕ
lerr_unknown_cmd = 1

pub record LedCommand : Type 0 where
  pub cmd : ℕ
  pub led_id : ℕ
  pub color : Color

pub record LedEvent : Type 0 where
  pub ev : ℕ
  pub error_code : ℕ
  pub led_id : ℕ
