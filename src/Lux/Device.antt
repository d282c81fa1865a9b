-- ===== src/Lux/Device.antt =====
-- The state of qemu-devices/lux/include/device.h and the register map of include/hw.h.
-- The vfio contexts, socket paths and descriptors are not state of the model. What the device
-- passes to `write` on the LED socket is kept in `sent`, oldest first, and the calls of
-- `vfu_irq_trigger` are counted in `fired`.
use qemu_devices_and_drivers.Base.{ℕ, ◌+◌, ◌*◌, ◌/◌, ◌%◌, ◌^◌, ◌<◌, ◌≡◌, List, length, get_or}
use qemu_devices_and_drivers.Protocol.{Color, black, color_word, word_color, LedCommand}

pub record SmartLed : Type 0 where
  pub state : ℕ
  pub color : Color

abbrev pub dark : SmartLed
dark = record { state = 0; color = black }

-- The packed struct as one little-endian 64-bit value, and back.
unfoldable pub smart_led_word : SmartLed → ℕ
unfolding color_word
smart_led_word led = led.state + color_word led.color * 2 ^ 32

unfoldable pub word_smart_led : ℕ → SmartLed
unfolding word_color
word_smart_led w = record { state = w % 2 ^ 32; color = word_color (w / 2 ^ 32) }

-- The registers of function 0.
pub record F0 : Type 0 where
  pub direction : ℕ
  pub led_ctrl : ℕ
  pub led_irq_cause : ℕ
  pub leds : List SmartLed
  pub sent : List LedCommand

-- The registers of function 1.
pub record F1 : Type 0 where
  pub irq_status : ℕ
  pub irq_mask : ℕ
  pub timer_ctrl : ℕ
  pub timer_val : ℕ
  pub timer_cmp : ℕ
  pub last_tick_ns : ℕ
  pub last_delta_ns : ℕ
  pub fired : ℕ

pub record LuxSilicon : Type 0 where
  pub f0 : F0
  pub f1 : F1

abbrev pub led_nr : ℕ
led_nr = 64

-- Every register of function 0 fits its width, and the LED file has its 64 entries.
pub record IsValid (f : F0) : Type 0 where
  pub leds_count : length f.leds ≡ led_nr
  pub direction_fits : f.direction < 2 ^ 64
  pub led_ctrl_fits : f.led_ctrl < 2 ^ 32
  pub led_irq_cause_fits : f.led_irq_cause < 2 ^ 32
  pub state_fits : (j : ℕ) → (get_or f.leds j dark).state < 2 ^ 32

-- Every register of function 1 fits its width.
pub record IsMgmtValid (f : F1) : Type 0 where
  pub irq_status_fits : f.irq_status < 2 ^ 32
  pub irq_mask_fits : f.irq_mask < 2 ^ 32
  pub timer_ctrl_fits : f.timer_ctrl < 2 ^ 32
  pub timer_val_fits : f.timer_val < 2 ^ 64
  pub timer_cmp_fits : f.timer_cmp < 2 ^ 64
  pub last_delta_fits : f.last_delta_ns < 2 ^ 64

pub record IsLuxValid (s : LuxSilicon) : Type 0 where
  pub f0_valid : IsValid s.f0
  pub f1_valid : IsMgmtValid s.f1

-- `enum f0_bar0_regs`.
abbrev pub reg_magic : ℕ
reg_magic = 0x00

abbrev pub reg_version : ℕ
reg_version = 0x04

abbrev pub reg_direction : ℕ
reg_direction = 0x08

abbrev pub reg_data : ℕ
reg_data = 0x10

abbrev pub reg_set : ℕ
reg_set = 0x18

abbrev pub reg_clr : ℕ
reg_clr = 0x20

abbrev pub reg_led_ctrl : ℕ
reg_led_ctrl = 0x28

abbrev pub reg_led_irq_cause : ℕ
reg_led_irq_cause = 0x2c

abbrev pub magic : ℕ
magic = 0x4750494F

abbrev pub version : ℕ
version = 0x1

-- `enum led_direction`.
abbrev pub direction_out : ℕ
direction_out = 1

-- `enum f1_bar0_regs`.
abbrev pub reg_irq_status : ℕ
reg_irq_status = 0x00

abbrev pub reg_irq_mask : ℕ
reg_irq_mask = 0x04

abbrev pub reg_irq_ack : ℕ
reg_irq_ack = 0x08

abbrev pub reg_timer_ctrl : ℕ
reg_timer_ctrl = 0x0c

abbrev pub reg_timer_time : ℕ
reg_timer_time = 0x10

abbrev pub reg_timer_cmp : ℕ
reg_timer_cmp = 0x18
