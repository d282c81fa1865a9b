-- ===== src/Lux/Events.antt =====
-- Events of the LED grid (`device_handle_led_protocol_events` of qemu-devices/lux/led.c), and the
-- guest accesses that the vfio library passes to the BAR callbacks. What `read` answers is an
-- argument.
pub mod Cause
use qemu_devices_and_drivers.Base.{
  ℕ, ◌^◌, bit_and, bit_or, Bool, true, false, not, ◌==◌, if◌then◌else◌, List, [], ◌∷◌, Outcome,
  done, fault, Option, none, some, ◌&&◌,
}
use qemu_devices_and_drivers.Words.{◌<<<◌}
use qemu_devices_and_drivers.Protocol.{
  LedCommand, LedEvent, lev_on, lev_off, lev_color, lev_err, lerr_unknown_cmd,
}
use qemu_devices_and_drivers.Lux.Device.{F0, F1, LuxSilicon}
use qemu_devices_and_drivers.Lux.Bar0.{f0_bar0_access}
use qemu_devices_and_drivers.Lux.Bar1.{f0_bar1_access}
use qemu_devices_and_drivers.Lux.Mgmt.{f1_bar0_access, is_set, hwirq_led, hwirq_led_err}

-- `LED_CTRL_IRQ_EN` and `enum led_irq_cause`.
abbrev pub led_ctrl_irq_en : ℕ
led_ctrl_irq_en = 1

abbrev pub lux_irq_led_on : ℕ
lux_irq_led_on = 1

abbrev pub lux_irq_led_off : ℕ
lux_irq_led_off = 2

abbrev pub lux_irq_led_color : ℕ
lux_irq_led_color = 4

abbrev pub lux_irq_led_err_unknown_cmd : ℕ
lux_irq_led_err_unknown_cmd = 8

-- What `read` of one event from the LED socket gives: an error, a part of an event, or an event.
pub data ReadEvent : Type 0 where
  read_error : ReadEvent
  read_part : ReadEvent
  read_event : LedEvent → ReadEvent

-- The end of a handler: it returns, with success or -1, or `errx` ends the process.
pub data Handled : Type 0 where
  returned : LuxSilicon → Bool → Handled
  exited : Handled

abbrev add_cause : LuxSilicon → ℕ → LuxSilicon
add_cause s cause = record s {
  f0 = record s.f0 { led_irq_cause = bit_or s.f0.led_irq_cause cause };
}

abbrev raise_line : LuxSilicon → ℕ → LuxSilicon
raise_line s line = record s {
  f1 = record s.f1 { irq_status = bit_or s.f1.irq_status (1 <<< line) };
}

-- The interrupt at the end of the handler.
unfoldable pub notify : LuxSilicon → LedEvent → LuxSilicon
notify s ev =
    if is_set s.f0.led_ctrl led_ctrl_irq_en
    then if not (ev.ev == lev_err) then raise_line s hwirq_led else raise_line s hwirq_led_err
    else s

unfoldable pub handle_event : LuxSilicon → LedEvent → Handled
handle_event s ev =
    if ev.ev == lev_on
    then returned (notify (add_cause s lux_irq_led_on) ev) true
    else if ev.ev == lev_off
    then returned (notify (add_cause s lux_irq_led_off) ev) true
    else if ev.ev == lev_color
    then returned (notify (add_cause s lux_irq_led_color) ev) true
    else if ev.ev == lev_err
    then returned
        (notify
          (if ev.error_code == lerr_unknown_cmd then add_cause s lux_irq_led_err_unknown_cmd else s)
          ev)
        true
    else exited

unfoldable pub device_handle_led_protocol_events : LuxSilicon → ReadEvent → Handled
device_handle_led_protocol_events s read_error = returned s false
device_handle_led_protocol_events s read_part = returned s false
device_handle_led_protocol_events s (read_event ev) = handle_event s ev

-- One access of the guest to a BAR.
pub data Access : Type 0 where
  f0_bar0 : (is_write : Bool) (buf count offset : ℕ) → Access
  f0_bar1 : (is_write : Bool) (buf count offset : ℕ) → Access
  f1_bar0 : (is_write : Bool) (buf count offset : ℕ) → Access

abbrev pub put_f0 : LuxSilicon → Outcome (F0 × Option ℕ) → Outcome LuxSilicon
put_f0 s (done (f, r)) = done (record s { f0 = f })
put_f0 s fault = fault

module _ (write_ok : List LedCommand → Bool) where
  unfoldable pub access : LuxSilicon → Access → Outcome LuxSilicon
  access s (f0_bar0 is_write buf count offset) =
      put_f0 s (done (f0_bar0_access s.f0 buf count offset is_write))
  access s (f0_bar1 is_write buf count offset) =
      put_f0 s (f0_bar1_access write_ok s.f0 buf count offset is_write)
  access s (f1_bar0 is_write buf count offset) =
      done (record s { f1 = (f1_bar0_access s.f1 buf count offset is_write).0 })

  -- The requests that one call of `vfu_run_ctx` serves.
  unfoldable pub accesses : LuxSilicon → List Access → Outcome LuxSilicon
  accesses s [] = done s
  accesses s (a ∷ rest) = elim (access s a) [ done s' ↦ accesses s' rest | fault ↦ fault ]
