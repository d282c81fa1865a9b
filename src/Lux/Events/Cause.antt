-- ===== src/Lux/Events/Cause.antt =====
-- Which causes and lines an event of the LED grid raises.
use qemu_devices_and_drivers.Base.{
  ℕ, bit_or, Bool, true, false, ◌==◌, if◌then◌else◌, ◌≡◌, ◌||◌, refl, arith,
}
use qemu_devices_and_drivers.Words.Bits.{bit_or-zero}
use qemu_devices_and_drivers.Protocol.{
  LedEvent, lev_on, lev_off, lev_color, lev_err, lerr_unknown_cmd,
}
use qemu_devices_and_drivers.Lux.Device.{LuxSilicon}
use qemu_devices_and_drivers.Lux.Mgmt.{is_set}
use qemu_devices_and_drivers.Lux.Events.{
  read_error, read_part, read_event, returned, exited, device_handle_led_protocol_events,
  handle_event, notify, led_ctrl_irq_en,
}

-- The cause bit that an event stands for.
abbrev pub cause_of : LedEvent → ℕ
cause_of ev = if ev.ev == lev_err then if ev.error_code == lerr_unknown_cmd then 8 else 0 else ev.ev

-- The lines of function 1 that an event raises: none when LED interrupts are off, else line 2 for
-- an error event and line 1 for any other.
abbrev pub lines_of : LuxSilicon → LedEvent → ℕ
lines_of s ev =
    if is_set s.f0.led_ctrl led_ctrl_irq_en then if ev.ev == lev_err then 4 else 2 else 0

abbrev pub is_known : LedEvent → Bool
is_known ev = ev.ev == lev_on || ev.ev == lev_off || ev.ev == lev_color || ev.ev == lev_err

-- Handling an event of one of the four known types succeeds: it adds the cause bit of the event to
-- the cause register and raises the lines of the event, and changes nothing else. An event of any
-- other type ends the process. A failed or partial read changes nothing and is an error.
pub device_handle_led_protocol_events_lem :
    (s : LuxSilicon) (ev : LedEvent)
    → (device_handle_led_protocol_events s (read_event ev) ≡ (
        if is_known ev
        then returned
            (record s {
              f0 = record s.f0 { led_irq_cause = bit_or s.f0.led_irq_cause (cause_of ev) };
              f1 = record s.f1 { irq_status = bit_or s.f1.irq_status (lines_of s ev) };
            })
            true
        else exited))
      × (device_handle_led_protocol_events s read_error ≡ returned s false)
      × (device_handle_led_protocol_events s read_part ≡ returned s false)
unfolding device_handle_led_protocol_events handle_event notify
device_handle_led_protocol_events_lem s ev =
    (ground (arith, bit_or-zero s.f0.led_irq_cause, bit_or-zero s.f1.irq_status), refl, refl)
