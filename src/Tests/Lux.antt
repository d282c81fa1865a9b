-- ===== src/Tests/Lux.antt =====
-- The theorems of the Lux device at concrete inputs: an adapter with its pins 0 and 1 as outputs
-- and a timer that counts from 1000 on.
use qemu_devices_and_drivers.Base.{
  ℕ, zero, suc, ◌^◌, ◌≤◌, ◌<◌, bit_and, bit_or, Bool, true, false, List, [], ◌∷◌, get_or, replicate,
  none, some, fault, ◌⊎◌, ◌%◌, ◌≡◌, ◌↔◌, refl, sym, subst, arith,
}
use qemu_devices_and_drivers.Words.{u64, not64}
use qemu_devices_and_drivers.Protocol.{LedCommand, LedEvent, lev_on}
use qemu_devices_and_drivers.Lux.Device.{
  SmartLed, dark, F0, F1, LuxSilicon, IsValid, IsLuxValid, reg_data,
}
use qemu_devices_and_drivers.Lux.Led.{device_get_led_states}
use qemu_devices_and_drivers.Lux.Led.States.{IsRestKept}
use qemu_devices_and_drivers.Lux.Bar0.{f0_bar0_write, f0_bar0_access}
use qemu_devices_and_drivers.Lux.Bar0.Data.{read_data, f0_bar0_read-f0_bar0_write_data}
use qemu_devices_and_drivers.Lux.Bar1.{f0_bar1_read, f0_bar1_access}
use qemu_devices_and_drivers.Lux.Bar1.Access.{f0_bar1_access_fault_iff}
use qemu_devices_and_drivers.Lux.Mgmt.{device_timer_tick, is_set, timer_bit}
use qemu_devices_and_drivers.Lux.Mgmt.Timer.{ticks, oneshot_fires_once}
use qemu_devices_and_drivers.Lux.Events.{read_event, f0_bar0, f0_bar1}
use qemu_devices_and_drivers.Lux.Eventloop.{
  Loop, Input, poll_idle, poll_ready, pollin, quiet, served, attach_ok, led_readable,
}

get_or-replicate_default : {A : Type 0} (n i : ℕ) (a : A) → get_or (replicate n a) i a ≡ a
get_or-replicate_default zero i a = refl
get_or-replicate_default (suc n) zero a = refl
get_or-replicate_default (suc n) (suc i) a = get_or-replicate_default n i a

abbrev pub gpio : F0
gpio = record {
  direction = 3;
  led_ctrl = 1;
  led_irq_cause = 0;
  leds = replicate 64 dark;
  sent = [];
}

pub gpio-IsValid : IsValid gpio
gpio-IsValid = record {
  leds_count = refl;
  direction_fits = omega arith;
  led_ctrl_fits = omega arith;
  led_irq_cause_fits = omega arith;
  state_fits = λ j.
      subst (λ (l : SmartLed). l.state < 2 ^ 32) (sym (get_or-replicate_default 64 j dark))
        (omega arith);
}

abbrev any_ok : List LedCommand → Bool
any_ok sent = true

-- The timer is enabled, with its interrupt, and reloads.
abbrev pub mgmt : F1
mgmt = record {
  irq_status = 1;
  irq_mask = 2;
  timer_ctrl = 7;
  timer_val = 5;
  timer_cmp = 100;
  last_tick_ns = 1000;
  last_delta_ns = 50;
  fired = 0;
}

abbrev oneshot : F1
oneshot = record mgmt { timer_ctrl = 3 }

abbrev stopped : F1
stopped = record mgmt { timer_ctrl = 2 }

abbrev silicon : LuxSilicon
silicon = record { f0 = gpio; f1 = mgmt }

silicon-IsLuxValid : IsLuxValid silicon
silicon-IsLuxValid = record {
  f0_valid = gpio-IsValid;
  f1_valid = record {
    irq_status_fits = omega arith;
    irq_mask_fits = omega arith;
    timer_ctrl_fits = omega arith;
    timer_val_fits = omega arith;
    timer_cmp_fits = omega arith;
    last_delta_fits = omega arith;
  };
}

write_data_example :
    (read_data (f0_bar0_write gpio 7 8 reg_data).0
      ≡ some (bit_or (bit_and (u64 7) 3) (bit_and (device_get_led_states gpio) (not64 3))))
    × IsRestKept gpio (f0_bar0_write gpio 7 8 reg_data).0
write_data_example = f0_bar0_read-f0_bar0_write_data gpio 7 gpio-IsValid

refused : (f0_bar0_access gpio 5 4 reg_data true).1 ≡ none
unfolding f0_bar0_access f0_bar0_write
refused = refl

fault_example :
    ((f0_bar1_access any_ok gpio 0 8 600 false ≡ fault) ↔ (512 ≤ 600))
    × ((f0_bar1_read gpio 0 4 600 ≡ fault) ↔ (((512 ≤ 600) × (600 % 4 ≡ 0)) ⊎ (520 ≤ 600)))
fault_example = f0_bar1_access_fault_iff any_ok gpio 0 600 false

timer_enabled : is_set 7 timer_bit ≡ true
timer_enabled = refl

oneshot_example :
    ((device_timer_tick oneshot 2000).irq_status ≡ bit_or 1 1)
    × ((ticks (record (device_timer_tick oneshot 2000) { irq_status = 0 }) (3000 ∷ [])).irq_status
        ≡ 0)
oneshot_example = oneshot_fires_once oneshot 2000 0 (3000 ∷ []) refl refl

abbrev on_event : LedEvent
on_event = record { ev = lev_on; error_code = 0; led_id = 1 }

abbrev loop : Loop
loop = record { silicon = silicon; f0_is_connected = true; f1_is_connected = false }

abbrev inputs : List Input
inputs =
    poll_idle 1010
    ∷ poll_ready 1020
        (pollin (served (f0_bar0 true 7 8 reg_data ∷ f0_bar1 true 1 8 8 ∷ [])) attach_ok) quiet
        (led_readable (read_event on_event))
    ∷ []
