-- ===== src/Lux/Eventloop/Valid.antt =====
-- The device stays valid through every run of the event loop.
use qemu_devices_and_drivers.Base.{
  ℕ, Bool, true, false, List, [], ◌∷◌, Outcome, done, fault, Option, bit_or, ◌^◌, ◌<◌, ◌≡◌, arith,
  Bool-cases, inl, inr,
}
use qemu_devices_and_drivers.Words.Bits.{bit_or-lt}
use qemu_devices_and_drivers.Protocol.{LedCommand, LedEvent}
use qemu_devices_and_drivers.Lux.Device.{F0, LuxSilicon, IsLuxValid}
use qemu_devices_and_drivers.Lux.Bar0.{f0_bar0_access}
use qemu_devices_and_drivers.Lux.Bar0.Data.{f0_bar0_access-IsValid}
use qemu_devices_and_drivers.Lux.Bar1.{f0_bar1_access}
use qemu_devices_and_drivers.Lux.Bar1.Valid.{KeepsValid, f0_bar1_access-KeepsValid}
use qemu_devices_and_drivers.Lux.Mgmt.Valid.{
  f1_bar0_access-IsMgmtValid, device_timer_tick-IsMgmtValid, device_irq_tick-IsMgmtValid,
}
use qemu_devices_and_drivers.Lux.Events.{
  ReadEvent, read_error, read_part, read_event, Handled, returned, exited, Access, f0_bar0, f0_bar1,
  f1_bar0, access, accesses, device_handle_led_protocol_events, put_f0,
}
use qemu_devices_and_drivers.Lux.Events.Cause.{
  cause_of, lines_of, is_known, device_handle_led_protocol_events_lem,
}
use qemu_devices_and_drivers.Lux.Eventloop.{
  attach_ok, would_block, attach_failed, served, run_again, not_connected, run_failed, VfuEvent,
  quiet, pollin, LedPoll, led_quiet, led_hangup, led_readable, Input, poll_failed, poll_idle,
  poll_ready, Loop, Turn, go_on, stop, process_exit, turn_fault, Vfu, vfu_ok, vfu_error, vfu_fault,
  tick_device, device_accept_vfu_connection, device_proccess_vfu_connection,
  device_handle_vfu_events, led_turn, f1_turn, turn, turns, Attach, device_run_eventloop,
}

abbrev SiliconKept : Outcome LuxSilicon → Type 0
SiliconKept (done s) = IsLuxValid s
SiliconKept fault = Unit

abbrev HandledKept : Handled → Type 0
HandledKept (returned s ok) = IsLuxValid s
HandledKept exited = Unit

abbrev VfuKept : Vfu → Type 0
VfuKept (vfu_ok s c) = IsLuxValid s
VfuKept (vfu_error s c) = IsLuxValid s
VfuKept vfu_fault = Unit

-- The device is valid at the end of the turn, unless the process is gone or an access ran out of
-- the LED array.
abbrev pub TurnKept : Turn → Type 0
TurnKept (go_on l) = IsLuxValid l.silicon
TurnKept (stop l ok) = IsLuxValid l.silicon
TurnKept process_exit = Unit
TurnKept turn_fault = Unit

put_f0-SiliconKept :
    (s : LuxSilicon) (o : Outcome (F0 × Option ℕ))
    → IsLuxValid s
    → KeepsValid o
    → SiliconKept (put_f0 s o)
put_f0-SiliconKept s (done r) v k = record { f0_valid = k; f1_valid = v.f1_valid }
put_f0-SiliconKept s fault v k = tt

tick_device-IsLuxValid : (s : LuxSilicon) (now : ℕ) → IsLuxValid s → IsLuxValid (tick_device s now)
unfolding tick_device
tick_device-IsLuxValid s now v = record {
  f0_valid = v.f0_valid;
  f1_valid = device_irq_tick-IsMgmtValid _ (device_timer_tick-IsMgmtValid s.f1 now v.f1_valid);
}

abbrev no_event : LedEvent
no_event = record { ev = 0; error_code = 0; led_id = 0 }

cause_of-lt : (ev : LedEvent) → is_known ev ≡ true → cause_of ev < 2 ^ 32
cause_of-lt ev h = ground arith

lines_of-lt : (s : LuxSilicon) (ev : LedEvent) → lines_of s ev < 2 ^ 32
lines_of-lt s ev = ground arith

raised-IsLuxValid :
    (s : LuxSilicon) (cause lines : ℕ)
    → IsLuxValid s
    → cause < 2 ^ 32
    → lines < 2 ^ 32
    → IsLuxValid (record s {
      f0 = record s.f0 { led_irq_cause = bit_or s.f0.led_irq_cause cause };
      f1 = record s.f1 { irq_status = bit_or s.f1.irq_status lines };
    })
raised-IsLuxValid s cause lines v hc hl = record {
  f0_valid = record {
    leds_count = v.f0_valid.leds_count;
    direction_fits = v.f0_valid.direction_fits;
    led_ctrl_fits = v.f0_valid.led_ctrl_fits;
    led_irq_cause_fits = bit_or-lt 32 s.f0.led_irq_cause cause v.f0_valid.led_irq_cause_fits hc;
    state_fits = v.f0_valid.state_fits;
  };
  f1_valid =
      omega (arith, bit_or-lt 32 s.f1.irq_status lines v.f1_valid.irq_status_fits hl, v.f1_valid);
}

handle-HandledKept :
    (s : LuxSilicon) (r : ReadEvent)
    → IsLuxValid s
    → HandledKept (device_handle_led_protocol_events s r)
handle-HandledKept s read_error v = rw (device_handle_led_protocol_events_lem s no_event).1 v
handle-HandledKept s read_part v = rw (device_handle_led_protocol_events_lem s no_event).2 v
handle-HandledKept s (read_event ev) v =
    rw (device_handle_led_protocol_events_lem s ev).0 (elim (Bool-cases (is_known ev)) [
      | inl k ↦ rw k (raised-IsLuxValid s _ _ v (cause_of-lt ev k) (lines_of-lt s ev))
      | inr n ↦ rw n tt
    ])

module _ (write_ok : List LedCommand → Bool) where
  access-SiliconKept :
      (s : LuxSilicon) (a : Access) → IsLuxValid s → SiliconKept (access write_ok s a)
  unfolding access
  access-SiliconKept s (f0_bar0 is_write buf count offset) v =
      put_f0-SiliconKept s (done (f0_bar0_access s.f0 buf count offset is_write)) v
        (f0_bar0_access-IsValid s.f0 buf count offset is_write v.f0_valid)
  access-SiliconKept s (f0_bar1 is_write buf count offset) v =
      put_f0-SiliconKept s (f0_bar1_access write_ok s.f0 buf count offset is_write) v
        (f0_bar1_access-KeepsValid write_ok s.f0 buf count offset is_write v.f0_valid)
  access-SiliconKept s (f1_bar0 is_write buf count offset) v = record {
    f0_valid = v.f0_valid;
    f1_valid = f1_bar0_access-IsMgmtValid s.f1 buf count offset is_write v.f1_valid;
  }

  accesses-SiliconKept :
      (requests : List Access) (s : LuxSilicon)
      → IsLuxValid s
      → SiliconKept (accesses write_ok s requests)
  unfolding accesses
  accesses-SiliconKept [] s v = v
  accesses-SiliconKept (a ∷ rest) s v =
      step (access write_ok s a) (access-SiliconKept s a v) (accesses-SiliconKept rest)
    where
      step :
          (o : Outcome LuxSilicon)
          → SiliconKept o
          → ((s : LuxSilicon) → IsLuxValid s → SiliconKept (accesses write_ok s rest))
          → SiliconKept (elim o [ done s' ↦ accesses write_ok s' rest | fault ↦ fault ])
      step (done s') k ih = ih s' k
      step fault k ih = tt

  vfu_events-VfuKept :
      (s : LuxSilicon) (c : Bool) (e : VfuEvent)
      → IsLuxValid s
      → VfuKept (device_handle_vfu_events write_ok s c e)
  unfolding device_handle_vfu_events device_proccess_vfu_connection device_accept_vfu_connection
  vfu_events-VfuKept s c quiet v = v
  vfu_events-VfuKept s true (pollin (served requests) answer) v =
      step (accesses write_ok s requests) (accesses-SiliconKept requests s v)
    where
      step :
          (o : Outcome LuxSilicon)
          → SiliconKept o
          → VfuKept (elim o [ done s' ↦ vfu_ok s' true | fault ↦ vfu_fault ])
      step (done s') k = k
      step fault k = tt
  vfu_events-VfuKept s true (pollin run_again answer) v = v
  vfu_events-VfuKept s true (pollin (not_connected attach_ok) answer) v = v
  vfu_events-VfuKept s true (pollin (not_connected would_block) answer) v = v
  vfu_events-VfuKept s true (pollin (not_connected attach_failed) answer) v = v
  vfu_events-VfuKept s true (pollin run_failed answer) v = v
  vfu_events-VfuKept s false (pollin run attach_ok) v = v
  vfu_events-VfuKept s false (pollin run would_block) v = v
  vfu_events-VfuKept s false (pollin run attach_failed) v = v

  led_turn-TurnKept :
      (l : Loop) (led : LedPoll) → IsLuxValid l.silicon → TurnKept (led_turn write_ok l led)
  unfolding led_turn
  led_turn-TurnKept l led_quiet v = v
  led_turn-TurnKept l led_hangup v = v
  led_turn-TurnKept l (led_readable r) v =
      step (device_handle_led_protocol_events l.silicon r) (handle-HandledKept l.silicon r v)
    where
      step :
          (h : Handled)
          → HandledKept h
          → TurnKept
              (elim h [ returned s ok ↦ go_on (record l { silicon = s }) | exited ↦ process_exit ])
      step (returned s ok) k = k
      step exited k = tt

  f1_turn-TurnKept :
      (l : Loop) (e : VfuEvent) (led : LedPoll)
      → IsLuxValid l.silicon
      → TurnKept (f1_turn write_ok l e led)
  unfolding f1_turn
  f1_turn-TurnKept l e led v =
      step (device_handle_vfu_events write_ok l.silicon l.f1_is_connected e)
        (vfu_events-VfuKept l.silicon l.f1_is_connected e v)
    where
      step :
          (r : Vfu)
          → VfuKept r
          → TurnKept (elim r [
            | vfu_ok s c ↦ led_turn write_ok (record l { silicon = s; f1_is_connected = c }) led
            | vfu_error s c ↦ stop (record l { silicon = s; f1_is_connected = c }) false
            | vfu_fault ↦ turn_fault
          ])
      step (vfu_ok s c) k = led_turn-TurnKept _ led k
      step (vfu_error s c) k = k
      step vfu_fault k = tt

  turn-TurnKept : (l : Loop) (i : Input) → IsLuxValid l.silicon → TurnKept (turn write_ok l i)
  unfolding turn
  turn-TurnKept l poll_failed v = v
  turn-TurnKept l (poll_idle now) v = tick_device-IsLuxValid l.silicon now v
  turn-TurnKept l (poll_ready now e₀ e₁ led) v =
      step (device_handle_vfu_events write_ok (tick_device l.silicon now) l.f0_is_connected e₀)
        (vfu_events-VfuKept _ l.f0_is_connected e₀ (tick_device-IsLuxValid l.silicon now v))
    where
      step :
          (r : Vfu)
          → VfuKept r
          → TurnKept (elim r [
            | vfu_ok s c ↦ f1_turn write_ok (record l { silicon = s; f0_is_connected = c }) e₁ led
            | vfu_error s c ↦ stop (record l { silicon = s; f0_is_connected = c }) false
            | vfu_fault ↦ turn_fault
          ])
      step (vfu_ok s c) k = f1_turn-TurnKept _ e₁ led k
      step (vfu_error s c) k = k
      step vfu_fault k = tt

  turns-TurnKept :
      (inputs : List Input) (l : Loop) → IsLuxValid l.silicon → TurnKept (turns write_ok l inputs)
  unfolding turns
  turns-TurnKept [] l v = v
  turns-TurnKept (i ∷ inputs) l v =
      step (turn write_ok l i) (turn-TurnKept l i v) (turns-TurnKept inputs)
    where
      step :
          (t : Turn)
          → TurnKept t
          → ((l : Loop) → IsLuxValid l.silicon → TurnKept (turns write_ok l inputs))
          → TurnKept (elim t [
            | go_on l' ↦ turns write_ok l' inputs
            | stop l' ok ↦ stop l' ok
            | process_exit ↦ process_exit
            | turn_fault ↦ turn_fault
          ])
      step (go_on l') k ih = ih l' k
      step (stop l' ok) k ih = k
      step process_exit k ih = tt
      step turn_fault k ih = tt

  -- From a valid device the event loop keeps the device valid through any guest accesses, LED
  -- events, timer ticks and connections, in any order, until it stops, the process exits, or an
  -- access runs out of the LED array.
  device_run_eventloop-TurnKept :
      (f0_attach f1_attach : Attach) (inputs : List Input) (l : Loop)
      → IsLuxValid l.silicon
      → TurnKept (device_run_eventloop write_ok f0_attach f1_attach l inputs)
  unfolding device_run_eventloop
  device_run_eventloop-TurnKept attach_failed f1_attach inputs l v = v
  device_run_eventloop-TurnKept attach_ok attach_failed inputs l v = v
  device_run_eventloop-TurnKept would_block attach_failed inputs l v = v
  device_run_eventloop-TurnKept attach_ok attach_ok inputs l v = turns-TurnKept inputs l v
  device_run_eventloop-TurnKept attach_ok would_block inputs l v = turns-TurnKept inputs l v
  device_run_eventloop-TurnKept would_block attach_ok inputs l v = turns-TurnKept inputs l v
  device_run_eventloop-TurnKept would_block would_block inputs l v = turns-TurnKept inputs l v
