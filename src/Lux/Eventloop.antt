-- ===== src/Lux/Eventloop.antt =====
-- The body of the event loop, `device_run_eventloop` of qemu-devices/lux/device.c, and the handling
-- of the vfio connections. The answers of `poll`, of the clock and of the vfio library are the
-- arguments: an `Input` for each turn of the loop.
pub mod Valid
use qemu_devices_and_drivers.Base.{
  ℕ, Bool, true, false, if◌then◌else◌, List, [], ◌∷◌, Outcome, done, fault,
}
use qemu_devices_and_drivers.Protocol.{LedCommand}
use qemu_devices_and_drivers.Lux.Device.{F0, F1, LuxSilicon}
use qemu_devices_and_drivers.Lux.Mgmt.{device_timer_tick, device_irq_tick}
use qemu_devices_and_drivers.Lux.Events.{
  ReadEvent, Handled, returned, exited, Access, accesses, device_handle_led_protocol_events,
}

-- `vfu_attach_ctx`: a connection, EWOULDBLOCK or EAGAIN, or another error.
pub data Attach : Type 0 where
  attach_ok would_block attach_failed : Attach

-- `vfu_run_ctx`: the requests that it served, EAGAIN or EWOULDBLOCK, ENOTCONN (with the answer of
-- the `vfu_attach_ctx` that follows), or another error.
pub data Run : Type 0 where
  served : List Access → Run
  run_again : Run
  not_connected : Attach → Run
  run_failed : Run

-- One function's poll descriptor: no POLLIN, or POLLIN and the answers to the calls that follow.
pub data VfuEvent : Type 0 where
  quiet : VfuEvent
  pollin : (run : Run) (answer : Attach) → VfuEvent

pub data LedPoll : Type 0 where
  led_quiet : LedPoll
  led_hangup : LedPoll
  led_readable : ReadEvent → LedPoll

-- One turn of the loop: `poll` fails, times out (or is interrupted), or reports events; and the
-- time that the timer tick reads.
pub data Input : Type 0 where
  poll_failed : Input
  poll_idle : (now_ns : ℕ) → Input
  poll_ready : (now_ns : ℕ) (f0_event f1_event : VfuEvent) (led : LedPoll) → Input

pub record Loop : Type 0 where
  pub silicon : LuxSilicon
  pub f0_is_connected : Bool
  pub f1_is_connected : Bool

-- How a turn ends: the loop goes on, it returns 0 or -1, the process exits, or an access runs out
-- of the LED array.
pub data Turn : Type 0 where
  go_on : Loop → Turn
  stop : Loop → Bool → Turn
  process_exit : Turn
  turn_fault : Turn

-- The result of handling one connection: the device, the connection flag, and whether it is not -1.
pub data Vfu : Type 0 where
  vfu_ok : LuxSilicon → Bool → Vfu
  vfu_error : LuxSilicon → Bool → Vfu
  vfu_fault : Vfu

-- `device_timer_tick(device); device_irq_tick(device);`
unfoldable pub tick_device : LuxSilicon → ℕ → LuxSilicon
tick_device s now_ns = record s { f1 = device_irq_tick (device_timer_tick s.f1 now_ns) }

unfoldable pub device_accept_vfu_connection : LuxSilicon → Bool → Attach → Vfu
device_accept_vfu_connection s connected attach_ok = vfu_ok s true
device_accept_vfu_connection s connected would_block = vfu_ok s true
device_accept_vfu_connection s connected attach_failed = vfu_error s connected

module _ (write_ok : List LedCommand → Bool) where
  unfoldable pub device_proccess_vfu_connection : LuxSilicon → Bool → Run → Vfu
  device_proccess_vfu_connection s connected (served requests) =
      elim (accesses write_ok s requests) [ done s' ↦ vfu_ok s' connected | fault ↦ vfu_fault ]
  device_proccess_vfu_connection s connected run_again = vfu_ok s connected
  device_proccess_vfu_connection s connected (not_connected attach_ok) = vfu_ok s false
  device_proccess_vfu_connection s connected (not_connected would_block) = vfu_ok s false
  device_proccess_vfu_connection s connected (not_connected attach_failed) = vfu_error s false
  device_proccess_vfu_connection s connected run_failed = vfu_error s connected

  unfoldable pub device_handle_vfu_events : LuxSilicon → Bool → VfuEvent → Vfu
  device_handle_vfu_events s connected quiet = vfu_ok s connected
  device_handle_vfu_events s true (pollin run answer) = device_proccess_vfu_connection s true run
  device_handle_vfu_events s false (pollin run answer) = device_accept_vfu_connection s false answer

  -- The end of the turn: the LED socket.
  unfoldable pub led_turn : Loop → LedPoll → Turn
  led_turn l led_quiet = go_on l
  led_turn l led_hangup = stop l true
  led_turn l (led_readable r) = elim (device_handle_led_protocol_events l.silicon r) [
    | returned s ok ↦ go_on (record l { silicon = s })
    | exited ↦ process_exit
  ]

  -- After function 0: function 1, then the LED socket.
  unfoldable pub f1_turn : Loop → VfuEvent → LedPoll → Turn
  f1_turn l f1_event led = elim (device_handle_vfu_events l.silicon l.f1_is_connected f1_event) [
    | vfu_ok s c ↦ led_turn (record l { silicon = s; f1_is_connected = c }) led
    | vfu_error s c ↦ stop (record l { silicon = s; f1_is_connected = c }) false
    | vfu_fault ↦ turn_fault
  ]

  unfoldable pub turn : Loop → Input → Turn
  turn l poll_failed = stop l false
  turn l (poll_idle now_ns) = go_on (record l { silicon = tick_device l.silicon now_ns })
  turn l (poll_ready now_ns f0_event f1_event led) =
      elim (device_handle_vfu_events (tick_device l.silicon now_ns) l.f0_is_connected f0_event) [
        | vfu_ok s c ↦ f1_turn (record l { silicon = s; f0_is_connected = c }) f1_event led
        | vfu_error s c ↦ stop (record l { silicon = s; f0_is_connected = c }) false
        | vfu_fault ↦ turn_fault
      ]

  -- `while (1)`: one turn for each input, until a turn ends the loop.
  unfoldable pub turns : Loop → List Input → Turn
  turns l [] = go_on l
  turns l (i ∷ inputs) = elim (turn l i) [
    | go_on l' ↦ turns l' inputs
    | stop l' ok ↦ stop l' ok
    | process_exit ↦ process_exit
    | turn_fault ↦ turn_fault
  ]

  -- A connection to both functions is tried before the loop. It may be there already, or not yet.
  unfoldable pub device_run_eventloop : (f0_attach f1_attach : Attach) → Loop → List Input → Turn
  device_run_eventloop attach_failed f1_attach l inputs = stop l false
  device_run_eventloop attach_ok attach_failed l inputs = stop l false
  device_run_eventloop would_block attach_failed l inputs = stop l false
  device_run_eventloop attach_ok attach_ok l inputs = turns l inputs
  device_run_eventloop attach_ok would_block l inputs = turns l inputs
  device_run_eventloop would_block attach_ok l inputs = turns l inputs
  device_run_eventloop would_block would_block l inputs = turns l inputs
