-- ===== src/Grid/Commands.antt =====
-- What a command does to the LEDs of the grid.
use qemu_devices_and_drivers.Base.{
  ℕ, ◌-◌, ◌^◌, Bool, true, false, ◌==◌, ◌||◌, ltb, leb, if◌then◌else◌, [], ◌∷◌, ◌++◌, get_or, set,
  none, some, done, fault, ◌≡◌, arith,
}
use qemu_devices_and_drivers.Protocol.{
  LedCommand, LedEvent, cmd_toggle, cmd_on, cmd_off, cmd_set_color, lev_on, lev_off, lev_color,
}
use qemu_devices_and_drivers.Grid.{
  Server, Led, no_led, grid_led_nr, read_command, has, pollhup, led_action, run_command,
  protocol_handle_command,
}

abbrev pub is_known : ℕ → Bool
is_known cmd = cmd == cmd_toggle || cmd == cmd_on || cmd == cmd_off || cmd == cmd_set_color

-- The LED that a known command is to leave.
abbrev pub commanded : LedCommand → Led → Led
commanded c led =
    if c.cmd == cmd_set_color
    then record led { color = c.color }
    else if c.cmd == cmd_on
    then record led { on = 1 }
    else if c.cmd == cmd_off
    then record led { on = 0 }
    else record led { on = 1 - led.on }

-- The event that tells the state of the LED after a command.
abbrev pub tells : LedCommand → Led → LedEvent
tells c led = record {
  ev = if c.cmd == cmd_set_color then lev_color else (if led.on == 0 then lev_off else lev_on);
  error_code = 0;
  led_id = c.led_id;
}

abbrev pub answer : Server → LedCommand → Server
answer s c =
    let led = commanded c (get_or s.leds c.led_id no_led) in
    record s { leds = set s.leds c.led_id led; events_sent = s.events_sent ++ (tells c led ∷ []) }

led_action_lem :
    (c : LedCommand) (led : Led)
    → led_action c led
      ≡ (if is_known c.cmd then some (commanded c led, (tells c (commanded c led)).ev) else none)
unfolding led_action
led_action_lem c led = ground arith

-- A whole command from a client that has not hung up has one of four outcomes. A known command for
-- an LED of the grid changes that LED as it says, and an event that tells its new state is sent. An
-- unknown command is dropped: no event is sent, not even an error. A command for an LED beyond the
-- grid is dropped. A command with a negative LED number accesses the array out of bounds.
pub protocol_handle_command_lem :
    (s : Server) (j revents : ℕ) (c : LedCommand)
    → (revents == 0) ≡ false
    → has revents pollhup ≡ false
    → protocol_handle_command s j revents (read_command c) ≡ (
        if ltb c.led_id grid_led_nr
        then (if is_known c.cmd then done (answer s c, true) else done (s, false))
        else if leb (2 ^ 31) c.led_id
        then fault
        else done (s, false))
unfolding protocol_handle_command run_command
protocol_handle_command_lem s j revents c h k =
    ground (arith, led_action_lem c (get_or s.leds c.led_id no_led))
