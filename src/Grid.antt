-- ===== src/Grid.antt =====
-- qemu-devices/led/protocol.c and `struct led_grid` of include/wayland.h: the server of the LED
-- grid, to which the devices connect. `clients` is `fds[2]` to `fds[POLLFD_NR - 1]`; the two
-- descriptors before them, of Wayland and of the listening socket, are not clients. `poll` and the system calls stand in the arguments: `revents`, what `read`
-- gives, and what `accept4` gives. The result -1 is `false`, and `events_sent` is what is written.
pub mod Connections
pub mod Commands
pub mod Render
pub mod Pointer
pub mod Window
pub mod Eventloop
use qemu_devices_and_drivers.Base.{
  ℕ, zero, suc, ◌+◌, ◌-◌, ◌^◌, bit_and, Bool, true, false, not, ◌==◌, ◌&&◌, ◌||◌, ltb, leb,
  if◌then◌else◌, Option, none, some, List, [], ◌∷◌, ◌++◌, get_or, set, Outcome, done, fault,
}
use qemu_devices_and_drivers.Protocol.{
  Color, black, LedCommand, LedEvent, cmd_toggle, cmd_on, cmd_off, cmd_set_color, lev_on, lev_off,
  lev_color,
}

pub record Led : Type 0 where
  pub on : ℕ
  pub color : Color

abbrev pub no_led : Led
no_led = record { on = 0; color = black }

abbrev pub grid_led_nr : ℕ
grid_led_nr = 64

-- A slot: its `fd` is negative, or it watches a client for `events`.
pub data PollFd : Type 0 where
  free_slot : PollFd
  client : (fd events : ℕ) → PollFd

abbrev pub max_client_connections : ℕ
max_client_connections = 10

-- `struct protocol_state` and `struct led_grid`, and the events written to each client, oldest
-- first.
pub record Server : Type 0 where
  pub conn_nr : ℕ
  pub clients : List PollFd
  pub leds : List Led
  pub events_sent : List LedEvent

-- poll(2).
abbrev pub pollin : ℕ
pollin = 1

abbrev pub pollerr : ℕ
pollerr = 8

abbrev pub pollhup : ℕ
pollhup = 16

abbrev pub pollnval : ℕ
pollnval = 32

abbrev pub has : ℕ → ℕ → Bool
has revents flag = not (bit_and revents flag == 0)

-- The first free slot takes the descriptor; `none` if there is no free slot.
unfoldable pub take_slot : List PollFd → ℕ → Option (List PollFd)
take_slot [] new_fd = none
take_slot (free_slot ∷ rest) new_fd = some (client new_fd pollin ∷ rest)
take_slot (client old e ∷ rest) new_fd = elim (take_slot rest new_fd) [
  | none ↦ none
  | some rest' ↦ some (client old e ∷ rest')
]

unfoldable pub protocol_accept_connection : Server → Option ℕ → Server × Option ℕ
protocol_accept_connection s accepted =
    if ltb max_client_connections s.conn_nr then (s, none) else elim accepted [
      | none ↦ (s, none)
      | some new_fd ↦ elim (take_slot s.clients new_fd) [
        | none ↦ (s, some new_fd)
        | some clients' ↦ (record s { clients = clients'; conn_nr = s.conn_nr + 1 }, some new_fd)
      ]
    ]

-- What `read` gives: an error, a whole command, or another number of bytes.
pub data GridRead : Type 0 where
  read_error : GridRead
  read_command : LedCommand → GridRead
  read_bytes : ℕ → GridRead

abbrev pub is_error : GridRead → Bool
is_error read_error = true
is_error (read_command cmd) = false
is_error (read_bytes n) = false

abbrev pub is_end : GridRead → Bool
is_end (read_bytes n) = n == 0
is_end read_error = false
is_end (read_command cmd) = false

-- The `switch` on a command, for its LED: the new LED and the event, `none` for an unknown command.
unfoldable pub led_action : LedCommand → Led → Option (Led × ℕ)
led_action c led =
    if c.cmd == cmd_toggle
    then (if led.on == 0
        then some (record led { on = 1 }, lev_on)
        else some (record led { on = 0 }, lev_off))
    else if c.cmd == cmd_on
    then some (record led { on = 1 }, lev_on)
    else if c.cmd == cmd_off
    then some (record led { on = 0 }, lev_off)
    else if c.cmd == cmd_set_color
    then some (record led { color = c.color }, lev_color)
    else none

-- A whole command. `led_id` is an `int32_t`: a negative one passes the test and is out of bounds.
unfoldable pub run_command : Server → LedCommand → Outcome (Server × Bool)
run_command s c =
    if ltb c.led_id grid_led_nr
    then elim (led_action c (get_or s.leds c.led_id no_led)) [
      | none ↦ done (s, false)
      | some (led', ev) ↦ done (
        record s {
          leds = set s.leds c.led_id led';
          events_sent =
              s.events_sent ++ (record { ev = ev; error_code = 0; led_id = c.led_id } ∷ []);
        },
        true,
      )
    ]
    else if leb (2 ^ 31) c.led_id
    then fault
    else done (s, false)

abbrev pub after_checks : Server → GridRead → Outcome (Server × Bool)
after_checks s read_error = done (s, false)
after_checks s (read_bytes n) = done (s, false)
after_checks s (read_command c) = run_command s c

-- The client in slot `j`.
unfoldable pub protocol_handle_command : Server → ℕ → ℕ → GridRead → Outcome (Server × Bool)
protocol_handle_command s j revents r =
    if is_error r && (has revents pollnval || has revents pollerr)
    then done (s, false)
    else if revents == 0
    then done (s, true)
    else if is_end r || has revents pollhup
    then done (record s { clients = set s.clients j free_slot; conn_nr = s.conn_nr - 1 }, true)
    else after_checks s r
