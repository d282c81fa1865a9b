-- ===== src/Grid/Pointer.antt =====
-- qemu-devices/led/seat.c: the events of the pointer and the keyboard, and the commands that they
-- send to the grid's own server. Coordinates are `wl_fixed_t`, whose conversion to an `int` is
-- libwayland's and is the argument `wl_fixed_to_int`. `write` is taken to send the whole command.
pub mod Hit
pub mod Margin
pub mod Clicks
use qemu_devices_and_drivers.Base.{
  ℕ, suc, ◌+◌, ◌*◌, ◌/◌, ◌%◌, ◌^◌, bit_and, bit_or, Bool, true, false, ◌&&◌, ◌||◌, ◌==◌, ltb, leb,
  if◌then◌else◌, Option, none, some, List, [], ◌∷◌, ◌++◌, length, get_or, set, Outcome, done, fault,
  bind,
}
use qemu_devices_and_drivers.Words.Int.{
  ℤ, pos, negsuc, ◌+ℤ◌, ◌-ℤ◌, ◌*ℤ◌, ◌/ℤ◌, checked, ltbℤ, word32,
}
use qemu_devices_and_drivers.Protocol.{Color, black, LedCommand, cmd_toggle, cmd_set_color}
use qemu_devices_and_drivers.Grid.Render.{Dimensions, led_cols, led_rows}
use qemu_devices_and_drivers.Grid.{grid_led_nr}

-- `enum pointer_event_mask`.
abbrev pub pointer_event_enter : ℕ
pointer_event_enter = 1

abbrev pub pointer_event_leave : ℕ
pointer_event_leave = 2

abbrev pub pointer_event_motion : ℕ
pointer_event_motion = 4

abbrev pub pointer_event_button : ℕ
pointer_event_button = 8

abbrev pub pointer_event_axis : ℕ
pointer_event_axis = 16

abbrev pub pointer_event_axis_source : ℕ
pointer_event_axis_source = 32

abbrev pub pointer_event_axis_stop : ℕ
pointer_event_axis_stop = 64

abbrev pub pointer_event_axis_discrete : ℕ
pointer_event_axis_discrete = 128

pub record Axis : Type 0 where
  pub valid : Bool
  pub value : ℤ
  pub discrete : ℤ

abbrev no_axis : Axis
no_axis = record { valid = false; value = pos 0; discrete = pos 0 }

-- `struct pointer_event`; `axes` has two entries.
pub record PointerEvent : Type 0 where
  pub event_mask : ℕ
  pub surface_x : ℤ
  pub surface_y : ℤ
  pub button : ℕ
  pub state : ℕ
  pub time : ℕ
  pub serial : ℕ
  pub axes : List Axis
  pub axis_source : ℕ

unfoldable pub wl_pointer_enter_handler : PointerEvent → ℕ → ℤ → ℤ → PointerEvent
wl_pointer_enter_handler e serial x y = record e {
  event_mask = bit_or e.event_mask pointer_event_enter;
  serial = serial;
  surface_x = x;
  surface_y = y;
}

unfoldable pub wl_pointer_leave_handler : PointerEvent → ℕ → PointerEvent
wl_pointer_leave_handler e serial = record e {
  event_mask = bit_or e.event_mask pointer_event_leave;
  serial = serial;
}

unfoldable pub wl_pointer_motion_handler : PointerEvent → ℕ → ℤ → ℤ → PointerEvent
wl_pointer_motion_handler e time x y = record e {
  event_mask = bit_or e.event_mask pointer_event_motion;
  time = time;
  surface_x = x;
  surface_y = y;
}

unfoldable pub wl_pointer_button_handler : PointerEvent → ℕ → ℕ → ℕ → ℕ → PointerEvent
wl_pointer_button_handler e serial time button state = record e {
  event_mask = bit_or e.event_mask pointer_event_button;
  serial = serial;
  time = time;
  button = button;
  state = state;
}

-- A write to `axes[axis]`.
unfoldable pub set_axis : PointerEvent → ℕ → (Axis → Axis) → Outcome PointerEvent
set_axis e axis change =
    if ltb axis (length e.axes)
    then done (record e { axes = set e.axes axis (change (get_or e.axes axis no_axis)) })
    else fault

unfoldable pub wl_pointer_axis_handler : PointerEvent → ℕ → ℕ → ℤ → Outcome PointerEvent
wl_pointer_axis_handler e time axis value =
    set_axis (record e { event_mask = bit_or e.event_mask pointer_event_axis; time = time }) axis
      (λ a. record a { valid = true; value = value })

unfoldable pub wl_pointer_axis_source_handler : PointerEvent → ℕ → PointerEvent
wl_pointer_axis_source_handler e axis_source = record e {
  event_mask = bit_or e.event_mask pointer_event_axis_source;
  axis_source = axis_source;
}

unfoldable pub wl_pointer_axis_discrete_handler : PointerEvent → ℕ → ℤ → Outcome PointerEvent
wl_pointer_axis_discrete_handler e axis discrete =
    set_axis (record e { event_mask = bit_or e.event_mask pointer_event_axis_discrete }) axis
      (λ a. record a { valid = true; discrete = discrete })

unfoldable pub wl_pointer_axis_stop_handler : PointerEvent → ℕ → ℕ → Outcome PointerEvent
wl_pointer_axis_stop_handler e time axis =
    set_axis (record e { event_mask = bit_or e.event_mask pointer_event_axis_stop; time = time })
      axis (λ a. record a { valid = true })

-- The int arithmetic of `get_underlying_led`, from the cell of a point on.
unfoldable pub led_at : (width height : ℕ) → (x y col row : ℤ) → Outcome ℤ
led_at width height x y col row =
    let radius = width / (led_cols * 2) in
    let spacing_x = width / led_cols in
    let spacing_y = height / led_rows in
    bind (checked (pos spacing_x *ℤ col)) (λ left.
      bind (checked (left +ℤ pos (spacing_x / 2))) (λ center_x.
        bind (checked (pos spacing_y *ℤ row)) (λ top.
          bind (checked (top +ℤ pos (spacing_y / 2))) (λ center_y.
            bind (checked (x -ℤ center_x)) (λ distance_x.
              bind (checked (y -ℤ center_y)) (λ distance_y.
                bind (checked (distance_x *ℤ distance_x)) (λ square_x.
                  bind (checked (distance_y *ℤ distance_y)) (λ square_y.
                    bind (checked (square_x +ℤ square_y)) (λ distance.
                      bind (checked (pos radius *ℤ pos radius)) (λ radius_squared.
                        if ltbℤ radius_squared distance
                        then done (negsuc 0)
                        else bind (checked (pos led_cols *ℤ row)) (λ first.
                          bind (checked (first +ℤ col)) (λ index.
                            if ltbℤ index (pos grid_led_nr)
                            then done index
                            else done (negsuc 0)))))))))))))

-- The LED under the pointer, or a negative number. A window of less than 8 pixels divides by 0.
unfoldable pub get_underlying_led : (ℤ → ℤ) → PointerEvent → Dimensions → Outcome ℤ
get_underlying_led wl_fixed_to_int e dim =
    if bit_and e.event_mask pointer_event_button == 0
    then done (negsuc 0)
    else let x = wl_fixed_to_int e.surface_x in
      let y = wl_fixed_to_int e.surface_y in
      let spacing_x = dim.width / led_cols in
      let spacing_y = dim.height / led_rows in
      if spacing_x == 0 || spacing_y == 0
      then fault
      else led_at dim.width dim.height x y (x /ℤ pos spacing_x) (y /ℤ pos spacing_y)

-- <linux/input-event-codes.h> and `enum wl_pointer_button_state`.
abbrev pub btn_left : ℕ
btn_left = 0x110

abbrev pub btn_right : ℕ
btn_right = 0x111

abbrev pub button_released : ℕ
button_released = 0

-- What the handlers use of `struct wayland_client`: the cached event, the size of the window, the
-- socket, which may be missing, and the commands that were written to it, oldest first.
pub record Seat : Type 0 where
  pub pointer_event : PointerEvent
  pub dim : Dimensions
  pub client_fd : Option ℕ
  pub commands : List LedCommand

abbrev pub send_command : Seat → LedCommand → Seat
send_command s cmd = record s { commands = s.commands ++ cmd ∷ [] }

-- A command for the LED under the pointer, when there is one.
unfoldable pub command_led : (ℤ → ℤ) → Seat → (ℤ → LedCommand) → Outcome Seat
command_led wl_fixed_to_int s command =
    bind (get_underlying_led wl_fixed_to_int s.pointer_event s.dim)
      (λ index. if ltbℤ index (pos 0) then done s else done (send_command s (command index)))

-- `r0`, `r1` and `r2` are what three calls of `rand` give.
unfoldable pub random_color : ℕ → ℕ → ℕ → Color
random_color r0 r1 r2 = record { c0 = r0 % 255; c1 = r1 % 255; c2 = r2 % 255; c3 = 255 }

unfoldable pub wl_pointer_frame_handler : (ℤ → ℤ) → (r0 r1 r2 : ℕ) → Seat → Outcome Seat
wl_pointer_frame_handler wl_fixed_to_int r0 r1 r2 s = elim s.client_fd [
  | none ↦ done s
  | some fd ↦
      if bit_and s.pointer_event.event_mask pointer_event_button == 0
      then done s
      else if s.pointer_event.state == button_released
      then done s
      else if s.pointer_event.button == btn_right
      then command_led wl_fixed_to_int s (λ index. record {
        cmd = cmd_set_color;
        led_id = word32 index;
        color = random_color r0 r1 r2;
      })
      else if s.pointer_event.button == btn_left
      then command_led wl_fixed_to_int s
          (λ index. record { cmd = cmd_toggle; led_id = word32 index; color = black })
      else done s
]

abbrev pub key_space : ℕ
key_space = 57

abbrev pub key_pressed : ℕ
key_pressed = 1

-- The space bar colours LED 0; no other key sends a command.
unfoldable pub wl_keyboard_key_handler : Seat → (time key keystate : ℕ) → Seat
wl_keyboard_key_handler s time key keystate = elim s.client_fd [
  | none ↦ s
  | some fd ↦
      if keystate == key_pressed && key == key_space
      then send_command s (record {
        cmd = cmd_set_color;
        led_id = 0;
        color = record { c0 = time % 255; c1 = time % 255; c2 = time % 255; c3 = 255 };
      })
      else s
]
