-- ===== src/Grid/Pointer/Clicks.antt =====
-- qemu-devices/led/seat.c: a pointer that moves while its left button is held down.
use qemu_devices_and_drivers.Base.{
  ℕ, ◌+◌, ◌*◌, bit_and, bit_or, false, ◌==◌, ltb, some, List, [], ◌∷◌, ◌++◌, map, append_assoc,
  append-nil, Outcome, done, bind, ◌≡◌, ◌≢◌, refl, sym, ap, ◌∙◌, arith, ==_ne,
}
use qemu_devices_and_drivers.Words.Bits.{bit_and-shl_one, bit-bit_or, bit-shl}
use qemu_devices_and_drivers.Words.Int.{ℤ, pos, word32}
use qemu_devices_and_drivers.Protocol.{LedCommand, cmd_toggle, black}
use qemu_devices_and_drivers.Grid.Render.{Dimensions}
use qemu_devices_and_drivers.Grid.Pointer.{
  pointer_event_button, pointer_event_motion, wl_pointer_motion_handler, get_underlying_led,
  btn_left, button_released, Seat, command_led, wl_pointer_frame_handler,
}

-- A motion of the pointer: its time, and where it comes to.
pub record Motion : Type 0 where
  pub time : ℕ
  pub x : ℤ
  pub y : ℤ

module _ (wl_fixed_to_int : ℤ → ℤ) (r0 r1 r2 : ℕ) where
  -- The compositor ends each motion with a frame.
  pub dragged : Seat → List Motion → Outcome Seat
  dragged s [] = done s
  dragged s (m ∷ ms) =
      bind
        (wl_pointer_frame_handler wl_fixed_to_int r0 r1 r2
          (record s { pointer_event = wl_pointer_motion_handler s.pointer_event m.time m.x m.y }))
        (λ s'. dragged s' ms)

  -- The LED that a click finds where a motion comes to.
  abbrev pub led_under : Dimensions → Motion → Outcome ℤ
  led_under dim m =
      get_underlying_led wl_fixed_to_int
        (record {
          event_mask = pointer_event_button;
          surface_x = m.x;
          surface_y = m.y;
          button = btn_left;
          state = 1;
          time = m.time;
          serial = 0;
          axes = [];
          axis_source = 0;
        })
        dim

  -- The motions come to these LEDs.
  abbrev pub PassesOver : Dimensions → List Motion → List ℕ → Type 0
  PassesOver dim [] [] = Unit
  PassesOver dim [] (led ∷ leds) = ⊥
  PassesOver dim (m ∷ ms) [] = ⊥
  PassesOver dim (m ∷ ms) (led ∷ leds) = (led_under dim m ≡ done (pos led)) × PassesOver dim ms leds

  -- The left button is down, and its event is the last one of a button.
  pub record IsHeld (s : Seat) : Type 0 where
    pub connected : (fd : ℕ) × (s.client_fd ≡ some fd)
    pub button_event : (bit_and s.pointer_event.event_mask pointer_event_button == 0) ≡ false
    pub pressed : s.pointer_event.state ≢ button_released
    pub left : s.pointer_event.button ≡ btn_left

  still_set :
      (mask : ℕ)
      → bit_and (bit_or mask pointer_event_motion) pointer_event_button
        ≡ bit_and mask pointer_event_button
  still_set mask =
      bit_and-shl_one (bit_or mask 4) 3
      ∙ ap (λ b. b * 8) (ground (arith, bit-bit_or mask 4 3, bit-shl 1 2 3 (omega arith)))
      ∙ sym (bit_and-shl_one mask 3)

  not_negative : (led : ℕ) → ltb (led + 0) 0 ≡ false
  not_negative led = ground arith

  abbrev moved : Seat → Motion → Seat
  moved s m = record s { pointer_event = wl_pointer_motion_handler s.pointer_event m.time m.x m.y }

  pub toggle : ℕ → LedCommand
  toggle led = record { cmd = cmd_toggle; led_id = word32 (pos led); color = black }

  -- The seat after a motion has sent a toggle.
  abbrev toggled : Seat → Motion → ℕ → Seat
  toggled s m led = record (moved s m) { commands = s.commands ++ toggle led ∷ [] }

  IsHeld-moved : (s : Seat) (m : Motion) (led : ℕ) → IsHeld s → IsHeld (toggled s m led)
  unfolding wl_pointer_motion_handler
  IsHeld-moved s m led h = record {
    connected = h.connected;
    button_event = rw (still_set s.pointer_event.event_mask) h.button_event;
    pressed = h.pressed;
    left = h.left;
  }

  frame_toggles :
      (s : Seat) (m : Motion) (led : ℕ)
      → IsHeld s
      → led_under s.dim m ≡ done (pos led)
      → wl_pointer_frame_handler wl_fixed_to_int r0 r1 r2 (moved s m) ≡ done (toggled s m led)
  unfolding wl_pointer_frame_handler wl_pointer_motion_handler command_led get_underlying_led toggle
  frame_toggles s m led h under =
      rw
        (
          h.connected.1,
          still_set s.pointer_event.event_mask,
          h.button_event,
          ==_ne s.pointer_event.state button_released h.pressed,
          h.left,
          under,
          not_negative led,
        )
        refl

  -- While the left button is held down, every motion that comes to an LED sends a toggle for it,
  -- without a further event of the button.
  pub dragged_toggles :
      (s : Seat) (ms : List Motion) (leds : List ℕ)
      → IsHeld s
      → PassesOver s.dim ms leds
      → (s' : Seat) × (dragged s ms ≡ done s') × (s'.commands ≡ s.commands ++ map toggle leds)
  unfolding dragged
  dragged_toggles s [] [] h over = (s, refl, sym (append-nil s.commands))
  dragged_toggles s [] (led ∷ leds) h over = elim over [ ]
  dragged_toggles s (m ∷ ms) [] h over = elim over [ ]
  dragged_toggles s (m ∷ ms) (led ∷ leds) h over =
      let (s', run, sent) =
        dragged_toggles (toggled s m led) ms leds (IsHeld-moved s m led h) over.1 in
      (
        s',
        ap (λ r. bind r (λ t. dragged t ms)) (frame_toggles s m led h over.0) ∙ run,
        sent ∙ append_assoc s.commands (toggle led ∷ []) (map toggle leds),
      )
