-- ===== src/Tests/Screen.antt =====
-- The theorems of the LED grid's window at concrete inputs: a window of the default size, whose
-- compositor gives coordinates in whole pixels.
use qemu_devices_and_drivers.Base.{
  ◌+◌, ◌*◌, ◌/◌, ℕ, ◌&&◌, true, false, if◌then◌else◌, none, some, [], ◌∷◌, ◌++◌, map, replicate,
  done, fault, ◌≡◌, ◌⊎◌, inl, refl, arith,
}
use qemu_devices_and_drivers.Words.Int.{ℤ, pos, negsuc, ◌+ℤ◌, ◌-ℤ◌, ◌*ℤ◌, ◌/ℤ◌}
use qemu_devices_and_drivers.Protocol.{black}
use qemu_devices_and_drivers.Grid.{no_led}
use qemu_devices_and_drivers.Grid.Render.{
  Frame, Dimensions, LedGrid, pixel_of, led_circle, bg_color, get_front_buffer_index, render_draw,
}
use qemu_devices_and_drivers.Grid.Render.Discs.{covers, address}
use qemu_devices_and_drivers.Grid.Render.Picture.{IsRoomy, cell, led_pixel}
use qemu_devices_and_drivers.Grid.Render.Draw.{picture, render_draw_pixel, render_draw_outside}
use qemu_devices_and_drivers.Grid.Pointer.{PointerEvent, btn_left, led_at, get_underlying_led, Seat}
use qemu_devices_and_drivers.Grid.Pointer.Hit.{get_underlying_led-picture}
use qemu_devices_and_drivers.Grid.Pointer.Margin.{get_underlying_led_margin}
use qemu_devices_and_drivers.Grid.Pointer.Clicks.{
  Motion, dragged, PassesOver, IsHeld, toggle, dragged_toggles,
}
use qemu_devices_and_drivers.Grid.Window.{
  RenderBuffer, alive, Mapping, mapped, Answers, WlClient, toplevel_configure, surface_configure,
  frame_done, buffer_release, render_buffer_resize, wayland_client_redraw, handle_all,
}
use qemu_devices_and_drivers.Grid.Window.Buffers.{works, renewed, render_buffer_resize_live}
use qemu_devices_and_drivers.Grid.Window.Redraw.{framed, wayland_client_redraw_lem}
use qemu_devices_and_drivers.Grid.Window.Stalls.{IsBlank, handle_all-IsBlank, handle_all_stalled}

abbrev pub window : Dimensions
window = record { width = 650; height = 700 }

pub window-IsRoomy : IsRoomy window
window-IsRoomy = record {
  small = record { width_fits = omega arith; height_fits = omega arith };
  wide = omega arith;
  tall = omega arith;
  apart = omega arith;
}

abbrev pub leds_off : LedGrid
leds_off = record { leds = replicate 64 no_led; off_color = black }

abbrev bare : Frame
bare j = pixel_of black

abbrev whole_pixels : ℤ → ℤ
whole_pixels z = z

abbrev click_at : ℕ → ℕ → PointerEvent
click_at x y = record {
  event_mask = 8;
  surface_x = pos x;
  surface_y = pos y;
  button = btn_left;
  state = 1;
  time = 5;
  serial = 1;
  axes = [];
  axis_source = 0;
}

pub front_first : get_front_buffer_index false false ≡ some 0
unfolding get_front_buffer_index
front_first = refl

front_second : get_front_buffer_index true false ≡ some 1
unfolding get_front_buffer_index
front_second = refl

click_example :
    let seen = covers (led_circle window leds_off (cell window 40 43)) 40 43 in
    (get_underlying_led whole_pixels (click_at 40 43) window
      ≡ done (if seen then pos (cell window 40 43) else negsuc 0))
    × (picture window leds_off window-IsRoomy 0 bare (address (700 * (650 * 4) * 0) (650 * 4) 43 40)
        ≡ (if seen
            then led_pixel window leds_off window-IsRoomy (cell window 40 43)
            else pixel_of bg_color))
click_example =
    get_underlying_led-picture whole_pixels (click_at 40 43) window window-IsRoomy 40 43 refl refl
      refl leds_off bare 0 (omega arith) (omega arith) (omega arith) (omega arith)

margin_example :
    (get_underlying_led whole_pixels (click_at 648 43) window
      ≡ done (pos ((43 / (700 / 8) + 1) * 8)))
    × (covers (led_circle window leds_off ((43 / (700 / 8) + 1) * 8)) 648 43 ≡ false)
margin_example =
    get_underlying_led_margin whole_pixels (click_at 648 43) window leds_off window-IsRoomy 648 43
      refl refl refl (omega arith) (omega arith) refl (omega arith) refl

drawn_example :
    (render_draw true false false window leds_off bare
      ≡ done (picture window leds_off window-IsRoomy 0 bare, some 0))
    × (picture window leds_off window-IsRoomy 0 bare (address (700 * (650 * 4) * 0) (650 * 4) 43 40)
        ≡ (if covers (led_circle window leds_off (cell window 40 43)) 40 43
            then led_pixel window leds_off window-IsRoomy (cell window 40 43)
            else pixel_of bg_color))
drawn_example =
    render_draw_pixel window leds_off window-IsRoomy 0 bare false false front_first 40 43
      (omega arith) (omega arith) (omega arith) (omega arith)

abbrev second : ℕ
second = 1

outside_example :
    (render_draw true true false window leds_off bare
      ≡ done (picture window leds_off window-IsRoomy 1 bare, some 1))
    × (picture window leds_off window-IsRoomy 1 bare 7 ≡ bare 7)
    × (((second ≡ 0) × (true ≡ false)) ⊎ ((second ≡ 1) × (false ≡ false)))
outside_example =
    render_draw_outside window leds_off window-IsRoomy 1 bare true false front_second 7
      (inl (omega arith))

abbrev held : Seat
held = record { pointer_event = click_at 40 43; dim = window; client_fd = some 3; commands = [] }

held-IsHeld : IsHeld whole_pixels 0 0 0 held
held-IsHeld = record {
  connected = (3, refl);
  button_event = refl;
  pressed = omega arith;
  left = refl;
}

abbrev to_second : Motion
to_second = record { time = 6; x = pos 120; y = pos 43 }

over_second : PassesOver whole_pixels 0 0 0 window (to_second ∷ []) (1 ∷ [])
unfolding get_underlying_led led_at ◌+ℤ◌ ◌-ℤ◌ ◌*ℤ◌ ◌/ℤ◌
over_second = (refl, tt)

drag_example :
    (s' : Seat) × (dragged whole_pixels 0 0 0 held (to_second ∷ []) ≡ done s')
    × (s'.commands ≡ held.commands ++ map (toggle whole_pixels 0 0 0) (1 ∷ []))
drag_example =
    dragged_toggles whole_pixels 0 0 0 held (to_second ∷ []) (1 ∷ []) held-IsHeld over_second

abbrev live : RenderBuffer
live = record {
  shm_fd = some 5;
  shm_size = 3640000;
  shmp = mapped;
  dimensions = window;
  wl_shm_pool = alive;
  wl_buffer0 = alive;
  wl_buffer1 = alive;
  busy0 = false;
  busy1 = false;
}

abbrev pub no_memory : Answers
no_memory = record {
  memfd = none;
  truncates = true;
  seals = true;
  maps = true;
  pools = true;
  buffers0 = true;
  buffers1 = true;
  zeroed = bare;
}

abbrev larger : Dimensions
larger = record { width = 800; height = 700 }

resize_example : render_buffer_resize live larger no_memory ≡ (
    if works no_memory && (true && true) then done (renewed live larger no_memory, true) else fault)
resize_example =
    render_buffer_resize_live live larger no_memory
      (record { pool = refl; first = refl; second = refl }) refl (omega arith) (omega arith)

abbrev pub shown : WlClient
shown = record {
  flags = 1;
  current_dim = window;
  pending_dim = window;
  render_buffer = live;
  memory = bare;
  led_grid = leds_off;
  frame_callback = true;
  committed = [];
  shutting_down = false;
}

redraw_example :
    wayland_client_redraw shown no_memory
    ≡ done (elim (get_front_buffer_index false false) [
      | none ↦ shown
      | some idx ↦ framed shown window-IsRoomy idx
    ])
redraw_example =
    wayland_client_redraw_lem shown no_memory window-IsRoomy
      (record { initialized = refl; settled = refl; has_memory = refl })

abbrev both_busy : WlClient
both_busy = record shown { render_buffer = record live { busy0 = true; busy1 = true } }

stall_example :
    (c' : WlClient) × (handle_all both_busy (frame_done no_memory ∷ map buffer_release (1 ∷ 0 ∷ []))
      ≡ done c')
    × (c'.frame_callback ≡ false)
    × (c'.committed ≡ both_busy.committed)
stall_example =
    handle_all_stalled both_busy no_memory (1 ∷ 0 ∷ [])
      (record { initialized = refl; settled = refl; has_memory = refl }) refl refl

abbrev fresh : WlClient
fresh = record shown { flags = 0; render_buffer = record live { shmp = Mapping.unmapped } }

sized_example :
    (c' : WlClient) × (handle_all fresh
        (toplevel_configure larger ∷ surface_configure no_memory ∷ [])
      ≡ done c')
    × IsBlank c'
    × (c'.committed ≡ fresh.committed)
sized_example =
    handle_all-IsBlank fresh (toplevel_configure larger ∷ surface_configure no_memory ∷ []) refl
      (refl, (tt, tt))
