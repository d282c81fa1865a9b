-- ===== src/Grid/Render/Draw.antt =====
-- A frame, from the choice of a buffer to its last pixel: `render_draw` of
-- qemu-devices/led/render.c.
use qemu_devices_and_drivers.Base.{
  ℕ, ◌+◌, ◌*◌, ◌/◌, ◌^◌, ◌≤◌, ◌<◌, Bool, true, false, if◌then◌else◌, none, some, done, ◌≡◌, ◌⊎◌,
  refl, ◌∙◌, arith, lt→ltb,
}
use qemu_devices_and_drivers.Grid.Render.{
  Frame, Dimensions, LedGrid, pixel_of, led_circle, bg_color, get_front_buffer_index, draw_frame,
  render_draw,
}
use qemu_devices_and_drivers.Grid.Render.Loops.{colored}
use qemu_devices_and_drivers.Grid.Render.Discs.{covers, address, within, render_clear_screen_lem}
use qemu_devices_and_drivers.Grid.Render.Within.{within_pixel, within_outside}
use qemu_devices_and_drivers.Grid.Render.Picture.{
  IsRoomy, cell, led_pixel, grid_drawn, render_led_grid_drawn, grid_drawn_pixel, grid_drawn_outside,
}

frame-lt : (w h : ℕ) → w ≤ 2 ^ 14 → h ≤ 2 ^ 14 → h * (w * 4) < 2 ^ 31
frame-lt w h lw lh = grind arith

module _ (dim : Dimensions) (grid : LedGrid) (roomy : IsRoomy dim) (idx : ℕ) where
  -- Where the buffer starts.
  abbrev pub buffer_start : ℕ
  buffer_start = dim.height * (dim.width * 4) * idx

  abbrev cleared : Frame → Frame
  cleared f = colored f (within buffer_start dim roomy.small (λ x y. true)) (pixel_of bg_color)

  -- The memory after the frame was drawn.
  abbrev pub picture : Frame → Frame
  picture f = grid_drawn dim grid roomy buffer_start (cleared f)

  frame_drawn : (f : Frame) → draw_frame idx dim grid f ≡ done (picture f)
  unfolding draw_frame
  frame_drawn f =
      rw
        (
          lt→ltb (dim.width * 4) (2 ^ 31) (omega (arith, roomy.small.width_fits)),
          lt→ltb (dim.height * (dim.width * 4)) (2 ^ 31) (
              frame-lt dim.width dim.height (omega (arith, roomy.small.width_fits))
                (omega (arith, roomy.small.height_fits))),
          render_clear_screen_lem buffer_start dim roomy.small bg_color f,
        )
        (render_led_grid_drawn dim grid roomy buffer_start (cleared f))

  pub picture_pixel :
      (f : Frame) (x y : ℕ)
      → x < dim.width
      → y < dim.height
      → x / (dim.width / 8) < 8
      → y / (dim.height / 8) < 8
      → picture f (address buffer_start (dim.width * 4) y x) ≡ (
          if covers (led_circle dim grid (cell dim x y)) x y
          then led_pixel dim grid roomy (cell dim x y)
          else pixel_of bg_color)
  picture_pixel f x y lx ly cx cy =
      grid_drawn_pixel dim grid roomy buffer_start (cleared f) x y lx ly cx cy
      ∙ rw (within_pixel buffer_start dim roomy.small (λ x y. true) x y lx ly) refl

  module _ (f : Frame) (busy0 busy1 : Bool)
      (front : get_front_buffer_index busy0 busy1 ≡ some idx) where
    pub render_draw-picture : render_draw true busy0 busy1 dim grid f ≡ done (picture f, some idx)
    unfolding render_draw
    render_draw-picture = rw (front, frame_drawn f) refl

    -- In a window of 8 to 8192 pixels each way with width / 16 ≤ height / 16 (rounded down: in wider
    -- ones the circles overlap), while the memory is mapped and a buffer is free, a frame is drawn. A pixel of one of the 64
    -- cells shows the LED of its cell, when the circle of that LED covers it: in the LED's colour if
    -- the LED is on, and in the colour for LEDs that are off otherwise. The rest of the cell is
    -- background.
    pub render_draw_pixel :
        (x y : ℕ)
        → x < dim.width
        → y < dim.height
        → x / (dim.width / 8) < 8
        → y / (dim.height / 8) < 8
        → (render_draw true busy0 busy1 dim grid f ≡ done (picture f, some idx))
          × (picture f (address buffer_start (dim.width * 4) y x) ≡ (
              if covers (led_circle dim grid (cell dim x y)) x y
              then led_pixel dim grid roomy (cell dim x y)
              else pixel_of bg_color))
    render_draw_pixel x y lx ly cx cy = (render_draw-picture, picture_pixel f x y lx ly cx cy)

    -- In a window of 8 to 8192 pixels each way with width / 16 ≤ height / 16 (rounded down), while the
    -- memory is mapped and a buffer is free, a frame is drawn into a buffer that the compositor does
    -- not hold, and nothing outside that buffer changes.
    pub render_draw_outside :
        (j : ℕ)
        → (j < buffer_start) ⊎ (buffer_start + dim.height * (dim.width * 4) ≤ j)
        → (render_draw true busy0 busy1 dim grid f ≡ done (picture f, some idx))
          × (picture f j ≡ f j)
          × (((idx ≡ 0) × (busy0 ≡ false)) ⊎ ((idx ≡ 1) × (busy1 ≡ false)))
    unfolding get_front_buffer_index
    render_draw_outside j out = (
      render_draw-picture,
      grid_drawn_outside dim grid roomy buffer_start (cleared f) j out
          ∙ rw (within_outside buffer_start dim roomy.small (λ x y. true) j out) refl,
      ground arith,
    )

pub render_draw_busy :
    (busy0 busy1 : Bool) (dim : Dimensions) (grid : LedGrid) (f : Frame)
    → get_front_buffer_index busy0 busy1 ≡ none
    → render_draw true busy0 busy1 dim grid f ≡ done (f, none)
unfolding render_draw
render_draw_busy busy0 busy1 dim grid f e = rw e refl
