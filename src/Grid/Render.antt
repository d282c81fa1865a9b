-- ===== src/Grid/Render.antt =====
-- qemu-devices/led/render.c: drawing the grid into the shared memory. The memory maps the address
-- of a pixel to the pixel, counted from the start of the mapping; the code reads and writes whole
-- pixels only. The sizes that the compositor asks for are not negative.
pub mod Loops
pub mod Discs
pub mod Within
pub mod Cells
pub mod Picture
pub mod Draw
use qemu_devices_and_drivers.Base.{
  ℕ, zero, suc, ◌+◌, ◌*◌, ◌/◌, ◌%◌, ◌^◌, Bool, true, false, ◌==◌, ltb, if◌then◌else◌, Option, none,
  some, List, get_or, Outcome, done, fault, bind, for_range,
}
use qemu_devices_and_drivers.Words.Int.{ℤ, pos, ◌+ℤ◌, ◌-ℤ◌, ◌*ℤ◌, checked, checked_ℕ, ltbℤ}
use qemu_devices_and_drivers.Protocol.{Color}
use qemu_devices_and_drivers.Grid.{Led, no_led, grid_led_nr}

abbrev pub pixel_byte_width : ℕ
pixel_byte_width = 4

abbrev pub led_cols : ℕ
led_cols = 8

abbrev pub led_rows : ℕ
led_rows = 8

-- `struct pixel`, little-endian ARGB.
pub record Pixel : Type 0 where
  pub blue : ℕ
  pub green : ℕ
  pub red : ℕ
  pub alpha : ℕ

abbrev pub pixel_of : Color → Pixel
pixel_of color = record { blue = color.c2; green = color.c1; red = color.c0; alpha = color.c3 }

abbrev pub Frame : Type 0
Frame = ℕ → Pixel

pub record Dimensions : Type 0 where
  pub width : ℕ
  pub height : ℕ

-- `struct led_grid`.
pub record LedGrid : Type 0 where
  pub leds : List Led
  pub off_color : Color

-- The loop over the rows and, in each, over the columns.
unfoldable pub for_pixels : Dimensions → (ℕ → ℕ → Frame → Outcome Frame) → Frame → Outcome Frame
for_pixels dim body = for_range dim.height 0 (λ y. for_range dim.width 0 (body y))

abbrev pub put : Frame → ℕ → Pixel → Frame
put f a p j = if j == a then p else f j

-- The pixel of column `x` and row `y` gets a colour.
unfoldable pub colorize : ℕ → ℕ → Color → ℕ → ℕ → Frame → Outcome Frame
colorize buffer stride color y x f =
    bind (checked_ℕ (y * stride))
      (λ row. done (put f (buffer + row + x * pixel_byte_width) (pixel_of color)))

unfoldable pub render_clear_screen : ℕ → Dimensions → Color → Frame → Outcome Frame
render_clear_screen buffer dim color f =
    bind (checked_ℕ (dim.width * pixel_byte_width))
      (λ stride. for_pixels dim (colorize buffer stride color) f)

pub record Circle : Type 0 where
  pub center_x : ℕ
  pub center_y : ℕ
  pub radius : ℕ
  pub color : Color

-- The body of the loop of `draw_circle`.
unfoldable pub draw_pixel : ℕ → ℕ → Circle → ℤ → ℕ → ℕ → Frame → Outcome Frame
draw_pixel buffer stride circle radius_squared y x f =
    bind (checked ((pos x -ℤ pos circle.center_x) *ℤ (pos x -ℤ pos circle.center_x))) (λ distance_x.
      bind (checked ((pos y -ℤ pos circle.center_y) *ℤ (pos y -ℤ pos circle.center_y)))
        (λ distance_y. bind (checked (distance_x +ℤ distance_y)) (λ distance_squared.
          if ltbℤ radius_squared distance_squared
          then done f
          else colorize buffer stride circle.color y x f)))

unfoldable pub draw_circle : ℕ → Dimensions → Circle → Frame → Outcome Frame
draw_circle buffer dim circle f = bind (checked_ℕ (dim.width * pixel_byte_width)) (λ stride.
    bind (checked (pos circle.radius *ℤ pos circle.radius))
      (λ radius_squared. for_pixels dim (draw_pixel buffer stride circle radius_squared) f))

-- The circle of an LED.
unfoldable pub led_circle : Dimensions → LedGrid → ℕ → Circle
led_circle dim grid i =
    let spacing_x = dim.width / led_cols in
    let spacing_y = dim.height / led_rows in
    let led = get_or grid.leds i no_led in
    record {
      center_x = i % led_cols * spacing_x + spacing_x / 2;
      center_y = i / led_cols * spacing_y + spacing_y / 2;
      radius = dim.width / (led_cols * 2);
      color = if led.on == 0 then grid.off_color else led.color;
    }

unfoldable pub render_led_grid : ℕ → Dimensions → LedGrid → Frame → Outcome Frame
render_led_grid buffer dim grid =
    for_range grid_led_nr 0 (λ i. draw_circle buffer dim (led_circle dim grid i))

abbrev pub bg_color : Color
bg_color = record { c0 = 30; c1 = 40; c2 = 35; c3 = 255 }

-- The first of the two buffers that the compositor does not hold.
unfoldable pub get_front_buffer_index : Bool → Bool → Option ℕ
get_front_buffer_index busy0 busy1 = if busy0 then (if busy1 then none else some 1) else some 0

-- `render_draw` from the choice of a buffer on: the screen, then the LEDs.
unfoldable pub draw_frame : ℕ → Dimensions → LedGrid → Frame → Outcome Frame
draw_frame buf_idx dim grid f = bind (checked_ℕ (dim.width * pixel_byte_width)) (λ stride.
    bind (checked_ℕ (dim.height * stride)) (λ frame_size.
      let front_buffer = frame_size * buf_idx in
      bind (render_clear_screen front_buffer dim bg_color f)
        (render_led_grid front_buffer dim grid)))

-- The buffer that was drawn, or `none` for -1.
unfoldable pub render_draw :
    Bool → Bool → Bool → Dimensions → LedGrid → Frame → Outcome (Frame × Option ℕ)
render_draw mapped busy0 busy1 dim grid f =
    if mapped
    then elim (get_front_buffer_index busy0 busy1) [
      | none ↦ done (f, none)
      | some buf_idx ↦ bind (draw_frame buf_idx dim grid f) (λ f'. done (f', some buf_idx))
    ]
    else done (f, none)
