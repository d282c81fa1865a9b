-- ===== src/Grid/Pointer/Hit.antt =====
-- Where a click of qemu-devices/led/seat.c hits, compared with what qemu-devices/led/render.c draws.
use native.Mathlib.Nat.{div-le_self}
use qemu_devices_and_drivers.Base.{
  ℕ, ◌+◌, ◌*◌, ◌/◌, ◌%◌, ◌^◌, ◌≤◌, ◌<◌, bit_and, Bool, true, false, not, ◌==◌, ltb, leb,
  if◌then◌else◌, done, ◌≡◌, refl, ap, ◌∙◌, arith, lt→ltb, ==_ne,
}
use qemu_devices_and_drivers.Words.Int.{ℤ, pos, negsuc, ◌-ℤ◌, ◌*ℤ◌, ◌/ℤ◌, fits32}
use qemu_devices_and_drivers.Grid.Render.{
  Dimensions, LedGrid, Frame, led_circle, pixel_of, bg_color,
}
use qemu_devices_and_drivers.Grid.Render.Discs.{
  dist, covers, square-difference, square_fits, square_pos, sum_pos, address, over,
  difference_of_eq, square-le,
}
use qemu_devices_and_drivers.Grid.Render.Cells.{middle, cell_bounds}
use qemu_devices_and_drivers.Grid.Render.Picture.{IsRoomy, cell, led_pixel}
use qemu_devices_and_drivers.Grid.Render.Draw.{picture, picture_pixel}
use qemu_devices_and_drivers.Grid.Pointer.{
  PointerEvent, pointer_event_button, led_at, get_underlying_led,
}

product_pos : (a b : ℕ) → pos a *ℤ pos b ≡ pos (b * a)
unfolding ◌*ℤ◌
product_pos a b =
    difference_of_eq (a * b + 0 * 0) (a * 0 + 0 * b) (b * a) (omega arith) (omega arith)

quotient_pos : (a b : ℕ) → pos a /ℤ pos b ≡ pos (a / b)
unfolding ◌/ℤ◌
quotient_pos a b = ground arith

difference_fits : (a b : ℕ) → a < 2 ^ 31 → b < 2 ^ 31 → fits32 (pos a -ℤ pos b) ≡ true
unfolding ◌-ℤ◌
difference_fits a b la lb = ground arith

abbrev pub in_reach : ℕ → (width height : ℕ) → (x y col row : ℕ) → Bool
in_reach radius width height x y col row =
    let dx = dist x (middle (width / 8) col) in
    let dy = dist y (middle (height / 8) row) in leb (dx * dx + dy * dy) (radius * radius)

choice :
    (b c : Bool) (z : ℤ)
    → (if not b then done (negsuc 0) else if c then done z else done (negsuc 0))
      ≡ done (if b then (if c then z else negsuc 0) else negsuc 0)
choice true true z = refl
choice true false z = refl
choice false c z = refl

test_sum : (n : ℕ) → ltb (n + 0) 64 ≡ ltb n 64
test_sum n = ground arith

-- `led_at` for a point whose cell lies within reach.
pub led_at_lem :
    (width height x y col row : ℕ)
    → width ≤ 2 ^ 14
    → x ≤ 2 ^ 14
    → y ≤ 2 ^ 14
    → middle (width / 8) col ≤ 2 ^ 14
    → middle (height / 8) row ≤ 2 ^ 14
    → col ≤ 2 ^ 14
    → row ≤ 2 ^ 14
    → led_at width height (pos x) (pos y) (pos col) (pos row)
      ≡ done (
          if in_reach (width / 16) width height x y col row
          then (if ltb (row * 8 + col) 64 then pos (row * 8 + col) else negsuc 0)
          else negsuc 0)
unfolding led_at
led_at_lem width height x y col row lw lx ly lcx lcy lc lr =
    rw
      (
        product_pos (width / 8) col,
        lt→ltb (col * (width / 8)) (2 ^ 31) (omega (arith, lcx)),
        sum_pos (col * (width / 8)) (width / 8 / 2),
        lt→ltb (middle (width / 8) col) (2 ^ 31) (omega (arith, lcx)),
        product_pos (height / 8) row,
        lt→ltb (row * (height / 8)) (2 ^ 31) (omega (arith, lcy)),
        sum_pos (row * (height / 8)) (height / 8 / 2),
        lt→ltb (middle (height / 8) row) (2 ^ 31) (omega (arith, lcy)),
        difference_fits x (middle (width / 8) col) (omega (arith, lx)) (omega (arith, lcx)),
        difference_fits y (middle (height / 8) row) (omega (arith, ly)) (omega (arith, lcy)),
        square-difference x (middle (width / 8) col),
        lt→ltb (dx * dx) (2 ^ 31) (omega (arith, fits_x)),
        square-difference y (middle (height / 8) row),
        lt→ltb (dy * dy) (2 ^ 31) (omega (arith, fits_y)),
        sum_pos (dx * dx) (dy * dy),
        lt→ltb (dx * dx + dy * dy) (2 ^ 31) (omega (arith, fits_x, fits_y)),
        square_pos (width / 16),
        lt→ltb (width / 16 * (width / 16)) (2 ^ 31)
            (omega (arith, square-le (width / 16) (2 ^ 10) (omega (arith, lw)))),
        over (dx * dx + dy * dy) (width / 16 * (width / 16)),
        product_pos 8 row,
        lt→ltb (row * 8) (2 ^ 31) (omega (arith, lr)),
        sum_pos (row * 8) col,
        lt→ltb (row * 8 + col) (2 ^ 31) (omega (arith, lr, lc)),
        test_sum (row * 8 + col),
      )
      (choice (in_reach (width / 16) width height x y col row) (ltb (row * 8 + col) 64)
        (pos (row * 8 + col)))
  where
    dx : ℕ
    dx = dist x (middle (width / 8) col)

    dy : ℕ
    dy = dist y (middle (height / 8) row)

    fits_x : dx * dx ≤ 2 ^ 28
    fits_x = square_fits x (middle (width / 8) col) lx lcx

    fits_y : dy * dy ≤ 2 ^ 28
    fits_y = square_fits y (middle (height / 8) row) ly lcy

covers_reach :
    (dim : Dimensions) (grid : LedGrid) (x y : ℕ)
    → x / (dim.width / 8) < 8
    → covers (led_circle dim grid (cell dim x y)) x y
      ≡ in_reach
          (dim.width / 16)
          dim.width
          dim.height
          x
          y
          (x / (dim.width / 8))
          (y / (dim.height / 8))
unfolding led_circle
covers_reach dim grid x y cx = rw (column, row) refl
  where
    column : cell dim x y % 8 ≡ x / (dim.width / 8)
    column = omega (arith, cx)

    row : cell dim x y / 8 ≡ y / (dim.height / 8)
    row = omega (arith, cx)

module _ (wl_fixed_to_int : ℤ → ℤ) (e : PointerEvent) (dim : Dimensions) (roomy : IsRoomy dim)
    (x y : ℕ) (at_x : wl_fixed_to_int e.surface_x ≡ pos x)
    (at_y : wl_fixed_to_int e.surface_y ≡ pos y)
    (click : (bit_and e.event_mask pointer_event_button == 0) ≡ false) where
  -- A click on a point of the window, whatever its cell.
  pub get_underlying_led-cell :
      x < dim.width
      → y < dim.height
      → get_underlying_led wl_fixed_to_int e dim
        ≡ done (
            if in_reach
              (dim.width / 16)
              dim.width
              dim.height
              x
              y
              (x / (dim.width / 8))
              (y / (dim.height / 8))
            then (if ltb (cell dim x y) 64 then pos (cell dim x y) else negsuc 0)
            else negsuc 0)
  unfolding get_underlying_led
  get_underlying_led-cell lx ly =
      rw
        (
          click,
          ==_ne (dim.width / 8) 0 (omega (arith, roomy.wide)),
          ==_ne (dim.height / 8) 0 (omega (arith, roomy.tall)),
          at_x,
          at_y,
          quotient_pos x (dim.width / 8),
          quotient_pos y (dim.height / 8),
        )
        (led_at_lem dim.width dim.height x y (x / (dim.width / 8)) (y / (dim.height / 8))
          (omega (arith, roomy.small.width_fits)) (omega (arith, lx, roomy.small.width_fits))
          (omega (arith, ly, roomy.small.height_fits))
          (omega (
            arith,
            (cell_bounds (dim.width / 8) x (omega (arith, roomy.wide))).0,
            lx,
            roomy.small.width_fits,
          ))
          (omega (
            arith,
            (cell_bounds (dim.height / 8) y (omega (arith, roomy.tall))).0,
            ly,
            roomy.small.height_fits,
          ))
          (omega (arith, div-le_self x (dim.width / 8), lx, roomy.small.width_fits))
          (omega (arith, div-le_self y (dim.height / 8), ly, roomy.small.height_fits)))

  module _ (grid : LedGrid) (f : Frame) (idx : ℕ) where
    -- In a window of 8 to 8192 pixels each way with width / 16 ≤ height / 16 (rounded down: in wider
    -- ones the circles overlap), on a point of one of the 64 cells, a click and the picture agree:
    -- where the frame that is drawn shows an LED, the click finds that LED, and where it shows the
    -- background, it finds none.
    pub get_underlying_led-picture :
        x / (dim.width / 8) < 8
        → y / (dim.height / 8) < 8
        → x < dim.width
        → y < dim.height
        → let seen = covers (led_circle dim grid (cell dim x y)) x y in
          (get_underlying_led wl_fixed_to_int e dim
            ≡ done (if seen then pos (cell dim x y) else negsuc 0))
          × (picture dim grid roomy idx f
                (address (dim.height * (dim.width * 4) * idx) (dim.width * 4) y x)
              ≡ (if seen then led_pixel dim grid roomy (cell dim x y) else pixel_of bg_color))
    get_underlying_led-picture cx cy lx ly = (
      get_underlying_led-cell lx ly
          ∙ ap done (
              rw (covers_reach dim grid x y cx, lt→ltb (cell dim x y) 64 (omega (arith, cx, cy)))
                refl),
      picture_pixel dim grid roomy idx f x y lx ly cx cy,
    )
