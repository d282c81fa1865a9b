-- ===== src/Grid/Pointer/Margin.antt =====
-- qemu-devices/led/seat.c: a click beside the cells of the grid.
use qemu_devices_and_drivers.Base.{
  ℕ, ◌+◌, ◌*◌, ◌/◌, ◌%◌, ◌≤◌, ◌<◌, bit_and, true, false, ◌==◌, done, ◌≡◌, inl, inr, ap, ◌∙◌, arith,
  lt→ltb, Bool-cases,
}
use qemu_devices_and_drivers.Words.Int.{ℤ, pos}
use qemu_devices_and_drivers.Grid.Render.{LedGrid, Dimensions, led_circle}
use qemu_devices_and_drivers.Grid.Render.Discs.{covers, dist}
use qemu_devices_and_drivers.Grid.Render.Cells.{middle, cell_bounds}
use qemu_devices_and_drivers.Grid.Render.Picture.{IsRoomy, covers_within}
use qemu_devices_and_drivers.Grid.Pointer.{PointerEvent, pointer_event_button, get_underlying_led}
use qemu_devices_and_drivers.Grid.Pointer.Hit.{in_reach, get_underlying_led-cell}

module _ (wl_fixed_to_int : ℤ → ℤ) (e : PointerEvent) (dim : Dimensions) (grid : LedGrid)
    (roomy : IsRoomy dim) (x y : ℕ) where
  -- In a window of 8 to 8192 pixels each way with width / 16 ≤ height / 16 (rounded down), to the right
  -- of the eight columns, where a ninth circle of one of the first seven rows would be, a click finds
  -- the first LED of the next row, although the circle of that LED does not cover the point.
  pub get_underlying_led_margin :
      wl_fixed_to_int e.surface_x ≡ pos x
      → wl_fixed_to_int e.surface_y ≡ pos y
      → (bit_and e.event_mask pointer_event_button == 0) ≡ false
      → x < dim.width
      → y < dim.height
      → x / (dim.width / 8) ≡ 8
      → y / (dim.height / 8) < 7
      → in_reach (dim.width / 16) dim.width dim.height x y 8 (y / (dim.height / 8)) ≡ true
      → (get_underlying_led wl_fixed_to_int e dim ≡ done (pos ((y / (dim.height / 8) + 1) * 8)))
        × (covers (led_circle dim grid ((y / (dim.height / 8) + 1) * 8)) x y ≡ false)
  get_underlying_led_margin at_x at_y click lx ly cx cy reach = (
    get_underlying_led-cell wl_fixed_to_int e dim roomy x y at_x at_y click lx ly
        ∙ rw (cx, reach, lt→ltb (y / (dim.height / 8) * 8 + 8) 64 (omega (arith, cy)))
            (ap (λ n. done (pos n)) (omega arith)),
    elim (Bool-cases (covers (led_circle dim grid ((y / (dim.height / 8) + 1) * 8)) x y)) [
      | inl c ↦ absurd (far (covers_within dim grid roomy _ x y c).0)
      | inr c ↦ c
    ],
  )
    where
      far :
          dist x (middle (dim.width / 8) ((y / (dim.height / 8) + 1) * 8 % 8)) ≤ dim.width / 16 → ⊥
      far h =
          ground
            (arith, first_column, (cell_bounds (dim.width / 8) x (omega (arith, roomy.wide))).0)
        where
          first_column : (y / (dim.height / 8) + 1) * 8 % 8 ≡ 0
          first_column = omega arith
