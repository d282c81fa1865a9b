-- ===== src/Grid/Render/Picture.antt =====
-- The picture that `render_led_grid` and `render_draw` of qemu-devices/led/render.c leave.
use native.Mathlib.Nat.{mul-le-mul_right}
use qemu_devices_and_drivers.Base.{
  for_range, ℕ, zero, suc, ◌+◌, ◌*◌, ◌/◌, ◌%◌, ◌^◌, ◌≤◌, ◌<◌, Bool, true, false, ◌==◌,
  if◌then◌else◌, done, bind, ◌≡◌, ◌⊎◌, inl, inr, refl, sym, ap, ◌∙◌, arith, Bool-cases, ==_iff,
  false≢true, leb→le,
}
use qemu_devices_and_drivers.Grid.Render.{
  Pixel, Frame, Dimensions, LedGrid, pixel_of, draw_circle, led_circle, render_led_grid,
}
use qemu_devices_and_drivers.Grid.Render.Loops.{colored}
use qemu_devices_and_drivers.Grid.Render.Discs.{
  dist, IsSmall, covers, address, within, draw_circle_lem,
}
use qemu_devices_and_drivers.Grid.Render.Within.{within_pixel, within_outside}
use qemu_devices_and_drivers.Grid.Render.Cells.{middle, le_of_squares, cell_near, cell_bounds}

module _ (hit : ℕ → ℕ → Bool) (paint : ℕ → Pixel) where
  -- The memory after the layers `i` to `i + n - 1`.
  pub overlaid : ℕ → ℕ → Frame → Frame
  overlaid zero i f = f
  overlaid (suc n) i f = overlaid n (i + 1) (colored f (hit i) (paint i))

  overlaid_missed :
      (n i : ℕ) (f : Frame) (j : ℕ)
      → ((k : ℕ) → i ≤ k → k < i + n → hit k j ≡ false)
      → overlaid n i f j ≡ f j
  unfolding overlaid
  overlaid_missed zero i f j miss = refl
  overlaid_missed (suc n) i f j miss =
      overlaid_missed n (i + 1) (colored f (hit i) (paint i)) j
        (λ k l u. miss k (omega arith) (omega arith))
      ∙ rw (miss i (omega arith) (omega arith)) refl

  -- The last layer that hits an address is the one to be seen there.
  overlaid_last :
      (n i : ℕ) (f : Frame) (j k : ℕ)
      → i ≤ k
      → k < i + n
      → hit k j ≡ true
      → ((m : ℕ) → k < m → m < i + n → hit m j ≡ false)
      → overlaid n i f j ≡ paint k
  unfolding overlaid
  overlaid_last zero i f j k l u h after = absurd (omega arith)
  overlaid_last (suc n) i f j k l u h after = elim (Bool-cases (i == k)) [
    | inl e ↦
        let same = (==_iff i k).0 e in
        overlaid_missed n (i + 1) (colored f (hit i) (paint i)) j
          (λ m lm um. after m (omega (arith, same)) (omega arith))
        ∙ rw (same, h) refl
    | inr e ↦
        overlaid_last n (i + 1) (colored f (hit i) (paint i)) j k (ground arith) (omega arith) h
          (λ m lm um. after m lm (omega arith))
  ]

-- A screen that has a pixel for every cell, and is tall enough for its circles not to overlap.
pub record IsRoomy (dim : Dimensions) : Type 0 where
  pub small : IsSmall dim
  pub wide : 8 ≤ dim.width
  pub tall : 8 ≤ dim.height
  pub apart : dim.width / 16 ≤ dim.height / 16

-- The LED whose cell a pixel is in.
abbrev pub cell : Dimensions → ℕ → ℕ → ℕ
cell dim x y = y / (dim.height / 8) * 8 + x / (dim.width / 8)

times_le : (a b s : ℕ) → a ≤ b → a * s ≤ b * s
times_le a b s h = mul-le-mul_right s h

module _ (dim : Dimensions) (grid : LedGrid) (roomy : IsRoomy dim) where
  circle_fits :
      (i : ℕ)
      → i < 64
      → ((led_circle dim grid i).center_x ≤ 2 ^ 14)
        × ((led_circle dim grid i).center_y ≤ 2 ^ 14)
        × ((led_circle dim grid i).radius ≤ 2 ^ 14)
  unfolding led_circle
  circle_fits i l = (
    omega (arith, times_le (i % 8) 7 (dim.width / 8) (omega arith), roomy.small.width_fits),
    omega (arith, times_le (i / 8) 7 (dim.height / 8) (omega arith), roomy.small.height_fits),
    omega (arith, roomy.small.width_fits),
  )

  pub covers_within :
      (m x y : ℕ)
      → covers (led_circle dim grid m) x y ≡ true
      → (dist x (middle (dim.width / 8) (m % 8)) ≤ dim.width / 16)
        × (dist y (middle (dim.height / 8) (m / 8)) ≤ dim.width / 16)
  unfolding led_circle
  covers_within m x y h = (
    le_of_squares (dist x (middle (dim.width / 8) (m % 8))) (dim.width / 16) _ (leb→le _ _ h),
    le_of_squares (dist y (middle (dim.height / 8) (m / 8))) (dim.width / 16)
        (dist x (middle (dim.width / 8) (m % 8)) * dist x (middle (dim.width / 8) (m % 8)))
        (omega (arith, leb→le _ _ h)),
  )

  -- A circle that covers a pixel is not later than the one of the pixel's cell, which covers it too.
  covers-cell :
      (m x y : ℕ)
      → x / (dim.width / 8) < 8
      → covers (led_circle dim grid m) x y ≡ true
      → (m ≤ cell dim x y) × (covers (led_circle dim grid (cell dim x y)) x y ≡ true)
  unfolding led_circle
  covers-cell m x y lx h =
      (omega (arith, near_x.0, near_y.0), rw (column, row, near_x.1, near_y.1) h)
    where
      column : cell dim x y % 8 ≡ x / (dim.width / 8)
      column = omega (arith, lx)

      row : cell dim x y / 8 ≡ y / (dim.height / 8)
      row = omega (arith, lx)

      near_x :
          (m % 8 ≤ x / (dim.width / 8))
          × (dist x (middle (dim.width / 8) (x / (dim.width / 8)))
              ≡ dist x (middle (dim.width / 8) (m % 8)))
      near_x =
          let b = cell_bounds (dim.width / 8) x (omega (arith, roomy.wide)) in
          cell_near (dim.width / 8) x (x / (dim.width / 8)) (m % 8) (dim.width / 16)
            (omega (arith, roomy.wide)) b.0 b.1 (omega arith) (covers_within m x y h).0

      near_y :
          (m / 8 ≤ y / (dim.height / 8))
          × (dist y (middle (dim.height / 8) (y / (dim.height / 8)))
              ≡ dist y (middle (dim.height / 8) (m / 8)))
      near_y =
          let b = cell_bounds (dim.height / 8) y (omega (arith, roomy.tall)) in
          cell_near (dim.height / 8) y (y / (dim.height / 8)) (m / 8) (dim.width / 16)
            (omega (arith, roomy.tall)) b.0 b.1 (omega (arith, roomy.apart))
            (covers_within m x y h).1

  -- The colour that an LED has on the screen.
  abbrev pub led_pixel : ℕ → Pixel
  led_pixel i = pixel_of (led_circle dim grid i).color

  module _ (buffer : ℕ) where
    abbrev hit : ℕ → ℕ → Bool
    hit i = within buffer dim roomy.small (covers (led_circle dim grid i))

    circles :
        (n i : ℕ) (f : Frame)
        → i + n ≤ 64
        → for_range n i (λ k. draw_circle buffer dim (led_circle dim grid k)) f
          ≡ done (overlaid hit led_pixel n i f)
    unfolding for_range overlaid
    circles zero i f l = refl
    circles (suc n) i f l =
        let (cx, cy, r) = circle_fits i (omega arith) in
        ap
          (λ res.
            bind res (for_range n (i + 1) (λ k. draw_circle buffer dim (led_circle dim grid k))))
          (draw_circle_lem buffer dim roomy.small (led_circle dim grid i) f cx cy r)
        ∙ circles n (i + 1) (colored f (hit i) (led_pixel i)) (omega arith)

    -- The memory after the grid was drawn.
    abbrev pub grid_drawn : Frame → Frame
    grid_drawn = overlaid hit led_pixel 64 0

    pub render_led_grid_drawn :
        (f : Frame) → render_led_grid buffer dim grid f ≡ done (grid_drawn f)
    unfolding render_led_grid
    render_led_grid_drawn f = circles 64 0 f (omega arith)

    abbrev at : ℕ → ℕ → ℕ
    at x y = address buffer (dim.width * 4) y x

    -- A pixel in one of the cells shows the LED of its cell, when the circle of that LED covers it,
    -- and what was there before otherwise.
    pub grid_drawn_pixel :
        (f : Frame) (x y : ℕ)
        → x < dim.width
        → y < dim.height
        → x / (dim.width / 8) < 8
        → y / (dim.height / 8) < 8
        → grid_drawn f (at x y) ≡ (
            if covers (led_circle dim grid (cell dim x y)) x y
            then led_pixel (cell dim x y)
            else f (at x y))
    grid_drawn_pixel f x y lx ly cx cy =
        elim (Bool-cases (covers (led_circle dim grid (cell dim x y)) x y)) [
          | inl c ↦ rw c (
              overlaid_last hit led_pixel 64 0 f (at x y) (cell dim x y) (omega arith)
                (omega (arith, cx, cy)) (hit_lem (cell dim x y) ∙ c) (λ m lm um. later m lm))
          | inr c ↦ rw c (overlaid_missed hit led_pixel 64 0 f (at x y) (λ m lm um. missed m c))
        ]
      where
        hit_lem : (i : ℕ) → hit i (at x y) ≡ covers (led_circle dim grid i) x y
        hit_lem i = within_pixel buffer dim roomy.small (covers (led_circle dim grid i)) x y lx ly

        later : (m : ℕ) → cell dim x y < m → hit m (at x y) ≡ false
        later m l = elim (Bool-cases (hit m (at x y))) [
          | inl c ↦ absurd (omega (arith, (covers-cell m x y cx (sym (hit_lem m) ∙ c)).0))
          | inr c ↦ c
        ]

        missed :
            (m : ℕ)
            → covers (led_circle dim grid (cell dim x y)) x y ≡ false
            → hit m (at x y) ≡ false
        missed m bare = elim (Bool-cases (hit m (at x y))) [
          | inl c ↦ absurd (false≢true (sym bare ∙ (covers-cell m x y cx (sym (hit_lem m) ∙ c)).1))
          | inr c ↦ c
        ]

    pub grid_drawn_outside :
        (f : Frame) (j : ℕ)
        → (j < buffer) ⊎ (buffer + dim.height * (dim.width * 4) ≤ j)
        → grid_drawn f j ≡ f j
    grid_drawn_outside f j out =
        overlaid_missed hit led_pixel 64 0 f j
          (λ m lm um. within_outside buffer dim roomy.small (covers (led_circle dim grid m)) j out)
