-- ===== src/Grid/Render/Discs.antt =====
-- What `render_clear_screen` and `draw_circle` of qemu-devices/led/render.c leave in the memory.
use qemu_devices_and_drivers.Base.{
  ℕ, suc, ◌+◌, ◌-◌, ◌*◌, ◌^◌, ◌≤◌, ◌<◌, Bool, true, false, not, ◌&&◌, ◌==◌, leb, ltb, if◌then◌else◌,
  done, ◌≡◌, refl, ap, ◌∙◌, arith, Bool-cases, lt→ltb, ◌⊎◌, inl, inr,
}
use qemu_devices_and_drivers.Words.Int.{pos, negsuc, ◌+ℤ◌, ◌-ℤ◌, ◌*ℤ◌, checked, sub_ℕ}
use qemu_devices_and_drivers.Protocol.{Color}
use qemu_devices_and_drivers.Grid.Render.{
  Frame, Dimensions, pixel_byte_width, pixel_of, colorize, render_clear_screen, Circle, draw_pixel,
  draw_circle,
}
use qemu_devices_and_drivers.Grid.Render.Loops.{any, colored, for_pixels-colored}

-- The distance between two numbers.
abbrev pub dist : ℕ → ℕ → ℕ
dist a b = if leb a b then b - a else a - b

pub difference_of_eq : (m k n : ℕ) → k ≡ 0 → m ≡ n → sub_ℕ m k ≡ pos n
difference_of_eq m k n e h = ground arith

pub sum_pos : (a b : ℕ) → pos a +ℤ pos b ≡ pos (a + b)
unfolding ◌+ℤ◌
sum_pos a b = ground arith

pub square_pos : (a : ℕ) → pos a *ℤ pos a ≡ pos (a * a)
unfolding ◌*ℤ◌
square_pos a = difference_of_eq (a * a + 0 * 0) (a * 0 + 0 * a) (a * a) (omega arith) (omega arith)

square_negsuc : (a d : ℕ) → suc a ≡ d → negsuc a *ℤ negsuc a ≡ pos (d * d)
unfolding ◌*ℤ◌
square_negsuc a d e =
    difference_of_eq (0 * 0 + suc a * suc a) (0 * suc a + suc a * 0) (d * d) (omega arith)
      (rw e (omega arith))

difference_cases :
    (a b : ℕ)
    → (pos a -ℤ pos b ≡ pos (dist a b))
      ⊎ ((c : ℕ) × (pos a -ℤ pos b ≡ negsuc c) × (suc c ≡ dist a b))
unfolding ◌-ℤ◌
difference_cases a b = elim (Bool-cases (leb b a)) [
  | inl e ↦ inl (ground arith)
  | inr e ↦ inr (b - a - 1, ground arith, ground arith)
]

pub square-difference : (a b : ℕ) → (pos a -ℤ pos b) *ℤ (pos a -ℤ pos b) ≡ pos (dist a b * dist a b)
square-difference a b = elim (difference_cases a b) [
  | inl e ↦ ap (λ z. z *ℤ z) e ∙ square_pos (dist a b)
  | inr (c, e, size) ↦ ap (λ z. z *ℤ z) e ∙ square_negsuc c (dist a b) size
]

pub square-le : (d m : ℕ) → d ≤ m → d * d ≤ m * m
square-le d m h = grind arith

-- Sizes at which no product overflows.
pub record IsSmall (dim : Dimensions) : Type 0 where
  pub width_fits : dim.width ≤ 2 ^ 13
  pub height_fits : dim.height ≤ 2 ^ 13

-- The circle holds the pixel of column `x` and row `y`.
abbrev pub covers : Circle → ℕ → ℕ → Bool
covers c x y =
    leb (dist x c.center_x * dist x c.center_x + dist y c.center_y * dist y c.center_y)
      (c.radius * c.radius)

-- The square of a distance within the screen is an `int`.
pub square_fits : (a b : ℕ) → a ≤ 2 ^ 14 → b ≤ 2 ^ 14 → dist a b * dist a b ≤ 2 ^ 28
square_fits a b la lb = square-le (dist a b) (2 ^ 14) (ground arith)

pub checked_pos : (n : ℕ) → n < 2 ^ 31 → checked (pos n) ≡ done (pos n)
checked_pos n h = ground arith

abbrev pub address : ℕ → ℕ → ℕ → ℕ → ℕ
address buffer stride y x = buffer + y * stride + x * pixel_byte_width

colorize_lem :
    (buffer stride : ℕ) (color : Color) (y x : ℕ) (f : Frame)
    → y * stride < 2 ^ 31
    → colorize buffer stride color y x f
      ≡ done (colored f (λ j. j == address buffer stride y x) (pixel_of color))
unfolding colorize
colorize_lem buffer stride color y x f h = rw (lt→ltb _ _ h) refl

pub over : (d r : ℕ) → ltb (r + 0) (d + 0) ≡ not (leb d r)
over d r = ground arith

colorize_if :
    (b : Bool) (buffer stride : ℕ) (color : Color) (y x : ℕ) (f : Frame)
    → y * stride < 2 ^ 31
    → (if not b then done f else colorize buffer stride color y x f)
      ≡ done (colored f (λ j. b && (j == address buffer stride y x)) (pixel_of color))
colorize_if true buffer stride color y x f h = colorize_lem buffer stride color y x f h
colorize_if false buffer stride color y x f h = refl

row-lt : (y w : ℕ) → y ≤ 2 ^ 14 → w ≤ 2 ^ 14 → y * (w * 4) < 2 ^ 31
row-lt y w hy hw = grind arith

module _ (buffer : ℕ) (dim : Dimensions) (small : IsSmall dim) where
  abbrev stride : ℕ
  stride = dim.width * pixel_byte_width

  draw_pixel_lem :
      (c : Circle) (y x : ℕ) (f : Frame)
      → c.center_x ≤ 2 ^ 14
      → c.center_y ≤ 2 ^ 14
      → y < dim.height
      → x < dim.width
      → draw_pixel buffer stride c (pos (c.radius * c.radius)) y x f
        ≡ done
            (colored f (λ j. covers c x y && (j == address buffer stride y x)) (pixel_of c.color))
  unfolding draw_pixel
  draw_pixel_lem c y x f cx cy ly lx =
      rw
        (
          square-difference x c.center_x,
          lt→ltb (dx * dx) (2 ^ 31) (omega (arith, fits_x)),
          square-difference y c.center_y,
          lt→ltb (dy * dy) (2 ^ 31) (omega (arith, fits_y)),
          sum_pos (dx * dx) (dy * dy),
          lt→ltb (dx * dx + dy * dy) (2 ^ 31) (omega (arith, fits_x, fits_y)),
          over (dx * dx + dy * dy) (c.radius * c.radius),
        )
        (colorize_if (covers c x y) buffer stride c.color y x f
          (row-lt y dim.width (omega (arith, small.height_fits)) (omega (arith, small.width_fits))))
    where
      dx : ℕ
      dx = dist x c.center_x

      dy : ℕ
      dy = dist y c.center_y

      fits_x : dx * dx ≤ 2 ^ 28
      fits_x = square_fits x c.center_x (omega (arith, small.width_fits)) cx

      fits_y : dy * dy ≤ 2 ^ 28
      fits_y = square_fits y c.center_y (omega (arith, small.height_fits)) cy

  -- Whether `j` is the address of a pixel of the screen that passes the test.
  abbrev pub within : (ℕ → ℕ → Bool) → ℕ → Bool
  within test j =
      any dim.height 0 (λ y. any dim.width 0 (λ x. test x y && (j == address buffer stride y x)))

  stride-lt : ltb (dim.width * pixel_byte_width) (2 ^ 31) ≡ true
  stride-lt = lt→ltb _ _ (omega (arith, small.width_fits))

  -- A circle with its centre on a small screen colours the pixels that it covers.
  pub draw_circle_lem :
      (c : Circle) (f : Frame)
      → c.center_x ≤ 2 ^ 14
      → c.center_y ≤ 2 ^ 14
      → c.radius ≤ 2 ^ 14
      → draw_circle buffer dim c f ≡ done (colored f (within (covers c)) (pixel_of c.color))
  unfolding draw_circle
  draw_circle_lem c f cx cy r =
      rw
        (
          stride-lt,
          square_pos c.radius,
          lt→ltb (c.radius * c.radius) (2 ^ 31) (omega (arith, square-le c.radius (2 ^ 14) r)),
        )
        (for_pixels-colored dim _ (λ y x j. covers c x y && (j == address buffer stride y x))
          (pixel_of c.color) (λ y x ly lx g. draw_pixel_lem c y x g cx cy ly lx) f)

  pub render_clear_screen_lem :
      (color : Color) (f : Frame)
      → render_clear_screen buffer dim color f
        ≡ done (colored f (within (λ x y. true)) (pixel_of color))
  unfolding render_clear_screen
  render_clear_screen_lem color f = rw stride-lt (
      for_pixels-colored dim _ (λ y x j. j == address buffer stride y x) (pixel_of color)
        (λ y x ly lx g.
          colorize_lem buffer stride color y x g (
            row-lt y dim.width (omega (arith, small.height_fits))
              (omega (arith, small.width_fits))))
        f)
