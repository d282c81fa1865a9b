-- ===== src/Grid/Render/Within.antt =====
-- The pixels of a screen have addresses of their own, within the buffer of the screen.
use native.Mathlib.Nat.{mul-le-mul_right}
use qemu_devices_and_drivers.Base.{
  ℕ, suc, ◌+◌, ◌*◌, ◌≤◌, ◌<◌, Bool, true, false, ◌&&◌, ◌==◌, ◌≡◌, ◌≢◌, ◌⊎◌, refl, sym, ap, ◌∙◌,
  arith, ==_iff, ==_ne,
}
use qemu_devices_and_drivers.Grid.Render.{Dimensions, pixel_byte_width}
use qemu_devices_and_drivers.Grid.Render.Loops.{any, any_none, any_only}
use qemu_devices_and_drivers.Grid.Render.Discs.{address, IsSmall, within}

pub row-le : (y y' s : ℕ) → y < y' → y * s + s ≤ y' * s
row-le y y' s h = omega (arith, mul-le-mul_right s h, suc_mul y s)
  where
    suc_mul : (a b : ℕ) → suc a * b ≡ a * b + b
    suc_mul a b = omega arith

module _ (buffer w y x y' x' : ℕ) (lx : x < w) (lx' : x' < w) where
  address-ne_row :
      y ≢ y'
      → address buffer (w * pixel_byte_width) y x ≢ address buffer (w * pixel_byte_width) y' x'
  address-ne_row ne e = ground (arith, row-le y y' (w * 4), row-le y' y (w * 4))

and_false : (b : Bool) → (b && false) ≡ false
and_false true = refl
and_false false = refl

and_true : (b : Bool) → (b && true) ≡ b
and_true true = refl
and_true false = refl

column-ne : (a x x' : ℕ) → x ≢ x' → a + x * 4 ≢ a + x' * 4
column-ne a x x' ne e = ne (omega arith)

module _ (buffer : ℕ) (dim : Dimensions) (small : IsSmall dim) (test : ℕ → ℕ → Bool) where
  abbrev here : ℕ → ℕ → ℕ
  here y x = address buffer (dim.width * pixel_byte_width) y x

  pub within_pixel :
      (x y : ℕ)
      → x < dim.width
      → y < dim.height
      → within buffer dim small test (here y x) ≡ test x y
  within_pixel x y lx ly =
      any_only dim.height 0 y _ (omega arith) (omega arith) other_row
      ∙ any_only dim.width 0 x _ (omega arith) (omega arith) other_column
      ∙ ap (λ b. test x y && b) ((==_iff (here y x) (here y x)).1 refl)
      ∙ and_true (test x y)
    where
      other_row :
          (j : ℕ) → j ≢ y → any dim.width 0 (λ k. test k j && (here y x == here j k)) ≡ false
      other_row j ne = any_none dim.width 0 _ (λ k _ lk.
          rw
            (==_ne (here y x) (here j k)
              (address-ne_row buffer dim.width y x j k lx (omega arith) (λ e. ne (sym e))))
            (and_false (test k j)))

      other_column : (k : ℕ) → k ≢ x → (test k y && (here y x == here y k)) ≡ false
      other_column k ne =
          rw
            (==_ne (here y x) (here y k)
              (column-ne (buffer + y * (dim.width * 4)) x k (λ e. ne (sym e))))
            (and_false (test k y))

  -- An address outside the buffer of the screen.
  pub within_outside :
      (j : ℕ)
      → (j < buffer) ⊎ (buffer + dim.height * (dim.width * 4) ≤ j)
      → within buffer dim small test j ≡ false
  within_outside j out = any_none dim.height 0 _ (λ y _ ly. any_none dim.width 0 _ (λ x _ lx.
      rw (==_ne j (here y x) (apart y x (omega arith) (omega arith))) (and_false (test x y))))
    where
      apart : (y x : ℕ) → y < dim.height → x < dim.width → j ≢ here y x
      apart y x ly lx e = ground (arith, row-le y dim.height (dim.width * 4))
