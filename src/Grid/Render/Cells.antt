-- ===== src/Grid/Render/Cells.antt =====
-- Where the circles of qemu-devices/led/render.c lie: an LED has a cell of the grid, and a circle
-- that holds a pixel of another cell touches the border between the two.
use native.Mathlib.Nat.{div-add-mod}
use qemu_devices_and_drivers.Base.{
  ℕ, suc, ◌+◌, ◌*◌, ◌/◌, ◌≤◌, ◌<◌, ◌≡◌, ◌⊎◌, inl, inr, refl, sym, ap, ◌∙◌, arith,
}
use qemu_devices_and_drivers.Grid.Render.Discs.{dist}
use qemu_devices_and_drivers.Grid.Render.Within.{row-le}

-- The middle of cell `c`, when the cells are `s` wide.
abbrev pub middle : ℕ → ℕ → ℕ
middle s c = c * s + s / 2

pub le_of_squares : (d r e : ℕ) → d * d + e ≤ r * r → d ≤ r
le_of_squares d r e h = grind arith

-- A coordinate `a` in cell `k` that is at most half a cell from the middle of cell `c`: it is in that
-- cell, or it is the border of the next one, and both middles are half a cell away.
near_middle :
    (s a k c r : ℕ)
    → 0 < s
    → k * s ≤ a
    → a < k * s + s
    → r ≤ s / 2
    → dist a (middle s c) ≤ r
    → (c ≡ k) ⊎ ((suc c ≡ k) × (dist a (middle s c) ≡ r) × (dist a (middle s k) ≡ r))
near_middle s a k c r ps lo hi hr h = elim (order c k) [
  | inl (inl far) ↦
      absurd (ground (arith, row-le c (suc c) s (omega arith), row-le (suc c) k s far))
  | inl (inr next) ↦ inr (
    next,
    ground (arith, row-le c k s (omega arith), suc_mul c s, ap (λ n. n * s) next),
    ground (arith, row-le c k s (omega arith), suc_mul c s, ap (λ n. n * s) next),
  )
  | inr (inl same) ↦ inl same
  | inr (inr after) ↦ absurd (ground (arith, row-le k c s after))
]
  where
    suc_mul : (a b : ℕ) → suc a * b ≡ a * b + b
    suc_mul a b = omega arith

    order : (c k : ℕ) → ((suc c < k) ⊎ (suc c ≡ k)) ⊎ ((c ≡ k) ⊎ (k < c))
    order c k = omega arith

-- The middle of the cell is as near as that of any circle within reach, and no cell within reach
-- comes later.
pub cell_near :
    (s a k c r : ℕ)
    → 0 < s
    → k * s ≤ a
    → a < k * s + s
    → r ≤ s / 2
    → dist a (middle s c) ≤ r
    → (c ≤ k) × (dist a (middle s k) ≡ dist a (middle s c))
cell_near s a k c r ps lo hi hr h = elim (near_middle s a k c r ps lo hi hr h) [
  | inl e ↦ (omega (arith, e), rw e refl)
  | inr (e, border, border') ↦ (omega (arith, e), border' ∙ sym border)
]

-- The cell of a coordinate.
pub cell_bounds : (s a : ℕ) → 0 < s → (a / s * s ≤ a) × (a < a / s * s + s)
cell_bounds s a ps = (omega (arith, div-add-mod a s), grind arith)
