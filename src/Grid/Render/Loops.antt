-- ===== src/Grid/Render/Loops.antt =====
-- What a loop that colours the pixels of a test leaves in the memory.
use qemu_devices_and_drivers.Base.{
  for_range, ℕ, zero, suc, ◌+◌, ◌≤◌, ◌<◌, Bool, true, false, ◌||◌, ◌==◌, if◌then◌else◌, Outcome,
  done, bind, ◌≡◌, ◌≢◌, refl, ap, ◌∙◌, arith, Bool-cases, ==_iff, ap₂, inl, inr,
}
use mathlib.Core.Path.{fun_ext}
use qemu_devices_and_drivers.Grid.Render.{Pixel, Frame, Dimensions, for_pixels}

-- Whether one of the numbers from `i` to `i + n - 1` passes the test.
abbrev pub any : ℕ → ℕ → (ℕ → Bool) → Bool
any zero i test = false
any (suc n) i test = any n (i + 1) test || test i

pub any_none :
    (n i : ℕ) (test : ℕ → Bool)
    → ((k : ℕ) → i ≤ k → k < i + n → test k ≡ false)
    → any n i test ≡ false
any_none zero i test h = refl
any_none (suc n) i test h =
    rw
      (
        any_none n (i + 1) test (λ k l u. h k (omega arith) (omega arith)),
        h i (omega arith) (omega arith),
      )
      refl

or_false : (b : Bool) → (b || false) ≡ b
or_false true = refl
or_false false = refl

ne_of_== : (i k : ℕ) → (i == k) ≡ false → i ≢ k
ne_of_== i k e = ground arith

pub any_only :
    (n i k : ℕ) (test : ℕ → Bool)
    → i ≤ k
    → k < i + n
    → ((j : ℕ) → j ≢ k → test j ≡ false)
    → any n i test ≡ test k
any_only zero i k test l u h = absurd (omega arith)
any_only (suc n) i k test l u h = elim (Bool-cases (i == k)) [
  | inl e ↦
      let same = (==_iff i k).0 e in
      ap₂ ◌||◌ (any_none n (i + 1) test (λ j below _. h j (omega arith))) (ap test same)
  | inr e ↦
      let differs = ne_of_== i k e in
      rw (any_only n (i + 1) k test (omega arith) (omega arith) h, h i differs) (or_false (test k))
]

-- The memory after the pixel at the address `p` for every number of the range that passes the test.
abbrev pub colored : Frame → (ℕ → Bool) → Pixel → Frame
colored f hit p j = if hit j then p else f j

colored_twice :
    (f : Frame) (a b : ℕ → Bool) (p : Pixel)
    → colored (colored f b p) a p ≡ colored f (λ j. a j || b j) p
colored_twice f a b p = fun_ext (λ j. by-hit (a j) (b j) (f j))
  where
    by-hit :
        (x y : Bool) (q : Pixel) → (if x then p else if y then p else q) ≡ (if x || y then p else q)
    by-hit true y q = refl
    by-hit false y q = refl

-- A loop whose body colours what its test says.
pub for_range-colored :
    (n i : ℕ) (body : ℕ → Frame → Outcome Frame) (hit : ℕ → ℕ → Bool) (p : Pixel)
    → ((k : ℕ) → k < i + n → (f : Frame) → body k f ≡ done (colored f (hit k) p))
    → (f : Frame) → for_range n i body f ≡ done (colored f (λ j. any n i (λ k. hit k j)) p)
unfolding for_range
for_range-colored zero i body hit p each f = refl
for_range-colored (suc n) i body hit p each f =
    ap (λ r. bind r (for_range n (i + 1) body)) (each i (omega arith) f)
    ∙ for_range-colored n (i + 1) body hit p (λ k l. each k (omega arith)) (colored f (hit i) p)
    ∙ ap done (colored_twice f (λ j. any n (i + 1) (λ k. hit k j)) (hit i) p)

pub for_pixels-colored :
    (dim : Dimensions) (body : ℕ → ℕ → Frame → Outcome Frame) (hit : ℕ → ℕ → ℕ → Bool) (p : Pixel)
    → ((y x : ℕ)
        → y < dim.height
        → x < dim.width
        → (f : Frame) → body y x f ≡ done (colored f (hit y x) p))
    → (f : Frame)
    → for_pixels dim body f
      ≡ done (colored f (λ j. any dim.height 0 (λ y. any dim.width 0 (λ x. hit y x j))) p)
unfolding for_pixels
for_pixels-colored dim body hit p each =
    for_range-colored dim.height 0 (λ y. for_range dim.width 0 (body y))
      (λ y j. any dim.width 0 (λ x. hit y x j)) p
      (λ y ly.
        for_range-colored dim.width 0 (body y) (hit y) p
          (λ x lx. each y x (omega arith) (omega arith)))
