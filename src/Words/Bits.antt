-- ===== src/Words/Bits.antt =====
-- Single bits of a number, and the bitwise operations bit by bit.
use Prim.Native.Nat.{digits, bitwise, bit_and-bitwise, bit_or-bitwise, bit_xor-bitwise, differ}
use native.Mathlib.Nat.{
  pow-suc, pow-succ', div-one, div-div-eq-div-mul, one-le-pow, pow-le-pow_right,
}
use native.Mathlib.Nat.{div-add-mod', mod-lt, mul-add-mod_self_right, mod-eq_of_lt, mul_assoc}
use native.Mathlib.Decide.{ℕ_discrete}
use qemu_devices_and_drivers.Base.{
  ℕ, zero, suc, ◌+◌, ◌-◌, ◌*◌, ◌/◌, ◌%◌, ◌^◌, ◌≤◌, ◌<◌, min, max, bit_and, bit_or, bit_xor, ◌≡◌,
  ◌≢◌, refl, sym, ◌∙◌, ap, arith, ◌==◌, if◌then◌else◌,
}

-- Bit `i` of `a`, as 0 or 1.
unfoldable pub bit : ℕ → ℕ → ℕ
bit a zero = a % 2
bit a (suc i) = bit (a / 2) i

-- The library's bitwise operations go through `digits`, on fuel. Any fuel that is enough gives the
-- same number.
module _ (last : ℕ → ℕ) (on_digit : ℕ → ℕ → ℕ) where
  digits-zero : (fuel y : ℕ) → digits last on_digit fuel 0 y ≡ last y
  digits-zero zero y = refl
  digits-zero (suc fuel) y = refl

  digits_stable :
      (x y fuel more : ℕ)
      → x ≤ more
      → x ≤ fuel
      → digits last on_digit more x y ≡ digits last on_digit fuel x y
  digits_stable zero y fuel more h k = digits-zero more y ∙ sym (digits-zero fuel y)
  digits_stable (suc x) y fuel zero h k = absurd (omega (arith, h))
  digits_stable (suc x) y zero (suc more) h k = absurd (omega (arith, k))
  digits_stable (suc x) y (suc fuel) (suc more) h k =
      ap (λ high. high * 2 + on_digit (suc x % 2) (y % 2))
        (digits_stable (suc x / 2) (y / 2) fuel more (omega arith) (omega arith))

  lowest_digit :
      (x y : ℕ)
      → 0 < x
      → bitwise last on_digit x y
        ≡ bitwise last on_digit (x / 2) (y / 2) * 2 + on_digit (x % 2) (y % 2)
  lowest_digit zero y h = absurd (omega (arith, h))
  lowest_digit (suc x) y h =
      ap (λ high. high * 2 + on_digit (suc x % 2) (y % 2))
        (digits_stable (suc x / 2) (y / 2) (suc x / 2) x (omega arith) (omega arith))

bit_or_step : (a b : ℕ) → bit_or a b ≡ max (a % 2) (b % 2) + 2 * bit_or (a / 2) (b / 2)
bit_or_step zero y = omega (arith, bit_or-bitwise 0 y, bit_or-bitwise 0 (y / 2))
bit_or_step (suc x) b = omega (
  arith,
  bit_or-bitwise (suc x) b,
  bit_or-bitwise (suc x / 2) (b / 2),
  lowest_digit (λ y. y) max (suc x) b (omega arith),
)

bit_and_step : (a b : ℕ) → bit_and a b ≡ min (a % 2) (b % 2) + 2 * bit_and (a / 2) (b / 2)
bit_and_step zero b = simp bit_and-bitwise (omega arith)
bit_and_step (suc x) b = omega (
  arith,
  bit_and-bitwise (suc x) b,
  bit_and-bitwise (suc x / 2) (b / 2),
  lowest_digit (λ y. 0) min (suc x) b (omega arith),
)

differ_mod : (x y : ℕ) → x < 2 → y < 2 → differ x y ≡ (x + y) % 2
differ_mod zero y p q = omega arith
differ_mod (suc zero) zero p q = refl
differ_mod (suc zero) (suc zero) p q = refl
differ_mod (suc zero) (suc (suc y)) p q = absurd (omega arith)
differ_mod (suc (suc x)) y p q = absurd (omega arith)

bit_xor_step : (a b : ℕ) → bit_xor a b ≡ bit_xor (a / 2) (b / 2) * 2 + (a % 2 + b % 2) % 2
bit_xor_step zero b = simp bit_xor-bitwise (omega arith)
bit_xor_step (suc a) b = simp bit_xor-bitwise (
    lowest_digit (λ y. y) differ (suc a) b (omega arith)
    ∙ ap (λ d. bitwise (λ y. y) differ (suc a / 2) (b / 2) * 2 + d) differ_bits)
  where
    differ_bits : differ (suc a % 2) (b % 2) ≡ (suc a % 2 + b % 2) % 2
    differ_bits = differ_mod (suc a % 2) (b % 2) (omega arith) (omega arith)

pub bit-lt_two : (a i : ℕ) → bit a i < 2
unfolding bit
bit-lt_two a zero = omega arith
bit-lt_two a (suc i) = bit-lt_two (a / 2) i

pub bit-bit_and : (a b i : ℕ) → bit (bit_and a b) i ≡ min (bit a i) (bit b i)
unfolding bit
bit-bit_and a b zero = omega (arith, bit_and_step a b)
bit-bit_and a b (suc i) = rw (half a b) (bit-bit_and (a / 2) (b / 2) i)
  where
    half : (a b : ℕ) → bit_and a b / 2 ≡ bit_and (a / 2) (b / 2)
    half a b = omega (arith, bit_and_step a b)

pub bit-bit_or : (a b i : ℕ) → bit (bit_or a b) i ≡ max (bit a i) (bit b i)
unfolding bit
bit-bit_or a b zero = omega (arith, bit_or_step a b)
bit-bit_or a b (suc i) = rw (half a b) (bit-bit_or (a / 2) (b / 2) i)
  where
    half : (a b : ℕ) → bit_or a b / 2 ≡ bit_or (a / 2) (b / 2)
    half a b = omega (arith, bit_or_step a b)

pub bit-bit_xor : (a b i : ℕ) → bit (bit_xor a b) i ≡ (bit a i + bit b i) % 2
unfolding bit
bit-bit_xor a b zero = omega (arith, bit_xor_step a b)
bit-bit_xor a b (suc i) = rw (half a b) (bit-bit_xor (a / 2) (b / 2) i)
  where
    half : (a b : ℕ) → bit_xor a b / 2 ≡ bit_xor (a / 2) (b / 2)
    half a b = omega (arith, bit_xor_step a b)

-- Words of `w` bits with the same bits are equal.
pub bit_ext : (w a b : ℕ) → a < 2 ^ w → b < 2 ^ w → ((i : ℕ) → i < w → bit a i ≡ bit b i) → a ≡ b
unfolding bit
bit_ext zero a b p q h = omega arith
bit_ext (suc w) a b p q h = omega (
  arith,
  h 0 (omega arith),
  bit_ext w (a / 2) (b / 2) (omega (arith, pow-suc 2 w)) (omega (arith, pow-suc 2 w))
      (λ i l. h (suc i) (omega arith)),
)

zero-bit_and : (b : ℕ) → bit_and 0 b ≡ 0
zero-bit_and b = bit_and-bitwise 0 b

bit_and-le_fuel : (n a b : ℕ) → a ≤ n → (bit_and a b ≤ a) × (bit_and a b ≤ b)
bit_and-le_fuel n zero b h = omega (arith, zero-bit_and b)
bit_and-le_fuel zero (suc a) b h = absurd (omega arith)
bit_and-le_fuel (suc n) (suc a) b h =
    omega (arith, bit_and_step (suc a) b, bit_and-le_fuel n (suc a / 2) (b / 2) (omega arith))

pub bit_and-le : (a b : ℕ) → (bit_and a b ≤ a) × (bit_and a b ≤ b)
bit_and-le a b = bit_and-le_fuel a a b (omega arith)

pub bit_or-lt : (w a b : ℕ) → a < 2 ^ w → b < 2 ^ w → bit_or a b < 2 ^ w
bit_or-lt zero a b p q =
    let a0 : a ≡ 0 = omega arith in let b0 : b ≡ 0 = omega arith in rw (a0, b0) (omega arith)
bit_or-lt (suc w) a b p q = omega (
  arith,
  pow-suc 2 w,
  bit_or_step a b,
  bit_or-lt w (a / 2) (b / 2) (omega (arith, pow-suc 2 w)) (omega (arith, pow-suc 2 w)),
)

pub bit_and-lt : (w a b : ℕ) → a < 2 ^ w → bit_and a b < 2 ^ w
bit_and-lt w a b p = omega (arith, bit_and-le a b)

pub bit_xor-lt : (w a b : ℕ) → a < 2 ^ w → b < 2 ^ w → bit_xor a b < 2 ^ w
bit_xor-lt zero a b p q =
    let a0 : a ≡ 0 = omega arith in let b0 : b ≡ 0 = omega arith in rw (a0, b0) (omega arith)
bit_xor-lt (suc w) a b p q = omega (
  arith,
  pow-suc 2 w,
  bit_xor_step a b,
  bit_xor-lt w (a / 2) (b / 2) (omega (arith, pow-suc 2 w)) (omega (arith, pow-suc 2 w)),
)

-- Every bit of the complement of a word is the other one.
pub bit-complement : (w a i : ℕ) → a < 2 ^ w → i < w → bit (2 ^ w - 1 - a) i + bit a i ≡ 1
unfolding bit
bit-complement zero a i p l = absurd (omega arith)
bit-complement (suc w) a zero p l = omega (arith, pow-suc 2 w)
bit-complement (suc w) a (suc i) p l =
    rw (half) (bit-complement w (a / 2) i (omega (arith, pow-suc 2 w)) (omega arith))
  where
    half : (2 ^ suc w - 1 - a) / 2 ≡ 2 ^ w - 1 - a / 2
    half = omega (arith, pow-suc 2 w)

bit-shl_low : (b i : ℕ) → b < 2 → bit (b * 2 ^ i) i ≡ b
unfolding bit
bit-shl_low b zero h = omega arith
bit-shl_low b (suc i) h = rw half (bit-shl_low b i h)
  where
    half : b * 2 ^ suc i / 2 ≡ b * 2 ^ i
    half = omega (arith, ap (λ (t : ℕ). b * t) (pow-suc 2 i))

pub bit_zero : (i : ℕ) → bit 0 i ≡ 0
unfolding bit
bit_zero zero = refl
bit_zero (suc i) = bit_zero i

bit-shl_ne : (b i j : ℕ) → b < 2 → i ≢ j → bit (b * 2 ^ i) j ≡ 0
unfolding bit
bit-shl_ne b zero zero h n = absurd (n refl)
bit-shl_ne b zero (suc j) h n = let e : b * 2 ^ 0 / 2 ≡ 0 = omega arith in rw e (bit_zero j)
bit-shl_ne b (suc i) zero h n = omega (arith, ap (λ (t : ℕ). b * t) (pow-suc 2 i))
bit-shl_ne b (suc i) (suc j) h n = rw half (bit-shl_ne b i j h (λ e. n (ap suc e)))
  where
    half : b * 2 ^ suc i / 2 ≡ b * 2 ^ i
    half = omega (arith, ap (λ (t : ℕ). b * t) (pow-suc 2 i))

-- A single bit, shifted to place `i`.
pub bit-shl : (b i j : ℕ) → b < 2 → bit (b * 2 ^ i) j ≡ (if i == j then b else 0)
bit-shl b i j h = elim (ℕ_discrete i j) [
  | yes e ↦ rw (← e) (ground (arith, bit-shl_low b i h))
  | no n ↦ ground (arith, bit-shl_ne b i j h n)
]

-- `(a >> i) & 1` is bit `i`.
pub bit_and-shr_one : (a i : ℕ) → bit_and (a / 2 ^ i) 1 ≡ bit a i
unfolding bit
bit_and-shr_one a zero =
    omega (arith, ap (λ (t : ℕ). bit_and t 1) (div-one a), bit_and_step a 1, bit_and-le (a / 2) 0)
bit_and-shr_one a (suc i) = rw (pow-succ', ← div-div-eq-div-mul) (bit_and-shr_one (a / 2) i)

pub shl-lt : (w b i : ℕ) → b < 2 → i < w → b * 2 ^ i < 2 ^ w
shl-lt zero b i p l = absurd (omega arith)
shl-lt (suc w) zero i p l = omega (arith, one-le-pow (suc w) 2)
shl-lt (suc w) (suc zero) i p l = omega (
  arith,
  pow-le-pow_right {n = 2} (omega arith) {i = i} {j = w} (omega arith),
  pow-suc 2 w,
  one-le-pow w 2,
)
shl-lt (suc w) (suc (suc b)) i p l = absurd (omega arith)

pub bit_and-one : (a : ℕ) → bit_and a 1 ≡ a % 2
bit_and-one a = omega (arith, bit_and_step a 1, bit_and-le (a / 2) 0)

-- `a & (1 << i)` is bit `i` in its place.
pub bit_and-shl_one : (a i : ℕ) → bit_and a (2 ^ i) ≡ bit a i * 2 ^ i
unfolding bit
bit_and-shl_one a zero = omega (arith, bit_and-one a)
bit_and-shl_one a (suc i) =
    let half : 2 ^ suc i / 2 ≡ 2 ^ i = omega (arith, pow-suc 2 i) in
    omega (
      arith,
      bit_and_step a (2 ^ suc i),
      ap (λ (t : ℕ). bit_and (a / 2) t) half,
      bit_and-shl_one (a / 2) i,
      pow-suc 2 i,
      ap (λ (t : ℕ). bit (a / 2) i * t) (pow-suc 2 i),
    )

-- A cast to `w` bits keeps the bits below.
pub bit-mod : (w a i : ℕ) → i < w → bit (a % 2 ^ w) i ≡ bit a i
unfolding bit
bit-mod zero a i h = absurd (omega arith)
bit-mod (suc w) a zero h =
    rw pow-suc (omega (arith, div-add-mod' a (2 ^ w * 2), mul_assoc (a / (2 ^ w * 2)) (2 ^ w) 2))
bit-mod (suc w) a (suc i) h = rw half (bit-mod w (a / 2) i (omega arith))
  where
    half : a % 2 ^ suc w / 2 ≡ a / 2 % 2 ^ w
    half =
        let m : ℕ = 2 ^ w in
        let q : ℕ = a / (m * 2) in
        let r : ℕ = a % (m * 2) in
        let e : q * (m * 2) + r ≡ a = div-add-mod' a (m * 2) in
        let small : r < m * 2 = mod-lt a (omega (arith, one-le-pow w 2)) in
        let split : a / 2 ≡ q * m + r / 2 = omega (arith, e, mul_assoc q m 2) in
        rw (pow-suc, split, mul-add-mod_self_right q m (r / 2)) (sym (mod-eq_of_lt (omega arith)))

bit_or-zero_fuel : (n a : ℕ) → a ≤ n → bit_or a 0 ≡ a
bit_or-zero_fuel n zero h = refl
bit_or-zero_fuel zero (suc a) h = absurd (omega arith)
bit_or-zero_fuel (suc n) (suc a) h =
    omega (arith, bit_or_step (suc a) 0, bit_or-zero_fuel n (suc a / 2) (omega arith))

pub bit_or-zero : (a : ℕ) → bit_or a 0 ≡ a
bit_or-zero a = bit_or-zero_fuel a a (omega arith)
