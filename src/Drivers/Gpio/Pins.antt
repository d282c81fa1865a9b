-- ===== src/Drivers/Gpio/Pins.antt =====
-- What the driver's operations do to the pins, seen through its own operations.
use qemu_devices_and_drivers.Base.{
  ℕ, ◌^◌, ◌<◌, bit_and, bit_or, ◌==◌, if◌then◌else◌, ◌&&◌, ◌≡◌, refl, sym, ap, ◌∙◌, arith,
  Bool-cases, inl, inr, Bool,
}
use qemu_devices_and_drivers.Words.{u64, not64, ◌<<<◌}
use qemu_devices_and_drivers.Words.Bits.{
  bit, bit-bit_and, bit-bit_or, bit-lt_two, bit-mod, bit-shl, bit_and-shr_one, bit_and-le,
}
use qemu_devices_and_drivers.Words.Masks.{bit-not64}
use qemu_devices_and_drivers.Lux.Device.{
  F0, IsValid, reg_direction, reg_data, reg_set, reg_clr, direction_out,
}
use qemu_devices_and_drivers.Lux.Led.{device_get_led_states}
use qemu_devices_and_drivers.Lux.Bar0.{
  f0_bar0_access, f0_bar0_read, f0_bar0_write, write_set, write_clr, write_direction,
}
use qemu_devices_and_drivers.Lux.Bar0.Data.{
  get-write_set, get-write_clr, write_set-IsRestKept, write_clr-IsRestKept, write_set-IsValid,
}
use qemu_devices_and_drivers.Drivers.Gpio.{
  readq, writeq, lux_gpio_set, lux_gpio_direction_output, lux_gpio_direction_input,
  lux_gpio_get_direction, lux_gpio_get, lux_gpio_set_multiple, gpio_line_direction_out,
  gpio_line_direction_in,
}

readq_data : (f : F0) → readq f reg_data ≡ device_get_led_states f
unfolding readq f0_bar0_access f0_bar0_read
readq_data f = refl

readq_direction : (f : F0) → readq f reg_direction ≡ f.direction
unfolding readq f0_bar0_access f0_bar0_read
readq_direction f = refl

writeq_set : (f : F0) (v : ℕ) → writeq f v reg_set ≡ write_set f v
unfolding writeq f0_bar0_access f0_bar0_write
writeq_set f v = refl

writeq_clr : (f : F0) (v : ℕ) → writeq f v reg_clr ≡ write_clr f v
unfolding writeq f0_bar0_access f0_bar0_write
writeq_clr f v = refl

writeq_direction : (f : F0) (v : ℕ) → writeq f v reg_direction ≡ record f { direction = u64 v }
unfolding writeq f0_bar0_access f0_bar0_write write_direction
writeq_direction f v = refl

-- Bit `k` of the mask of pin `n`.
bit-pin_mask : (n k : ℕ) → k < 64 → bit (u64 (1 <<< n)) k ≡ (if n == k then 1 else 0)
bit-pin_mask n k l = bit-mod 64 (1 <<< n) k l ∙ bit-shl 1 n k (omega arith)

lux_gpio_get_lem : (f : F0) (k : ℕ) → lux_gpio_get f k ≡ bit (device_get_led_states f) k
unfolding lux_gpio_get
lux_gpio_get_lem f k = rw (readq_data f) (bit_and-shr_one (device_get_led_states f) k)

-- The kernel's direction for a bit of the direction register.
abbrev line_direction : ℕ → ℕ
line_direction b = if b == direction_out then gpio_line_direction_out else gpio_line_direction_in

lux_gpio_get_direction_lem :
    (f : F0) (k : ℕ) → lux_gpio_get_direction f k ≡ line_direction (bit f.direction k)
unfolding lux_gpio_get_direction
lux_gpio_get_direction_lem f k =
    rw (readq_direction f) (ap line_direction (bit_and-shr_one f.direction k))

-- Pin `k` is an output.
abbrev pub is_output : F0 → ℕ → Bool
is_output f k = bit f.direction k == 1

module _ (f : F0) (v k : ℕ) (h : IsValid f) (l : k < 64) where
  get-set :
      lux_gpio_get (writeq f v reg_set) k
      ≡ (if bit v k == 1 && is_output f k then 1 else lux_gpio_get f k)
  get-set =
      rw
        (
          writeq_set f v,
          lux_gpio_get_lem (write_set f v) k,
          lux_gpio_get_lem f k,
          get-write_set f v h,
        )
        (bit-bit_or (device_get_led_states f) (bit_and (u64 v) f.direction) k
          ∙ ground (
            arith,
            bit-bit_and (u64 v) f.direction k,
            bit-mod 64 v k l,
            bit-lt_two v k,
            bit-lt_two f.direction k,
            bit-lt_two (device_get_led_states f) k,
          ))

  get-clr :
      lux_gpio_get (writeq f v reg_clr) k
      ≡ (if bit v k == 1 && is_output f k then 0 else lux_gpio_get f k)
  get-clr =
      rw
        (
          writeq_clr f v,
          lux_gpio_get_lem (write_clr f v) k,
          lux_gpio_get_lem f k,
          get-write_clr f v h,
        )
        (bit-bit_and (device_get_led_states f) (not64 (bit_and (u64 v) f.direction)) k
          ∙ ground (
            arith,
            bit-not64 (bit_and (u64 v) f.direction) k
                (omega (arith, bit_and-le (u64 v) f.direction)) l,
            bit-bit_and (u64 v) f.direction k,
            bit-mod 64 v k l,
            bit-lt_two v k,
            bit-lt_two f.direction k,
            bit-lt_two (device_get_led_states f) k,
          ))

  set-direction : (writeq f v reg_set).direction ≡ f.direction
  set-direction = rw (writeq_set f v) (write_set-IsRestKept f v h).direction_kept

  clr-direction : (writeq f v reg_clr).direction ≡ f.direction
  clr-direction = rw (writeq_clr f v) (write_clr-IsRestKept f v h).direction_kept

  set-IsValid : IsValid (writeq f v reg_set)
  set-IsValid = rw (writeq_set f v) (write_set-IsValid f v h)

-- The driver's `set` gives an output pin its value, and changes neither the other pins, nor an
-- input pin, nor a direction.
lux_gpio_get-lux_gpio_set :
    (f : F0) (n value k : ℕ)
    → IsValid f
    → k < 64
    → let f' = lux_gpio_set f n value in
      (lux_gpio_get f' k
        ≡ (if n == k && is_output f k then (if value == 0 then 0 else 1) else lux_gpio_get f k))
      × (f'.direction ≡ f.direction)
unfolding lux_gpio_set
lux_gpio_get-lux_gpio_set f n value k h l = elim (Bool-cases (value == 0)) [
  | inl e ↦ rw e (get-clr f mask k h l ∙ pick 0, clr-direction f mask k h l)
  | inr e ↦ rw e (get-set f mask k h l ∙ pick 1, set-direction f mask k h l)
]
  where
    mask : ℕ
    mask = u64 (1 <<< n)

    pick :
        (v : ℕ)
        → (if bit mask k == 1 && is_output f k then v else lux_gpio_get f k)
          ≡ (if n == k && is_output f k then v else lux_gpio_get f k)
    pick v = rw (bit-pin_mask n k l) (ground arith)

-- Function 0 with another direction register.
abbrev redirected : F0 → ℕ → F0
redirected f d = record f { direction = u64 d }

redirected-IsValid : (f : F0) (d : ℕ) → IsValid f → IsValid (redirected f d)
redirected-IsValid f d h = record {
  leds_count = h.leds_count;
  direction_fits = omega arith;
  led_ctrl_fits = h.led_ctrl_fits;
  led_irq_cause_fits = h.led_irq_cause_fits;
  state_fits = h.state_fits;
}

get-redirected : (f : F0) (d k : ℕ) → lux_gpio_get (redirected f d) k ≡ lux_gpio_get f k
unfolding device_get_led_states
get-redirected f d k = lux_gpio_get_lem (redirected f d) k ∙ same ∙ sym (lux_gpio_get_lem f k)
  where
    same : bit (device_get_led_states (redirected f d)) k ≡ bit (device_get_led_states f) k
    same = refl

-- The bits of the direction register with pin `n` added, and with it removed.
bit-direction :
    (d n k : ℕ)
    → k < 64
    → (bit (u64 (bit_or (u64 (1 <<< n)) d)) k ≡ (if n == k then 1 else bit d k))
      × (bit (u64 (bit_and (not64 (u64 (1 <<< n))) d)) k ≡ (if n == k then 0 else bit d k))
bit-direction d n k l = (
  bit-mod 64 (bit_or (u64 (1 <<< n)) d) k l
      ∙ bit-bit_or (u64 (1 <<< n)) d k
      ∙ rw (bit-pin_mask n k l) (ground (arith, bit-lt_two d k)),
  bit-mod 64 (bit_and (not64 (u64 (1 <<< n))) d) k l
      ∙ bit-bit_and (not64 (u64 (1 <<< n))) d k
      ∙ rw (bit-not64 (u64 (1 <<< n)) k (omega arith) l, bit-pin_mask n k l)
          (ground (arith, bit-lt_two d k)),
)

direction_output_eq :
    (f : F0) (n value : ℕ)
    → lux_gpio_direction_output f n value
      ≡ lux_gpio_set (redirected f (bit_or (u64 (1 <<< n)) f.direction)) n value
unfolding lux_gpio_direction_output lux_gpio_set
direction_output_eq f n value =
    rw (readq_direction f, writeq_direction f (bit_or (u64 (1 <<< n)) f.direction)) refl

-- After `direction_output` the pin is an output with the value given, and every other pin keeps its
-- direction and its level.
pub lux_gpio_get-lux_gpio_direction_output :
    (f : F0) (n value k : ℕ)
    → IsValid f
    → k < 64
    → let f' = lux_gpio_direction_output f n value in
      (lux_gpio_get f' k ≡ (if n == k then (if value == 0 then 0 else 1) else lux_gpio_get f k))
      × (lux_gpio_get_direction f' k
          ≡ (if n == k then gpio_line_direction_out else lux_gpio_get_direction f k))
lux_gpio_get-lux_gpio_direction_output f n value k h l =
    let d = bit_or (u64 (1 <<< n)) f.direction in
    let r = lux_gpio_get-lux_gpio_set (redirected f d) n value k (redirected-IsValid f d h) l in
    rw (direction_output_eq f n value) (
      r.0 ∙ ground (arith, (bit-direction f.direction n k l).0, get-redirected f d k),
      lux_gpio_get_direction_lem _ k
          ∙ ap (λ x. line_direction (bit x k)) r.1
          ∙ ground (arith, (bit-direction f.direction n k l).0, lux_gpio_get_direction_lem f k),
    )

-- After `direction_input` the pin is an input, every other pin keeps its direction, and every pin,
-- this one included, keeps its level.
lux_gpio_get-lux_gpio_direction_input :
    (f : F0) (n k : ℕ)
    → k < 64
    → let f' = lux_gpio_direction_input f n in
      (lux_gpio_get f' k ≡ lux_gpio_get f k)
      × (lux_gpio_get_direction f' k
          ≡ (if n == k then gpio_line_direction_in else lux_gpio_get_direction f k))
unfolding lux_gpio_direction_input
lux_gpio_get-lux_gpio_direction_input f n k l =
    let d = bit_and (not64 (u64 (1 <<< n))) f.direction in
    rw (readq_direction f, writeq_direction f d)
      (
        get-redirected f d k,
        lux_gpio_get_direction_lem (redirected f d) k
            ∙ ground (arith, (bit-direction f.direction n k l).1, lux_gpio_get_direction_lem f k),
      )

-- `set_multiple` gives every masked output pin its bit, and changes neither another pin nor an
-- input pin.
lux_gpio_get-lux_gpio_set_multiple :
    (f : F0) (mask bits k : ℕ)
    → IsValid f
    → bits < 2 ^ 64
    → k < 64
    → lux_gpio_get (lux_gpio_set_multiple f mask bits) k
      ≡ (if bit mask k == 1 && is_output f k then bit bits k else lux_gpio_get f k)
unfolding lux_gpio_set_multiple
lux_gpio_get-lux_gpio_set_multiple f mask bits k h b l =
    let f' = writeq f (bit_and mask bits) reg_set in
    get-clr f' (bit_and mask (not64 bits)) k (set-IsValid f (bit_and mask bits) k h l) l
    ∙ ground (
      arith,
      get-set f (bit_and mask bits) k h l,
      ap (λ d. bit d k) (set-direction f (bit_and mask bits) k h l),
      bit-bit_and mask bits k,
      bit-bit_and mask (not64 bits) k,
      bit-not64 bits k b l,
      bit-lt_two mask k,
      bit-lt_two bits k,
    )
