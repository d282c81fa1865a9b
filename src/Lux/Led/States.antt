-- ===== src/Lux/Led/States.antt =====
-- `device_get_led_states` reads bit 0 of every LED, and what `device_set_led_states` and
-- `device_clr_led_states` make of that word.
use native.Mathlib.Decide.{dec_lt, ℕ_discrete}
use qemu_devices_and_drivers.Base.{
  ℕ, zero, suc, ◌+◌, ◌*◌, ◌^◌, ◌≤◌, ◌<◌, max, min, bit_and, bit_or, List, ◌==◌, if◌then◌else◌,
  get_or, length, ◌≡◌, ◌∙◌, ap, arith, ◌&&◌, map, ◌++◌, not, ◌||◌, ltb, Bool-cases, inl, inr,
}
use qemu_devices_and_drivers.Words.{not64}
use qemu_devices_and_drivers.Words.Bits.{
  bit, bit_zero, bit-lt_two, bit_and-shr_one, bit-bit_or, bit-bit_and, bit-shl, bit_or-lt,
  bit_and-lt, bit_ext, bit-complement, shl-lt, bit_and-le,
}
use qemu_devices_and_drivers.Protocol.{cmd_on, cmd_off}
use qemu_devices_and_drivers.Lux.Device.{SmartLed, dark, F0, IsValid, led_nr}
use qemu_devices_and_drivers.Lux.Led.{
  get_loop, device_get_led_states, device_set_led_states, device_clr_led_states, drive_loop,
}
use qemu_devices_and_drivers.Lux.Led.Pins.{
  IsDriven, is_driven, driven, command_to, drive_loop-IsDriven, drive_loop-sent,
}

-- The level of pin `j`: bit 0 of its state register.
abbrev pub pin : F0 → ℕ → ℕ
pin f j = bit (get_or f.leds j dark).state 0

bit_and_one : (a : ℕ) → bit_and a 1 ≡ bit a 0
bit_and_one a = ap (λ (t : ℕ). bit_and t 1) (omega arith) ∙ bit_and-shr_one a 0

bit-get_loop :
    (leds : List SmartLed) (left i states j : ℕ)
    → bit (get_loop leds left i states) j ≡ (
        if ltb j i || not (ltb j (i + left))
        then bit states j
        else max (bit states j) (bit (get_or leds j dark).state 0))
unfolding get_loop
bit-get_loop leds zero i states j = ground arith
bit-get_loop leds (suc left) i states j =
    let state : ℕ = bit_and (get_or leds i dark).state 1 in
    let next : ℕ = bit_or states (state * 2 ^ i) in
    elim (ℕ_discrete i j) [
      | yes e ↦ ground (
        arith,
        bit-get_loop leds left (i + 1) next j,
        bit-bit_or states (state * 2 ^ i) j,
        bit-shl state i j,
        bit_and_one (get_or leds i dark).state,
        bit-lt_two (get_or leds i dark).state 0,
        ap (λ (k : ℕ). bit (get_or leds k dark).state 0) e,
      )
      | no n ↦ ground (
        arith,
        bit-get_loop leds left (i + 1) next j,
        bit-bit_or states (state * 2 ^ i) j,
        bit-shl state i j,
        bit_and_one (get_or leds i dark).state,
        bit-lt_two (get_or leds i dark).state 0,
      )
    ]

pub bit-device_get_led_states :
    (f : F0) (j : ℕ) → j < led_nr → bit (device_get_led_states f) j ≡ pin f j
unfolding device_get_led_states
bit-device_get_led_states f j h = ground (arith, bit-get_loop f.leds led_nr 0 0 j, bit_zero j)

get_loop-lt :
    (leds : List SmartLed) (left i states : ℕ)
    → i + left ≤ 64
    → states < 2 ^ 64
    → get_loop leds left i states < 2 ^ 64
unfolding get_loop
get_loop-lt leds zero i states h s = s
get_loop-lt leds (suc left) i states h s = get_loop-lt leds left (i + 1) _ (omega arith) (
    bit_or-lt 64 _ _ s (
      shl-lt 64 _ i
        (omega
          (arith, bit_and_one (get_or leds i dark).state, bit-lt_two (get_or leds i dark).state 0))
        (omega arith)))

pub device_get_led_states-lt : (f : F0) → device_get_led_states f < 2 ^ 64
unfolding device_get_led_states
device_get_led_states-lt f = get_loop-lt f.leds led_nr 0 0 (omega arith) (omega arith)

-- The level of each pin after one pass of `drive_loop` over all pins.
pin-drive_loop :
    (level command states : ℕ) (f : F0) (j : ℕ)
    → length f.leds ≡ led_nr
    → j < led_nr
    → pin (drive_loop level command states f.direction led_nr 0 (f, 0)).0 j
      ≡ (if is_driven states f.direction j then bit level 0 else pin f j)
pin-drive_loop level command states f j size h =
    ap (λ (s : ℕ). bit s 0)
      ((drive_loop-IsDriven level command states f.direction led_nr 0 0 f (omega arith)).inside j
        (omega arith) h)
    ∙ elim (Bool-cases (is_driven states f.direction j)) [ inl d ↦ rw d | inr d ↦ rw d ]

bit_one : bit 1 0 ≡ 1
bit_one = bit-shl 1 0 0 (omega arith)

set_bit :
    (s d p : ℕ) → s < 2 → d < 2 → p < 2 → (if s == 1 && d == 1 then 1 else p) ≡ max p (min s d)
set_bit s d p hs hd hp = ground arith

clr_bit :
    (s d p c : ℕ)
    → s < 2
    → d < 2
    → p < 2
    → c + min s d ≡ 1
    → (if s == 1 && d == 1 then 0 else p) ≡ min p c
clr_bit s d p c hs hd hp h = ground arith

bit_and-lt_right : (f : F0) (states : ℕ) → IsValid f → bit_and states f.direction < 2 ^ 64
bit_and-lt_right f states v = omega (arith, bit_and-le states f.direction, v.direction_fits)

-- Setting turns on exactly the selected output pins.
pub get-device_set_led_states :
    (f : F0) (states : ℕ)
    → IsValid f
    → device_get_led_states (device_set_led_states f states).0
      ≡ bit_or (device_get_led_states f) (bit_and states f.direction)
unfolding device_set_led_states
get-device_set_led_states f states v =
    bit_ext 64 _ _ (device_get_led_states-lt _)
      (bit_or-lt 64 _ _ (device_get_led_states-lt f) (bit_and-lt_right f states v))
      λ j h.
        (bit-device_get_led_states _ j h ∙ pin-drive_loop 1 cmd_on states f j v.leds_count h)
        ∙ rw
            (
              bit-bit_or (device_get_led_states f) (bit_and states f.direction) j,
              bit-bit_and states f.direction j,
              bit-device_get_led_states f j h,
              bit_one,
            )
            (set_bit _ _ _ (bit-lt_two states j) (bit-lt_two f.direction j)
              (bit-lt_two (get_or f.leds j dark).state 0))

-- Clearing turns off exactly the selected output pins.
pub get-device_clr_led_states :
    (f : F0) (states : ℕ)
    → IsValid f
    → device_get_led_states (device_clr_led_states f states).0
      ≡ bit_and (device_get_led_states f) (not64 (bit_and states f.direction))
unfolding device_clr_led_states
get-device_clr_led_states f states v =
    bit_ext 64 _ _ (device_get_led_states-lt _) (bit_and-lt 64 _ _ (device_get_led_states-lt f))
      λ j h.
        (bit-device_get_led_states _ j h ∙ pin-drive_loop 0 cmd_off states f j v.leds_count h)
        ∙ rw
            (
              bit-bit_and (device_get_led_states f) (not64 (bit_and states f.direction)) j,
              bit-device_get_led_states f j h,
              bit_zero 0,
            )
            (clr_bit _ _ _ _ (bit-lt_two states j) (bit-lt_two f.direction j)
              (bit-lt_two (get_or f.leds j dark).state 0)
              (rw (← bit-bit_and states f.direction j)
                (bit-complement 64 (bit_and states f.direction) j (bit_and-lt_right f states v) h)))

drive_loop-IsValid :
    (level command states : ℕ) (f : F0)
    → level < 2
    → IsValid f
    → IsValid (drive_loop level command states f.direction led_nr 0 (f, 0)).0
drive_loop-IsValid level command states f h v =
    let d = drive_loop-IsDriven level command states f.direction led_nr 0 0 f (omega (arith, v)) in
    record {
      leds_count = d.same_length ∙ v.leds_count;
      direction_fits = rw d.same_direction v.direction_fits;
      led_ctrl_fits = rw d.same_ctrl v.led_ctrl_fits;
      led_irq_cause_fits = rw d.same_cause v.led_irq_cause_fits;
      state_fits = λ j. elim (dec_lt j led_nr) [
        | yes l ↦
            rw (d.inside j (omega arith) l) (elim (Bool-cases (is_driven states f.direction j)) [
              | inl e ↦ rw e (omega arith)
              | inr e ↦ rw e (v.state_fits j)
            ])
        | no n ↦ rw (d.above j (omega arith)) (v.state_fits j)
      ];
    }

pub device_set_led_states-IsValid :
    (f : F0) (states : ℕ) → IsValid f → IsValid (device_set_led_states f states).0
unfolding device_set_led_states
device_set_led_states-IsValid f states v = drive_loop-IsValid 1 cmd_on states f (omega arith) v

pub device_clr_led_states-IsValid :
    (f : F0) (states : ℕ) → IsValid f → IsValid (device_clr_led_states f states).0
unfolding device_clr_led_states
device_clr_led_states-IsValid f states v = drive_loop-IsValid 0 cmd_off states f (omega arith) v

-- Driving pins leaves the other registers and every colour alone.
pub record IsRestKept (f f' : F0) : Type 0 where
  pub direction_kept : f'.direction ≡ f.direction
  pub led_ctrl_kept : f'.led_ctrl ≡ f.led_ctrl
  pub led_irq_cause_kept : f'.led_irq_cause ≡ f.led_irq_cause
  pub color_kept : (j : ℕ) → (get_or f'.leds j dark).color ≡ (get_or f.leds j dark).color

pub IsRestKept-trans : {f g k : F0} → IsRestKept f g → IsRestKept g k → IsRestKept f k
IsRestKept-trans a b = record {
  direction_kept = b.direction_kept ∙ a.direction_kept;
  led_ctrl_kept = b.led_ctrl_kept ∙ a.led_ctrl_kept;
  led_irq_cause_kept = b.led_irq_cause_kept ∙ a.led_irq_cause_kept;
  color_kept = λ j. b.color_kept j ∙ a.color_kept j;
}

drive_loop-IsRestKept :
    (level command states : ℕ) (f : F0)
    → IsValid f
    → IsRestKept f (drive_loop level command states f.direction led_nr 0 (f, 0)).0
drive_loop-IsRestKept level command states f v =
    let d = drive_loop-IsDriven level command states f.direction led_nr 0 0 f (omega (arith, v)) in
    record {
      direction_kept = d.same_direction;
      led_ctrl_kept = d.same_ctrl;
      led_irq_cause_kept = d.same_cause;
      color_kept = d.same_color;
    }

pub device_set_led_states-IsRestKept :
    (f : F0) (states : ℕ) → IsValid f → IsRestKept f (device_set_led_states f states).0
unfolding device_set_led_states
device_set_led_states-IsRestKept f states v = drive_loop-IsRestKept 1 cmd_on states f v

pub device_clr_led_states-IsRestKept :
    (f : F0) (states : ℕ) → IsValid f → IsRestKept f (device_clr_led_states f states).0
unfolding device_clr_led_states
device_clr_led_states-IsRestKept f states v = drive_loop-IsRestKept 0 cmd_off states f v

-- The pins that are selected and are outputs, in order.
abbrev pub driven_pins : ℕ → ℕ → List ℕ
driven_pins states direction = driven states direction led_nr 0

-- One `CMD_ON` is passed to the LED socket for each selected output pin, in the order of the pins,
-- and the result is their number.
device_set_led_states-sent :
    (f : F0) (states : ℕ)
    → let (f', count) = device_set_led_states f states in
      let pins = driven_pins states f.direction in
      (f'.sent ≡ f.sent ++ map (command_to cmd_on) pins) × (count ≡ length pins)
unfolding device_set_led_states
device_set_led_states-sent f states =
    let s = drive_loop-sent 1 cmd_on states f.direction led_nr 0 0 f in (s.0, omega (arith, s.1))

-- One `CMD_OFF` is passed to the LED socket for each selected output pin, in the order of the pins,
-- and the result is their number.
pub device_clr_led_states-sent :
    (f : F0) (states : ℕ)
    → let (f', count) = device_clr_led_states f states in
      let pins = driven_pins states f.direction in
      (f'.sent ≡ f.sent ++ map (command_to cmd_off) pins) × (count ≡ length pins)
unfolding device_clr_led_states
device_clr_led_states-sent f states =
    let s = drive_loop-sent 0 cmd_off states f.direction led_nr 0 0 f in (s.0, omega (arith, s.1))

pub device_set_led_states-IsDriven :
    (f : F0) (states : ℕ)
    → IsValid f
    → IsDriven 1 states f.direction 0 led_nr f (device_set_led_states f states).0
unfolding device_set_led_states
device_set_led_states-IsDriven f states v =
    drive_loop-IsDriven 1 cmd_on states f.direction led_nr 0 0 f (omega (arith, v))

pub device_clr_led_states-IsDriven :
    (f : F0) (states : ℕ)
    → IsValid f
    → IsDriven 0 states f.direction 0 led_nr f (device_clr_led_states f states).0
unfolding device_clr_led_states
device_clr_led_states-IsDriven f states v =
    drive_loop-IsDriven 0 cmd_off states f.direction led_nr 0 0 f (omega (arith, v))
