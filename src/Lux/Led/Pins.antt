-- ===== src/Lux/Led/Pins.antt =====
-- What one pass over the pins does, pin by pin.
use qemu_devices_and_drivers.Base.{
  ℕ, zero, suc, ◌+◌, ◌≤◌, ◌<◌, Bool, true, false, List, [], ◌∷◌, ◌++◌, ◌==◌, if◌then◌else◌, get_or,
  set, length, map, length-set, get_or-set_self, get_or-set_ne, ◌≡◌, refl, ◌∙◌, ap, arith,
  append-nil, append_assoc, ◌&&◌, Bool-cases, inl, inr,
}
use native.Mathlib.Decide.{dec_lt, ℕ_discrete}
use qemu_devices_and_drivers.Words.Bits.{bit, bit-lt_two, bit_and-shr_one}
use qemu_devices_and_drivers.Protocol.{black, LedCommand}
use qemu_devices_and_drivers.Lux.Device.{SmartLed, dark, F0}
use qemu_devices_and_drivers.Lux.Led.{drive_pin, drive_loop}

-- Pin `j` is selected for writing and is an output.
abbrev pub is_driven : ℕ → ℕ → ℕ → Bool
is_driven states direction j = bit states j == 1 && bit direction j == 1

-- The driven pins among `left` pins from `i` on, in order.
pub driven : ℕ → ℕ → ℕ → ℕ → List ℕ
driven states direction zero i = []
driven states direction (suc left) i =
    let rest = driven states direction left (i + 1) in
    if is_driven states direction i then i ∷ rest else rest

abbrev pub command_to : ℕ → ℕ → LedCommand
command_to command i = record { cmd = command; led_id = i; color = black }

-- `s'` is `s` after the pins from `lo` below `hi` that are driven were set to `level`.
pub record IsDriven (level states direction lo hi : ℕ) (f f' : F0) : Type 0 where
  pub same_direction : f'.direction ≡ f.direction
  pub same_ctrl : f'.led_ctrl ≡ f.led_ctrl
  pub same_cause : f'.led_irq_cause ≡ f.led_irq_cause
  pub same_length : length f'.leds ≡ length f.leds
  pub same_color : (j : ℕ) → (get_or f'.leds j dark).color ≡ (get_or f.leds j dark).color
  pub inside :
      (j : ℕ)
      → lo ≤ j
      → j < hi
      → (get_or f'.leds j dark).state
        ≡ (if is_driven states direction j then level else (get_or f.leds j dark).state)
  pub below : (j : ℕ) → j < lo → get_or f'.leds j dark ≡ get_or f.leds j dark
  pub above : (j : ℕ) → hi ≤ j → get_or f'.leds j dark ≡ get_or f.leds j dark

-- The LED file after pin `i` was driven.
abbrev pub drive : ℕ → ℕ → ℕ → F0 → F0
drive level command i f = record f {
  leds = set f.leds i (record (get_or f.leds i dark) { state = level });
  sent = f.sent ++ command_to command i ∷ [];
}

drive_pin_lem :
    (level command states direction i count : ℕ) (f : F0)
    → drive_pin level command states direction i (f, count)
      ≡ (if is_driven states direction i then (drive level command i f, count + 1) else (f, count))
unfolding drive_pin
drive_pin_lem level command states direction i count f =
    rw (bit_and-shr_one states i, bit_and-shr_one direction i) (ground (arith, bit-lt_two states i))

module _ (level command states direction i : ℕ) (f : F0) (h : i < length f.leds) where
  IsDriven-drive :
      is_driven states direction i ≡ true
      → IsDriven level states direction i (i + 1) f (drive level command i f)
  IsDriven-drive d = record {
    same_direction = refl;
    same_ctrl = refl;
    same_cause = refl;
    same_length = length-set f.leds i _;
    same_color = λ j. elim (ℕ_discrete i j) [
      | yes e ↦ rw (← e) (ap (λ (s : SmartLed). s.color) (get_or-set_self f.leds i _ dark h))
      | no n ↦ ap (λ (s : SmartLed). s.color) (get_or-set_ne f.leds i j _ dark n)
    ];
    inside = λ j p q. let e : j ≡ i = omega arith in rw (e, get_or-set_self f.leds i _ dark h, d);
    below = λ j p. get_or-set_ne f.leds i j _ dark (omega arith);
    above = λ j p. get_or-set_ne f.leds i j _ dark (omega arith);
  }

  IsDriven-skip :
      is_driven states direction i ≡ false → IsDriven level states direction i (i + 1) f f
  IsDriven-skip d = record {
    same_direction = refl;
    same_ctrl = refl;
    same_cause = refl;
    same_length = refl;
    same_color = λ j. refl;
    inside = λ j p q. let e : j ≡ i = omega arith in rw (e, d);
    below = λ j p. refl;
    above = λ j p. refl;
  }

IsDriven-trans :
    {level states direction lo mid hi : ℕ} {f g k : F0}
    → lo ≤ mid
    → mid ≤ hi
    → IsDriven level states direction lo mid f g
    → IsDriven level states direction mid hi g k
    → IsDriven level states direction lo hi f k
IsDriven-trans {level} {states} {direction} {lo} {mid} {hi} {f} {g} {k} p q a b = record {
  same_direction = b.same_direction ∙ a.same_direction;
  same_ctrl = b.same_ctrl ∙ a.same_ctrl;
  same_cause = b.same_cause ∙ a.same_cause;
  same_length = b.same_length ∙ a.same_length;
  same_color = λ j. b.same_color j ∙ a.same_color j;
  inside = λ j u v. elim (dec_lt j mid) [
    | yes l ↦ ap (λ (s : SmartLed). s.state) (b.below j l) ∙ a.inside j u l
    | no n ↦ rw (← a.above j (omega arith)) (b.inside j (omega arith) v)
  ];
  below = λ j u. b.below j (omega arith) ∙ a.below j u;
  above = λ j u. b.above j u ∙ a.above j (omega arith);
}

module _ (level command states direction left i count : ℕ) (f : F0) where
  drive_loop-driven :
      is_driven states direction i ≡ true
      → drive_loop level command states direction (suc left) i (f, count)
        ≡ drive_loop level command states direction left
            (i + 1)
            (drive level command i f, count + 1)
  unfolding drive_loop
  drive_loop-driven d =
      ap (drive_loop level command states direction left (i + 1))
        (drive_pin_lem level command states direction i count f ∙ rw d)

  drive_loop-skip :
      is_driven states direction i ≡ false
      → drive_loop level command states direction (suc left) i (f, count)
        ≡ drive_loop level command states direction left (i + 1) (f, count)
  unfolding drive_loop
  drive_loop-skip d =
      ap (drive_loop level command states direction left (i + 1))
        (drive_pin_lem level command states direction i count f ∙ rw d)

-- One pass over `left` pins from `i` on.
pub drive_loop-IsDriven :
    (level command states direction left i count : ℕ) (f : F0)
    → i + left ≤ length f.leds
    → IsDriven level states direction i
        (i + left)
        f
        (drive_loop level command states direction left i (f, count)).0
unfolding drive_loop
drive_loop-IsDriven level command states direction zero i count f h = record {
  same_direction = refl;
  same_ctrl = refl;
  same_cause = refl;
  same_length = refl;
  same_color = λ j. refl;
  inside = λ j p q. absurd (omega arith);
  below = λ j p. refl;
  above = λ j p. refl;
}
drive_loop-IsDriven level command states direction (suc left) i count f h =
    let e : i + suc left ≡ i + 1 + left = omega arith in
    rw e (elim (Bool-cases (is_driven states direction i)) [
      | inl d ↦ rw (drive_loop-driven level command states direction left i count f d) (
          IsDriven-trans (omega arith) (omega arith)
            (IsDriven-drive level command states direction i f (omega arith) d)
            (drive_loop-IsDriven level command states direction left (i + 1) (count + 1)
              (drive level command i f) (rw length-set (omega arith))))
      | inr d ↦ rw (drive_loop-skip level command states direction left i count f d) (
          IsDriven-trans (omega arith) (omega arith)
            (IsDriven-skip level command states direction i f (omega arith) d)
            (drive_loop-IsDriven level command states direction left (i + 1) count f (omega arith)))
    ])

-- One pass sends one command for each driven pin, in order, and counts them.
pub drive_loop-sent :
    (level command states direction left i count : ℕ) (f : F0)
    → let (f', n) = drive_loop level command states direction left i (f, count) in
      let pins = driven states direction left i in
      (f'.sent ≡ f.sent ++ map (command_to command) pins) × (n ≡ count + length pins)
unfolding drive_loop driven
drive_loop-sent level command states direction zero i count f = (rw append-nil, omega arith)
drive_loop-sent level command states direction (suc left) i count f =
    elim (Bool-cases (is_driven states direction i)) [
      | inl d ↦
          rw (drive_loop-driven level command states direction left i count f d, d)
            (let ih =
                drive_loop-sent level command states direction left (i + 1) (count + 1)
                  (drive level command i f) in
              (
                ih.0
                    ∙ append_assoc f.sent (command_to command i ∷ [])
                        (map (command_to command) (driven states direction left (i + 1))),
                omega (arith, ih.1),
              ))
      | inr d ↦
          rw (drive_loop-skip level command states direction left i count f d, d)
            (drive_loop-sent level command states direction left (i + 1) count f)
    ]
