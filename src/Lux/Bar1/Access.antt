-- ===== src/Lux/Bar1/Access.antt =====
-- What the smart LED registers of function 0 do, at whole LEDs and at their halves.
use native.Mathlib.Decide.{dec_lt, ℕ_discrete}
use qemu_devices_and_drivers.Base.{
  ℕ, ◌+◌, ◌*◌, ◌/◌, ◌%◌, ◌^◌, ◌≤◌, ◌<◌, ◌≡◌, ◌≢◌, ◌↔◌, refl, ◌∙◌, ap, arith, Bool, true, false,
  List, [], ◌∷◌, ◌++◌, ◌==◌, if◌then◌else◌, get_or, set, get_or-set_self, get_or-set_ne, Bool-cases,
  inl, inr, ◌⊎◌, lt→ltb, ==_iff, ==_ne, bit_and, some, done, fault,
}
use qemu_devices_and_drivers.Words.{◌<<<◌}
use qemu_devices_and_drivers.Words.Bits.{bit, bit_and-one, bit-shl}
use qemu_devices_and_drivers.Lux.Led.{device_set_led_states, device_clr_led_states}
use qemu_devices_and_drivers.Lux.Led.Pins.{IsDriven}
use qemu_devices_and_drivers.Lux.Led.States.{
  device_set_led_states-IsDriven, device_clr_led_states-IsDriven,
}
use qemu_devices_and_drivers.Protocol.{cmd_set_color, LedCommand, color_word, word_color}
use qemu_devices_and_drivers.Lux.Device.{
  SmartLed, dark, smart_led_word, word_smart_led, F0, IsValid, led_nr,
}
use qemu_devices_and_drivers.Lux.Bar1.{
  f0_bar1_access, f0_bar1_read, f0_bar1_write, f0_bar1_write_smart_led,
  f0_bar1_write_smart_led_component, write_led_state, write_led_color, device_set_led_color,
}

-- A smart LED has the same 64-bit image as the struct that is unpacked from it.
smart_led_word-word_smart_led : (w : ℕ) → w < 2 ^ 64 → smart_led_word (word_smart_led w) ≡ w
unfolding smart_led_word word_smart_led color_word word_color
smart_led_word-word_smart_led w h = omega arith

-- An 8-byte access to function 0's BAR 1, a read or a write, runs out of the LED array exactly when
-- its offset is 512 or more, although the region has 4096 bytes. A 4-byte read does so at the
-- multiples of 4 from 512 on, and elsewhere from 520 on, where already the pointer to the LED leaves
-- the array by more than one LED.
pub f0_bar1_access_fault_iff :
    (write_ok : List LedCommand → Bool) (f : F0) (buf offset : ℕ) (is_write : Bool)
    → ((f0_bar1_access write_ok f buf 8 offset is_write ≡ fault) ↔ (512 ≤ offset))
      × ((f0_bar1_read f buf 4 offset ≡ fault)
          ↔ (((512 ≤ offset) × (offset % 4 ≡ 0)) ⊎ (520 ≤ offset)))
unfolding f0_bar1_access f0_bar1_read f0_bar1_write f0_bar1_write_smart_led write_led_state
    write_led_color device_set_led_color
f0_bar1_access_fault_iff write_ok f buf offset true = (ground arith, ground arith)
f0_bar1_access_fault_iff write_ok f buf offset false = (ground arith, ground arith)

-- A 4-byte access at the colour of an LED, at offset `8 * i + 4`, is an access to its state at
-- `8 * i`: no 4-byte access reads or writes a colour.
f0_bar1_component_eq :
    (write_ok : List LedCommand → Bool) (f : F0) (buf i : ℕ)
    → (f0_bar1_read f buf 4 (8 * i + 4) ≡ f0_bar1_read f buf 4 (8 * i))
      × (f0_bar1_write write_ok f buf 4 (8 * i + 4) ≡ f0_bar1_write write_ok f buf 4 (8 * i))
unfolding f0_bar1_read f0_bar1_write f0_bar1_write_smart_led_component
f0_bar1_component_eq write_ok f buf i =
    let a : (8 * i + 4) / 8 ≡ 8 * i / 8 = omega arith in
    let b : (8 * i + 4) % 4 ≡ 8 * i % 4 = omega arith in (rw (a, b), rw (a, b))

module _ (f : F0) (i s : ℕ) (v : IsValid f) (h : i < led_nr) where
  -- Writing a state drives that LED alone, if its pin is an output.
  write_led_state_lem :
      (f' : F0) × (write_led_state f i s ≡ done (f', true))
      × IsDriven (s % 2) (1 <<< i) f.direction 0 led_nr f f'
  unfolding write_led_state
  write_led_state_lem = elim (Bool-cases (bit_and s 1 == 1)) [
    | inl on ↦ (
      (device_set_led_states f (1 <<< i)).0,
      rw (lt→ltb i led_nr h, on),
      let e : s % 2 ≡ 1 = omega (arith, bit_and-one s, (==_iff (bit_and s 1) 1).0 on) in
          rw e (device_set_led_states-IsDriven f (1 <<< i) v),
    )
    | inr off ↦ (
      (device_clr_led_states f (1 <<< i)).0,
      rw (lt→ltb i led_nr h, off),
      let e : s % 2 ≡ 0 = ground (arith, bit_and-one s) in
          rw e (device_clr_led_states-IsDriven f (1 <<< i) v),
    )
  ]

-- The value of LED `i` after a whole LED was written: the colour always, and the lowest bit of the
-- state if the pin is an output.
abbrev pub written_led : F0 → ℕ → ℕ → SmartLed
written_led f i w = record {
  state = if bit f.direction i == 1 then w % 2 else (get_or f.leds i dark).state;
  color = word_color (w / 2 ^ 32);
}

module _ {level i : ℕ} {f g : F0} (d : IsDriven level (1 <<< i) f.direction 0 led_nr f g) where
  state-one_pin :
      i < led_nr
      → (get_or g.leds i dark).state
        ≡ (if bit f.direction i == 1 then level else (get_or f.leds i dark).state)
  state-one_pin h = d.inside i (omega arith) h ∙ ground (arith, bit-shl 1 i i (omega arith))

  led-other_pin : (j : ℕ) → i ≢ j → get_or g.leds j dark ≡ get_or f.leds j dark
  led-other_pin j n = elim (dec_lt j led_nr) [
    | yes l ↦
        let e : (get_or g.leds j dark).state ≡ (get_or f.leds j dark).state =
          d.inside j (omega arith) l ∙ ground (arith, bit-shl 1 i j (omega arith)) in
        λ k. record { state = e k; color = d.same_color j k }
    | no m ↦ d.above j (omega arith)
  ]

-- The device after the colour of LED `i` was stored and sent.
abbrev colored : F0 → ℕ → ℕ → F0
colored f i w = record f {
  leds = set f.leds i (record (get_or f.leds i dark) { color = word_color (w / 2 ^ 32) });
  sent = f.sent ++ record { cmd = cmd_set_color; led_id = i; color = word_color (w / 2 ^ 32) } ∷ [];
}

index : (i : ℕ) → 8 * i / 8 ≡ i
index i = omega arith

module _ (write_ok : List LedCommand → Bool) (f f₁ : F0) (w i : ℕ) (v : IsValid f) (h : i < led_nr)
    (e : write_led_state f i (w % 2 ^ 32) ≡ done (f₁, true))
    (d : IsDriven (w % 2 ^ 32 % 2) (1 <<< i) f.direction 0 led_nr f f₁) where
  f0_bar1_write-whole :
      write_ok f₁.sent ≡ true → f0_bar1_write write_ok f w 8 (8 * i) ≡ done (colored f₁ i w, some 8)
  unfolding f0_bar1_write f0_bar1_write_smart_led write_led_color device_set_led_color
      word_smart_led
  f0_bar1_write-whole accepted = ground (arith, index i, e, accepted)

  colored-led : get_or (colored f₁ i w).leds i dark ≡ written_led f i w
  colored-led =
      get_or-set_self f₁.leds i _ dark (rw d.same_length (omega (arith, v)))
      ∙ ap (λ (s : ℕ). record { state = s; color = word_color (w / 2 ^ 32) })
          (state-one_pin d h
            ∙ ap (λ (l : ℕ). if bit f.direction i == 1 then l else (get_or f.leds i dark).state)
                (omega arith))

  f0_bar1_read-whole :
      (buf : ℕ)
      → f0_bar1_read (colored f₁ i w) buf 8 (8 * i)
        ≡ done (colored f₁ i w, some (smart_led_word (written_led f i w)))
  unfolding f0_bar1_read
  f0_bar1_read-whole buf = rw (index i, lt→ltb i led_nr h, colored-led)

  colored-leds :
      (j : ℕ)
      → get_or (colored f₁ i w).leds j dark
        ≡ (if i == j then written_led f i w else get_or f.leds j dark)
  colored-leds j = elim (ℕ_discrete i j) [
    | yes s ↦ rw (← s, (==_iff i i).1 refl) colored-led
    | no n ↦ rw (==_ne i j n) (get_or-set_ne f₁.leds i j _ dark n ∙ led-other_pin d j n)
  ]

-- When the LED socket accepts every command, an 8-byte write of `w` to LED `i` succeeds, and an
-- 8-byte read of LED `i` then gives the written colour and, if pin `i` is an output, the lowest bit
-- of the written state, else the old state. Every other LED `j` is as it was.
pub f0_bar1_read-f0_bar1_write :
    (write_ok : List LedCommand → Bool) (f : F0) (w i buf j : ℕ)
    → IsValid f
    → i < led_nr
    → ((sent : List LedCommand) → write_ok sent ≡ true)
    → (f' : F0) × (f0_bar1_write write_ok f w 8 (8 * i) ≡ done (f', some 8))
      × (f0_bar1_read f' buf 8 (8 * i) ≡ done (f', some (smart_led_word (written_led f i w))))
      × (get_or f'.leds j dark ≡ (if i == j then written_led f i w else get_or f.leds j dark))
f0_bar1_read-f0_bar1_write write_ok f w i buf j v h accepted =
    let (f₁, e, d) = write_led_state_lem f i (w % 2 ^ 32) v h in
    (
      colored f₁ i w,
      f0_bar1_write-whole write_ok f f₁ w i v h e d (accepted f₁.sent),
      f0_bar1_read-whole write_ok f f₁ w i v h e d buf,
      colored-leds write_ok f f₁ w i v h e d j,
    )

-- What an 8-byte write of an LED leaves of the device: the directions, and the other LEDs.
pub f0_bar1_write_led :
    (write_ok : List LedCommand → Bool) (f : F0) (w i : ℕ)
    → IsValid f
    → i < led_nr
    → ((sent : List LedCommand) → write_ok sent ≡ true)
    → (f' : F0) × (f0_bar1_write write_ok f w 8 (8 * i) ≡ done (f', some 8))
      × (f'.direction ≡ f.direction)
      × ((j : ℕ)
          → get_or f'.leds j dark ≡ (if i == j then written_led f i w else get_or f.leds j dark))
f0_bar1_write_led write_ok f w i v h accepted =
    let (f₁, e, d) = write_led_state_lem f i (w % 2 ^ 32) v h in
    (
      colored f₁ i w,
      f0_bar1_write-whole write_ok f f₁ w i v h e d (accepted f₁.sent),
      d.same_direction,
      colored-leds write_ok f f₁ w i v h e d,
    )
