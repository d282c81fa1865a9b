-- ===== src/Drivers/Cdev/Files.antt =====
-- qemu-drivers/led-gpio/lux-cdev.c: reads and writes of the LED file.
use qemu_devices_and_drivers.Base.{
  ℕ, ◌+◌, ◌*◌, ◌/◌, ◌<◌, Bool, true, false, ◌==◌, leb, Option, none, some, List, get_or, Outcome,
  done, fault, ◌≡◌, inl, inr, refl, ap, ◌∙◌, arith, Bool-cases, Option-cases, ==_iff, lt→ltb,
}
use qemu_devices_and_drivers.Protocol.{LedCommand}
use qemu_devices_and_drivers.Lux.Device.{F0, dark, smart_led_word, IsValid}
use qemu_devices_and_drivers.Lux.Bar1.{f0_bar1_access, f0_bar1_read}
use qemu_devices_and_drivers.Lux.Bar1.Access.{
  written_led, f0_bar1_access_fault_iff, f0_bar1_read-f0_bar1_write,
}
use qemu_devices_and_drivers.Drivers.Cdev.{
  LuxCdev, CdevRet, count_of, minus, einval, erange, efault, sizeof_smart_led, read_value,
  wait_for_cause, finish_write, lux_smart_write, lux_smart_read,
}

module _ (wait : LuxCdev → LuxCdev × Option ℕ) (c : LuxCdev) where
  waited_leds :
      ((c' : LuxCdev) → (LuxCdev.device (wait c').0).leds ≡ c'.device.leds)
      → (LuxCdev.device (wait_for_cause wait c).0).leds ≡ c.device.leds
  unfolding wait_for_cause
  waited_leds keeps = elim (Bool-cases (c.last_irq_cause == 0)) [
    | inl e ↦ rw e (keeps c)
    | inr e ↦ rw e refl
  ]

  waited_quiet : ((c' : LuxCdev) → (wait c').1 ≡ none) → (wait_for_cause wait c).1 ≡ none
  unfolding wait_for_cause
  waited_quiet quiet = elim (Bool-cases (c.last_irq_cause == 0)) [
    | inl e ↦ rw e (quiet c)
    | inr e ↦ rw e refl
  ]

finished :
    (count offset : ℕ) (p : LuxCdev × Option ℕ)
    → p.1 ≡ none
    → finish_write count offset p
      ≡ (record p.0 { last_irq_cause = 0 }, (finish_write count offset p).1, offset + 8)
unfolding finish_write
finished count offset (c, some error) h = absurd (ground arith)
finished count offset (c, none) h = refl

pub eighth : (i : ℕ) → i * 8 ≡ 8 * i
eighth i = omega arith

pub not_far : (offset : ℕ) → offset < 512 → leb 512 offset ≡ false
not_far offset h = ground arith

read_led :
    (f : F0) (i : ℕ)
    → i < 64
    → f0_bar1_read f 0 8 (8 * i) ≡ done (f, some (smart_led_word (get_or f.leds i dark)))
unfolding f0_bar1_read
read_led f i l = rw (eighth_back i, lt→ltb i 64 l) refl
  where
    eighth_back : (i : ℕ) → 8 * i / 8 ≡ i
    eighth_back i = omega arith

module _ (write_ok : List LedCommand → Bool) where
  -- An access at a file offset below the end of the file reaches an LED.
  access_in_bounds :
      (f : F0) (buf offset : ℕ) (is_write : Bool)
      → offset < 512
      → (r : F0 × Option ℕ) × (f0_bar1_access write_ok f buf 8 (offset / 8 * 8) is_write ≡ done r)
  access_in_bounds f buf offset is_write l =
      by-outcome (f0_bar1_access write_ok f buf 8 (offset / 8 * 8) is_write) refl
    where
      by-outcome :
          (o : Outcome (F0 × Option ℕ))
          → f0_bar1_access write_ok f buf 8 (offset / 8 * 8) is_write ≡ o
          → (r : F0 × Option ℕ) × (o ≡ done r)
      by-outcome (done r) e = (r, refl)
      by-outcome fault e = absurd (
          omega
            (arith, l, (f0_bar1_access_fault_iff write_ok f buf (offset / 8 * 8) is_write).0.0 e))

  write_returns :
      (wait : LuxCdev → LuxCdev × Option ℕ) (c : LuxCdev) (count offset : ℕ) (led : Option ℕ)
      → (r : LuxCdev × CdevRet × ℕ) × (lux_smart_write write_ok wait c count offset led ≡ done r)
  unfolding lux_smart_write
  write_returns wait c count offset led = elim (Bool-cases (count == 8)) [
    | inr e ↦ ((c, minus einval, offset), rw e refl)
    | inl e ↦ elim (Bool-cases (leb 512 offset)) [
      | inl far ↦ ((c, minus erange, offset), rw (e, far) refl)
      | inr near ↦ elim (Option-cases led) [
        | inl missing ↦ ((c, minus efault, offset), rw (e, near, missing) refl)
        | inr (word, given) ↦
            let (r, at_led) = access_in_bounds c.device word offset true (ground arith) in
            (
              finish_write count offset (wait_for_cause wait (record c { device = r.0 })),
              rw (e, near, given, at_led) refl,
            )
      ]
    ]
  ]

  read_returns :
      (c : LuxCdev) (count offset : ℕ) (copy_fails : Bool)
      → (r : LuxCdev × CdevRet × Option ℕ × ℕ) × (lux_smart_read write_ok c count offset copy_fails
          ≡ done r)
  unfolding lux_smart_read
  read_returns c count offset copy_fails = elim (Bool-cases (count == 8)) [
    | inr e ↦ ((c, minus einval, none, offset), rw e refl)
    | inl e ↦ elim (Bool-cases (leb 512 offset)) [
      | inl far ↦ ((c, minus erange, none, offset), rw (e, far) refl)
      | inr near ↦
          let (r, at_led) = access_in_bounds c.device 0 offset false (ground arith) in
          elim (Bool-cases copy_fails) [
            | inl fails ↦ (
              (record c { device = r.0 }, minus efault, none, offset),
              rw (e, near, at_led, fails) refl,
            )
            | inr copied ↦ (
              (
                record c { device = r.0 },
                count_of count,
                some (read_value r.1),
                offset + sizeof_smart_led,
              ),
              rw (e, near, at_led, copied) refl,
            )
          ]
    ]
  ]

  -- Whatever the count, the offset and the data are, a write and a read of the file stay within the
  -- LEDs of the device, and return.
  lux_smart_in_bounds :
      (wait : LuxCdev → LuxCdev × Option ℕ) (c : LuxCdev) (count offset : ℕ) (led : Option ℕ)
      (copy_fails : Bool)
      → ((r : LuxCdev × CdevRet × ℕ) × (lux_smart_write write_ok wait c count offset led ≡ done r))
        × ((r : LuxCdev × CdevRet × Option ℕ × ℕ) × (lux_smart_read write_ok c count offset
                copy_fails
              ≡ done r))
  lux_smart_in_bounds wait c count offset led copy_fails =
      (write_returns wait c count offset led, read_returns c count offset copy_fails)

  -- A read of the file after a write at the same offset gives the LED that was written: its colour,
  -- and the lowest bit of its state when its pin is an output. This holds when the LED socket accepts
  -- every command, and what happens during the wait leaves the LEDs alone and ends without a signal
  -- and without an error cause.
  pub lux_smart_read-lux_smart_write :
      (wait : LuxCdev → LuxCdev × Option ℕ) (c : LuxCdev) (offset word : ℕ)
      → IsValid c.device
      → offset < 512
      → ((sent : List LedCommand) → write_ok sent ≡ true)
      → ((c' : LuxCdev) → (LuxCdev.device (wait c').0).leds ≡ c'.device.leds)
      → ((c' : LuxCdev) → (wait c').1 ≡ none)
      → (c₁ : LuxCdev) × (ret : CdevRet) × (lux_smart_write write_ok wait c 8 offset (some word)
          ≡ done (c₁, ret, offset + 8))
        × (lux_smart_read write_ok c₁ 8 offset false
            ≡ done (
              c₁,
              count_of 8,
              some (smart_led_word (written_led c.device (offset / 8) word)),
              offset + 8,
            ))
  unfolding lux_smart_write lux_smart_read f0_bar1_access
  lux_smart_read-lux_smart_write wait c offset word v l accepted keeps quiet =
      let i = offset / 8 in
      let (f', wrote, _, shows) =
        f0_bar1_read-f0_bar1_write write_ok c.device word i 0 i v (omega arith) accepted in
      let waited = wait_for_cause wait (record c { device = f' }) in
      let c₁ = record waited.0 { last_irq_cause = 0 } in
      let kept = waited_leds wait (record c { device = f' }) keeps in
      let led : get_or c₁.device.leds i dark ≡ written_led c.device i word =
        rw kept (shows ∙ rw ((==_iff i i).1 refl) refl) in
      (
        c₁,
        (finish_write 8 offset waited).1,
        rw (not_far offset l, eighth i, wrote)
            (ap done
              (finished 8 offset waited (waited_quiet wait (record c { device = f' }) quiet))),
        rw (not_far offset l, eighth i, read_led c₁.device i (omega arith), led) refl,
      )
