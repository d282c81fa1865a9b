-- ===== src/Drivers/Timer/Last.antt =====
-- What switching off a subscriber does to the clock of the device.
use qemu_devices_and_drivers.Base.{
  ℕ, ◌==◌, bit_and, bit_xor, Bool, true, false, ◌&&◌, if◌then◌else◌, ◌≡◌, refl, sym, ◌∙◌, ap,
  Bool-cases, if_cases, false≢true, ==_iff, subst, inl, inr, arith,
}
use qemu_devices_and_drivers.Words.{u32, not64}
use qemu_devices_and_drivers.Words.Bits.{
  bit, bit-bit_and, bit-bit_xor, bit-lt_two, bit-mod, bit_zero, bit_and-shr_one,
}
use qemu_devices_and_drivers.Words.Masks.{bit-not64}
use qemu_devices_and_drivers.Lux.Mgmt.{
  f1_bar0_access, f1_bar0_read, f1_bar0_write, is_set, timer_bit, irq_bit,
}
use qemu_devices_and_drivers.Lux.Mgmt.Timer.{is_set-bit}
use qemu_devices_and_drivers.Drivers.Irq.{readl, writel}
use qemu_devices_and_drivers.Drivers.Timer.{LuxClock, store, atomic_dec}
use qemu_devices_and_drivers.Drivers.Timer.Fops.{
  discount_enabled, discount_periodic, lux_timer_disable_bits,
}

-- The control register without the bits of the timer and its interrupt.
abbrev stopped : ℕ → ℕ
stopped ctrl = u32 (bit_and (u32 (bit_and ctrl (not64 timer_bit))) (not64 irq_bit))

stopped_bits : (ctrl : ℕ) → bit (stopped ctrl) 0 ≡ 0
stopped_bits ctrl =
    let once = u32 (bit_and ctrl (not64 1)) in
    omega (
      arith,
      bit-mod 32 (bit_and once (not64 2)) 0 (omega arith),
      bit-bit_and once (not64 2) 0,
      bit-mod 32 (bit_and ctrl (not64 1)) 0 (omega arith),
      bit-bit_and ctrl (not64 1) 0,
      bit-not64 1 0 (omega arith) (omega arith),
      bit_and-shr_one 1 0,
    )

same_bit : (a b : ℕ) → bit_xor a b ≡ 0 → bit a 0 ≡ bit b 0
same_bit a b h =
    omega
      (arith, bit-bit_xor a b 0, ap (λ x. bit x 0) h, bit_zero 0, bit-lt_two a 0, bit-lt_two b 0)

never : (b : Bool) → b && false ≡ true → ⊥
never true h = false≢true h
never false h = false≢true h

module _ (c : LuxClock) (id : ℕ) where
  abbrev switched_off : LuxClock
  switched_off = record (store c id (record (c.subscribers_of id) { enabled = false })) {
    enabled_users = atomic_dec c.enabled_users;
  }

  -- The control register that the driver has computed.
  abbrev new_ctrl : ℕ
  new_ctrl = if atomic_dec c.enabled_users == 0 then stopped c.f1.timer_ctrl else c.f1.timer_ctrl

  discount_enabled_lem :
      (c.subscribers_of id).enabled ≡ true
      → discount_enabled c id 3 c.f1.timer_ctrl ≡ (switched_off, new_ctrl)
  unfolding discount_enabled
  discount_enabled_lem on = rw on refl

  discount_periodic_lem : (c : LuxClock) (ctrl : ℕ) → discount_periodic c id 3 ctrl ≡ (c, ctrl)
  unfolding discount_periodic
  discount_periodic_lem c ctrl =
      if_cases {A = LuxClock × ℕ} (λ res. res ≡ (c, ctrl)) ((c.subscribers_of id).periodic && false)
        (λ h. absurd (never (c.subscribers_of id).periodic h)) (λ h. refl)

  abbrev result : LuxClock
  result =
      if bit_xor new_ctrl c.f1.timer_ctrl == 0
      then switched_off
      else record switched_off { f1 = record c.f1 { timer_ctrl = u32 new_ctrl } }

  disable_lem : (c.subscribers_of id).enabled ≡ true → lux_timer_disable_bits c id 3 ≡ result
  unfolding lux_timer_disable_bits readl writel f1_bar0_access f1_bar0_read f1_bar0_write
  disable_lem on =
      ap
        (λ (res : LuxClock × ℕ).
          if bit_xor res.1 c.f1.timer_ctrl == 0
          then res.0
          else record res.0 { f1 = record c.f1 { timer_ctrl = u32 res.1 } })
        (discount_periodic_lem _ _ ∙ discount_enabled_lem on)

  result_ctrl : is_set result.f1.timer_ctrl timer_bit ≡ (bit new_ctrl 0 == 1)
  result_ctrl = elim (Bool-cases (bit_xor new_ctrl c.f1.timer_ctrl == 0)) [
    | inl e ↦ rw e (
        is_set-bit c.f1.timer_ctrl 0
        ∙ ap (λ b. b == 1) (sym (same_bit new_ctrl c.f1.timer_ctrl ((==_iff _ 0).0 e))))
    | inr e ↦
        rw e (is_set-bit (u32 new_ctrl) 0 ∙ ap (λ b. b == 1) (bit-mod 32 new_ctrl 0 (omega arith)))
  ]

  result_users : result.enabled_users ≡ atomic_dec c.enabled_users
  result_users = elim (Bool-cases (bit_xor new_ctrl c.f1.timer_ctrl == 0)) [
    | inl e ↦ rw e refl
    | inr e ↦ rw e refl
  ]

  bit-new_ctrl :
      (bit new_ctrl 0 == 1)
      ≡ (if atomic_dec c.enabled_users == 0 then false else is_set c.f1.timer_ctrl timer_bit)
  bit-new_ctrl = elim (Bool-cases (atomic_dec c.enabled_users == 0)) [
    | inl e ↦ rw e (ap (λ b. b == 1) (stopped_bits c.f1.timer_ctrl))
    | inr e ↦ rw e (sym (is_set-bit c.f1.timer_ctrl 0))
  ]

-- Switching off the timer and interrupt bits of an enabled subscriber stops the clock of the device
-- when it was the last one enabled, although the kernel's clock source and clock event device run
-- on the same clock; otherwise the clock runs on as before.
lux_timer_disable_bits-last :
    (c : LuxClock) (id : ℕ)
    → (c.subscribers_of id).enabled ≡ true
    → let c' = lux_timer_disable_bits c id 3 in
      is_set c'.f1.timer_ctrl timer_bit
      ≡ (if c'.enabled_users == 0 then false else is_set c.f1.timer_ctrl timer_bit)
lux_timer_disable_bits-last c id on =
    subst
      (λ (c' : LuxClock).
        is_set c'.f1.timer_ctrl timer_bit
        ≡ (if c'.enabled_users == 0 then false else is_set c.f1.timer_ctrl timer_bit))
      (sym (disable_lem c id on))
      (result_ctrl c id
        ∙ bit-new_ctrl c id
        ∙ ap (λ n. if n == 0 then false else is_set c.f1.timer_ctrl timer_bit)
            (sym (result_users c id)))
