-- ===== src/Drivers/Clockevent/Events.antt =====
-- When the device fires after an operation of the clock event device.
use qemu_devices_and_drivers.Base.{
  ℕ, ◌+◌, ◌-◌, ◌^◌, ◌<◌, bit_and, bit_or, ◌==◌, leb, false, List, ◌≡◌, refl, sym, ◌∙◌, ap, min, max,
  arith,
}
use qemu_devices_and_drivers.Words.{u32, u64, not64, sub64}
use qemu_devices_and_drivers.Words.Bits.{
  bit, bit-bit_and, bit-bit_or, bit-lt_two, bit-mod, bit_and-shr_one,
}
use qemu_devices_and_drivers.Words.Masks.{bit-not64}
use qemu_devices_and_drivers.Lux.Device.{F1, reg_timer_cmp}
use qemu_devices_and_drivers.Lux.Mgmt.{
  f1_bar0_access, f1_bar0_read, f1_bar0_write, is_set, timer_bit, irq_bit,
}
use qemu_devices_and_drivers.Lux.Mgmt.Timer.{is_set-bit, ticks, ticks_still, ticks_unarmed, fires}
use qemu_devices_and_drivers.Drivers.Irq.{readl, writel}
use qemu_devices_and_drivers.Drivers.Clockevent.{
  mgmt_readq, mgmt_writeq, set_ctrl, clear_ctrl, lux_ce_set_next_event,
  lux_ce_set_state_oneshot_stopped, lux_ce_set_state_shutdown,
}

pub set_ctrl_lem :
    (f : F1) (bits : ℕ)
    → set_ctrl f bits ≡ record f { timer_ctrl = u32 (u32 (bit_or f.timer_ctrl bits)) }
unfolding set_ctrl readl writel f1_bar0_access f1_bar0_read f1_bar0_write
set_ctrl_lem f bits = refl

pub clear_ctrl_lem :
    (f : F1) (bits : ℕ)
    → clear_ctrl f bits ≡ record f { timer_ctrl = u32 (u32 (bit_and f.timer_ctrl (not64 bits))) }
unfolding clear_ctrl readl writel f1_bar0_access f1_bar0_read f1_bar0_write
clear_ctrl_lem f bits = refl

pub write_cmp_lem :
    (f : F1) (value : ℕ)
    → mgmt_writeq f value reg_timer_cmp
      ≡ record f { timer_cmp = u64 value; last_delta_ns = sub64 (u64 value) f.timer_val }
unfolding mgmt_writeq f1_bar0_access f1_bar0_write
write_cmp_lem f value = refl

bit-set : (c bits k : ℕ) → k < 32 → bit (u32 (u32 (bit_or c bits))) k ≡ max (bit c k) (bit bits k)
bit-set c bits k l =
    bit-mod 32 (u32 (bit_or c bits)) k l ∙ bit-mod 32 (bit_or c bits) k l ∙ bit-bit_or c bits k

bit-clear :
    (c bits k : ℕ)
    → bits < 2 ^ 64
    → k < 32
    → bit (u32 (u32 (bit_and c (not64 bits)))) k ≡ min (bit c k) (1 - bit bits k)
bit-clear c bits k h l =
    bit-mod 32 (u32 (bit_and c (not64 bits))) k l
    ∙ bit-mod 32 (bit_and c (not64 bits)) k l
    ∙ bit-bit_and c (not64 bits) k
    ∙ ap (min (bit c k)) (bit-not64 bits k h (omega (arith, l)))

pub is_set-set :
    (c bits k : ℕ)
    → k < 32
    → is_set (u32 (u32 (bit_or c bits))) (2 ^ k) ≡ (max (bit c k) (bit bits k) == 1)
is_set-set c bits k l = is_set-bit _ k ∙ ap (λ b. b == 1) (bit-set c bits k l)

pub is_set-clear :
    (c bits k : ℕ)
    → bits < 2 ^ 64
    → k < 32
    → is_set (u32 (u32 (bit_and c (not64 bits)))) (2 ^ k) ≡ (min (bit c k) (1 - bit bits k) == 1)
is_set-clear c bits k h l = is_set-bit _ k ∙ ap (λ b. b == 1) (bit-clear c bits k h l)

next_event_lem :
    (f : F1) (delta : ℕ)
    → lux_ce_set_next_event f delta
      ≡ set_ctrl
          (record f {
            timer_cmp = u64 (u64 (f.timer_val + delta));
            last_delta_ns = sub64 (u64 (u64 (f.timer_val + delta))) f.timer_val;
          })
          3
unfolding lux_ce_set_next_event mgmt_readq mgmt_writeq f1_bar0_access f1_bar0_read f1_bar0_write
next_event_lem f delta = refl

pub low_bits : (bit 3 0 ≡ 1) × (bit 3 1 ≡ 1) × (bit 7 0 ≡ 1) × (bit 7 1 ≡ 1) × (bit 2 1 ≡ 1)
low_bits = (
  sym (bit_and-shr_one 3 0),
  sym (bit_and-shr_one 3 1),
  sym (bit_and-shr_one 7 0),
  sym (bit_and-shr_one 7 1),
  sym (bit_and-shr_one 2 1),
)

-- After `set_next_event` a tick fires exactly when the time that has passed on the timer is at least
-- the delta, counted without wrapping.
fires-lux_ce_set_next_event :
    (f : F1) (delta now : ℕ)
    → f.timer_val + delta < 2 ^ 64
    → f.timer_val + sub64 now f.last_tick_ns < 2 ^ 64
    → fires (lux_ce_set_next_event f delta) now ≡ leb delta (sub64 now f.last_tick_ns)
fires-lux_ce_set_next_event f delta now h k =
    rw (next_event_lem f delta, set_ctrl_lem _ 3)
      (ground (
        arith,
        is_set-set f.timer_ctrl 3 0 (omega arith),
        is_set-set f.timer_ctrl 3 1 (omega arith),
        low_bits,
        bit-lt_two f.timer_ctrl 0,
        bit-lt_two f.timer_ctrl 1,
      ))

-- After `shutdown` the timer stands still: ticks change nothing. After `oneshot_stopped` it runs on,
-- and raises no line.
ticks-lux_ce_set_state :
    (f : F1) (times : List ℕ)
    → (ticks (lux_ce_set_state_shutdown f) times ≡ lux_ce_set_state_shutdown f)
      × ((ticks (lux_ce_set_state_oneshot_stopped f) times).irq_status ≡ f.irq_status)
unfolding lux_ce_set_state_shutdown lux_ce_set_state_oneshot_stopped
ticks-lux_ce_set_state f times = (
  rw (clear_ctrl_lem f 7) (ticks_still times _ off),
  rw (clear_ctrl_lem f irq_bit) (ticks_unarmed times _ unarmed),
)
  where
    off : is_set (u32 (u32 (bit_and f.timer_ctrl (not64 7)))) timer_bit ≡ false
    off =
        is_set-clear f.timer_ctrl 7 0 (omega arith) (omega arith)
        ∙ ground (arith, low_bits, bit-lt_two f.timer_ctrl 0)

    unarmed : is_set (u32 (u32 (bit_and f.timer_ctrl (not64 irq_bit)))) irq_bit ≡ false
    unarmed =
        is_set-clear f.timer_ctrl 2 1 (omega arith) (omega arith)
        ∙ ground (arith, low_bits, bit-lt_two f.timer_ctrl 1)
