-- ===== src/Lux/Mgmt/Reach.antt =====
-- The timer of function 1 reaches its comparator.
use qemu_devices_and_drivers.Base.{
  ℕ, ◌+◌, ◌^◌, ◌<◌, ◌≤◌, true, false, List, [], ◌∷◌, ◌≡◌, sym, subst, Bool-cases, inl, inr, arith,
}
use qemu_devices_and_drivers.Words.{u64, sub64}
use qemu_devices_and_drivers.Words.Bits.{bit, bit-bit_or, bit-lt_two, bit_and-shr_one}
use qemu_devices_and_drivers.Lux.Device.{F1}
use qemu_devices_and_drivers.Lux.Mgmt.{device_timer_tick, timer_fire, is_set, timer_bit, irq_bit}
use qemu_devices_and_drivers.Lux.Mgmt.Timer.{
  ticks, last_time, AllFit, fires, telescope, last_time-fits,
}

-- A raised line stays raised, whatever the timer does.
tick-raised :
    (f : F1) (now : ℕ) → bit f.irq_status 0 ≡ 1 → bit (device_timer_tick f now).irq_status 0 ≡ 1
unfolding device_timer_tick timer_fire
tick-raised f now h = ground (arith, bit-bit_or f.irq_status 1 0, bit-lt_two 1 0)

ticks-raised :
    (times : List ℕ) (f : F1) → bit f.irq_status 0 ≡ 1 → bit (ticks f times).irq_status 0 ≡ 1
unfolding ticks
ticks-raised [] f h = h
ticks-raised (now ∷ times) f h = ticks-raised times (device_timer_tick f now) (tick-raised f now h)

fires-raises :
    (f : F1) (now : ℕ) → fires f now ≡ true → bit (device_timer_tick f now).irq_status 0 ≡ 1
unfolding device_timer_tick timer_fire
fires-raises f now h =
    ground (arith, bit-bit_or f.irq_status 1 0, bit-lt_two f.irq_status 0, bit_and-shr_one 1 0)

-- A tick that does not fire only moves the time.
tick_silent :
    (f : F1) (now : ℕ)
    → is_set f.timer_ctrl timer_bit ≡ true
    → fires f now ≡ false
    → device_timer_tick f now
      ≡ record f { last_tick_ns = now; timer_val = u64 (f.timer_val + sub64 now f.last_tick_ns) }
unfolding device_timer_tick
tick_silent f now h n = ground arith

-- An armed timer whose comparator is still to come raises its line, whatever the times of the ticks
-- are, once the last of them has brought the time to the comparator.
pub ticks_reach :
    (times : List ℕ) (f : F1)
    → is_set f.timer_ctrl timer_bit ≡ true
    → is_set f.timer_ctrl irq_bit ≡ true
    → f.timer_val < f.timer_cmp
    → f.timer_cmp < 2 ^ 64
    → f.last_tick_ns < 2 ^ 64
    → AllFit times
    → f.timer_cmp ≤ u64 (f.timer_val + sub64 (last_time f.last_tick_ns times) f.last_tick_ns)
    → bit (ticks f times).irq_status 0 ≡ 1
unfolding ticks
ticks_reach [] f t i v c l fit h = absurd (omega arith)
ticks_reach (now ∷ times) f t i v c l fit h = elim (Bool-cases (fires f now)) [
  | inl e ↦ ticks-raised times (device_timer_tick f now) (fires-raises f now e)
  | inr e ↦
      let f' = record f {
        last_tick_ns = now;
        timer_val = u64 (f.timer_val + sub64 now f.last_tick_ns);
      } in
      subst (λ (g : F1). bit (ticks g times).irq_status 0 ≡ 1) (sym (tick_silent f now t e))
        (ticks_reach times f' t i (later e) c fit.0 fit.1 (
          omega (
            arith,
            h,
            telescope f.timer_val f.last_tick_ns now (last_time now times) l fit.0
                (last_time-fits now times fit.0 fit.1),
          )))
]
  where
    later : fires f now ≡ false → u64 (f.timer_val + sub64 now f.last_tick_ns) < f.timer_cmp
    later e = ground arith
