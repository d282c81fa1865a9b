-- ===== src/Lux/Mgmt/Timer.antt =====
-- The timer of function 1, tick by tick.
use native.Mathlib.Nat.{one-le-pow}
use qemu_devices_and_drivers.Base.{
  ℕ, zero, suc, ◌+◌, ◌*◌, ◌^◌, ◌<◌, bit_and, bit_or, List, [], ◌∷◌, Bool, true, false, not, ◌==◌,
  ◌≡◌, refl, ◌∙◌, arith, if◌then◌else◌, ◌&&◌, leb,
}
use qemu_devices_and_drivers.Words.{u32, u64, sub64, not64}
use qemu_devices_and_drivers.Words.Bits.{
  bit, bit-bit_and, bit-lt_two, bit-mod, bit-shl, bit_and-shl_one,
}
use qemu_devices_and_drivers.Words.Masks.{bit-not64}
use qemu_devices_and_drivers.Lux.Device.{F1, reg_timer_ctrl}
use qemu_devices_and_drivers.Lux.Mgmt.{
  device_timer_tick, timer_fire, is_set, timer_bit, irq_bit, reload_bit, f1_bar0_write,
}

-- The timer after ticks at the given times.
unfoldable pub ticks : F1 → List ℕ → F1
ticks f [] = f
ticks f (now ∷ times) = ticks (device_timer_tick f now) times

-- The last of the times, or `t` if there are none.
abbrev pub last_time : ℕ → List ℕ → ℕ
last_time t [] = t
last_time t (now ∷ times) = last_time now times

-- Every time is a 64-bit number.
abbrev pub AllFit : List ℕ → Type 0
AllFit [] = Unit
AllFit (t ∷ times) = (t < 2 ^ 64) × AllFit times

scaled_bit : (b p : ℕ) → b < 2 → 0 < p → not (b * p == 0) ≡ (b == 1)
scaled_bit zero p hb hp = ground arith
scaled_bit (suc zero) p hb hp = ground arith
scaled_bit (suc (suc b)) p hb hp = absurd (omega arith)

pub is_set-bit : (w k : ℕ) → is_set w (2 ^ k) ≡ (bit w k == 1)
is_set-bit w k =
    rw bit_and-shl_one
      (scaled_bit (bit w k) (2 ^ k) (bit-lt_two w k) (one-le-pow k 2 (omega arith)))

-- Disarming the interrupt of the timer clears bit 1 of its control register and no other.
pub bit-disarmed :
    (ctrl k : ℕ)
    → k < 32
    → bit (u32 (bit_and ctrl (not64 irq_bit))) k ≡ (if k == 1 then 0 else bit ctrl k)
bit-disarmed ctrl k h =
    (bit-mod 32 (bit_and ctrl (not64 irq_bit)) k h ∙ bit-bit_and ctrl (not64 irq_bit) k)
    ∙ ground (arith, bit-not64 irq_bit k, bit-shl 1 1 k (omega arith), bit-lt_two ctrl k)

is_set-disarmed :
    (ctrl : ℕ)
    → (is_set (u32 (bit_and ctrl (not64 irq_bit))) timer_bit ≡ is_set ctrl timer_bit)
      × (is_set (u32 (bit_and ctrl (not64 irq_bit))) irq_bit ≡ false)
is_set-disarmed ctrl = (
  rw (is_set-bit _ 0, is_set-bit ctrl 0, bit-disarmed ctrl 0 (omega arith)),
  rw (is_set-bit _ 1, bit-disarmed ctrl 1 (omega arith)),
)

pub tick-enabled :
    (f : F1) (now : ℕ)
    → is_set f.timer_ctrl timer_bit ≡ true
    → let f' = device_timer_tick f now in
      (is_set f'.timer_ctrl timer_bit ≡ true)
      × (f'.timer_val ≡ u64 (f.timer_val + sub64 now f.last_tick_ns))
      × (f'.last_tick_ns ≡ now)
unfolding device_timer_tick timer_fire
tick-enabled f now h = ground (arith, is_set-disarmed f.timer_ctrl)

pub telescope :
    (v l n t : ℕ)
    → l < 2 ^ 64
    → n < 2 ^ 64
    → t < 2 ^ 64
    → u64 (u64 (v + sub64 n l) + sub64 t n) ≡ u64 (v + sub64 t l)
telescope v l n t hl hn ht = omega arith

pub last_time-fits :
    (t : ℕ) (times : List ℕ) → t < 2 ^ 64 → AllFit times → last_time t times < 2 ^ 64
last_time-fits t [] h fit = h
last_time-fits t (now ∷ times) h fit = last_time-fits now times fit.0 fit.1

pub ticks_still :
    (times : List ℕ) (f : F1) → is_set f.timer_ctrl timer_bit ≡ false → ticks f times ≡ f
unfolding ticks device_timer_tick
ticks_still [] f h = refl
ticks_still (now ∷ times) f h = rw h (ticks_still times f h)

-- While the timer is enabled and the guest does not write its registers, it has counted, after any
-- ticks, the time from its last tick before them to the last of them (modulo 2 ^ 64), and it is
-- still enabled.
pub ticks_count :
    (times : List ℕ) (f : F1)
    → is_set f.timer_ctrl timer_bit ≡ true
    → f.timer_val < 2 ^ 64
    → f.last_tick_ns < 2 ^ 64
    → AllFit times
    → ((ticks f times).timer_val
        ≡ u64 (f.timer_val + sub64 (last_time f.last_tick_ns times) f.last_tick_ns))
      × (is_set (ticks f times).timer_ctrl timer_bit ≡ true)
unfolding ticks
ticks_count [] f h v l fit = (omega arith, h)
ticks_count (now ∷ times) f h v l fit =
    let e = tick-enabled f now h in
    let f' = device_timer_tick f now in
    let ih = ticks_count times f' e.0 (rw e.1 (omega arith)) (rw e.2 fit.0) fit.1 in
    (
      ih.0
          ∙ rw (e.1, e.2)
              (telescope f.timer_val f.last_tick_ns now (last_time now times) l fit.0
                (last_time-fits now times fit.0 fit.1)),
      ih.1,
    )

-- A timer that is not enabled ignores ticks, and keeps the time of its last tick. So when the guest
-- enables it, the first tick counts the whole time since that tick, the time when the timer was
-- stopped included.
ticks_stopped :
    (times : List ℕ) (f : F1) (ctrl now : ℕ)
    → is_set f.timer_ctrl timer_bit ≡ false
    → is_set (u32 ctrl) timer_bit ≡ true
    → let f' = (f1_bar0_write (ticks f times) ctrl 4 reg_timer_ctrl).0 in
      (ticks f times ≡ f)
      × ((device_timer_tick f' now).timer_val ≡ u64 (f.timer_val + sub64 now f.last_tick_ns))
unfolding f1_bar0_write
ticks_stopped times f ctrl now h e = (
  ticks_still times f h,
  rw (ticks_still times f h) (tick-enabled (record f { timer_ctrl = u32 ctrl }) now e).1,
)

-- The condition under which a tick raises the timer's line.
abbrev pub fires : F1 → ℕ → Bool
fires f now =
    is_set f.timer_ctrl timer_bit
    && is_set f.timer_ctrl irq_bit
    && leb f.timer_cmp (u64 (f.timer_val + sub64 now f.last_tick_ns))

pub tick_unarmed :
    (f : F1) (now : ℕ)
    → is_set f.timer_ctrl irq_bit ≡ false
    → ((device_timer_tick f now).irq_status ≡ f.irq_status)
      × ((device_timer_tick f now).timer_ctrl ≡ f.timer_ctrl)
unfolding device_timer_tick
tick_unarmed f now h = ground arith

pub ticks_unarmed :
    (times : List ℕ) (f : F1)
    → is_set f.timer_ctrl irq_bit ≡ false
    → (ticks f times).irq_status ≡ f.irq_status
unfolding ticks
ticks_unarmed [] f h = refl
ticks_unarmed (now ∷ times) f h =
    let e = tick_unarmed f now h in ticks_unarmed times (device_timer_tick f now) (rw e.1 h) ∙ e.0

tick-fires :
    (f : F1) (now : ℕ)
    → fires f now ≡ true
    → is_set f.timer_ctrl reload_bit ≡ false
    → ((device_timer_tick f now).irq_status ≡ bit_or f.irq_status 1)
      × (is_set (device_timer_tick f now).timer_ctrl irq_bit ≡ false)
unfolding device_timer_tick timer_fire
tick-fires f now h r = ground (arith, is_set-disarmed f.timer_ctrl)

-- A one-shot timer fires once: when a tick fires and reloading is off, the tick raises the line of
-- the timer, and whatever the guest then makes of the status register, no later tick raises a line
-- again.
pub oneshot_fires_once :
    (f : F1) (now status : ℕ) (times : List ℕ)
    → fires f now ≡ true
    → is_set f.timer_ctrl reload_bit ≡ false
    → let f' = device_timer_tick f now in
      (f'.irq_status ≡ bit_or f.irq_status 1)
      × ((ticks (record f' { irq_status = status }) times).irq_status ≡ status)
oneshot_fires_once f now status times h r =
    let f' = device_timer_tick f now in
    (
      (tick-fires f now h r).0,
      ticks_unarmed times (record f' { irq_status = status }) (tick-fires f now h r).1,
    )

-- A reloading timer that fires stays armed, and its next deadline is the old one plus the period
-- that the guest last wrote (modulo 2 ^ 64).
reload_rearms :
    (f : F1) (now : ℕ)
    → fires f now ≡ true
    → is_set f.timer_ctrl reload_bit ≡ true
    → let f' = device_timer_tick f now in
      (f'.irq_status ≡ bit_or f.irq_status 1)
      × (f'.timer_cmp ≡ u64 (f.timer_cmp + f.last_delta_ns))
      × (f'.timer_ctrl ≡ f.timer_ctrl)
unfolding device_timer_tick timer_fire
reload_rearms f now h r = ground arith
