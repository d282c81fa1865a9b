-- ===== src/Drivers/Timer/Work.antt =====
-- qemu-drivers/led-gpio/lux-timer-core.c: the timer's interrupt, the work that it queues, and the
-- clock source. `rounds` bounds how often the loop of the work goes round.
use qemu_devices_and_drivers.Base.{
  ℕ, zero, suc, ◌+◌, bit_and, bit_or, true, not, ◌==◌, ltb, if◌then◌else◌, Option, none, some, ◌∷◌,
  Outcome, done, fault,
}
use qemu_devices_and_drivers.Words.{u64, sub64, not32}
use qemu_devices_and_drivers.Lux.Device.{F1, reg_timer_ctrl, reg_timer_time}
use qemu_devices_and_drivers.Mathaccel.Hw.{Result, returned, undefined, unfinished}
use qemu_devices_and_drivers.Drivers.Irq.{readl, writel}
use qemu_devices_and_drivers.Drivers.Clockevent.{mgmt_readq}
use qemu_devices_and_drivers.Drivers.Timer.{
  Subscriber, RbLibrary, LuxClock, store, clear_node, erase,
}
use qemu_devices_and_drivers.Drivers.Timer.Queue.{lux_timer_enqueue}
use qemu_devices_and_drivers.Drivers.Timer.Fops.{lux_reprogram_timer}

-- LUX_CLOCK_PERIODIC and LUX_CLOCK_ALARM.
abbrev pub lux_clock_periodic : ℕ
lux_clock_periodic = 1

abbrev pub lux_clock_alarm : ℕ
lux_clock_alarm = 2

-- The data of a subscriber whose deadline has passed.
unfoldable pub expire : Subscriber → Subscriber
expire sub =
    let irq_data = u64 (sub.irq_data + 256) in
    if sub.periodic
    then (let deadline = u64 (sub.deadline + sub.periodic_delta) in
        record sub {
          irq_data = bit_or irq_data lux_clock_periodic;
          deadline = deadline;
          phys_deadline = sub64 deadline sub.time_offset;
        })
    else record sub { irq_data = bit_or irq_data lux_clock_alarm; deadline = 0; phys_deadline = 0 }

-- The signal or the wake-up.
unfoldable pub announce : LuxClock → ℕ → LuxClock
announce c id =
    if (c.subscribers_of id).async
    then (elim (c.subscribers_of id).async_task [
      | none ↦ c
      | some task ↦ record c { signals = ((c.subscribers_of id).signo, task) ∷ c.signals }
    ])
    else record c { woken = id ∷ c.woken }

-- The body of the loop after `rb_erase_cached`.
unfoldable pub serve : RbLibrary → LuxClock → ℕ → LuxClock
serve lib c id =
    let c₁ = clear_node c id in
    let c₂ = announce (store c₁ id (expire (c₁.subscribers_of id))) id in
    if (c₂.subscribers_of id).periodic then lux_timer_enqueue lib c₂ id else c₂

unfoldable pub after_erase :
    RbLibrary → (LuxClock → Result LuxClock) → ℕ → Outcome LuxClock → Result LuxClock
after_erase lib again id fault = undefined
after_erase lib again id (done c) = again (serve lib c id)

-- A round of the loop with the first node, `again` being the next round.
unfoldable pub round :
    RbLibrary → (LuxClock → Result LuxClock) → ℕ → LuxClock → Option ℕ → Result LuxClock
round lib again phys_now c none = returned c
round lib again phys_now c (some id) =
    if ltb phys_now (c.subscribers_of id).phys_deadline
    then returned c
    else after_erase lib again id (erase lib c id)

unfoldable pub work_loop : RbLibrary → ℕ → ℕ → LuxClock → Result LuxClock
work_loop lib zero phys_now c = unfinished
work_loop lib (suc rounds) phys_now c =
    round lib (work_loop lib rounds phys_now) phys_now c c.subscribers.rb_leftmost

-- What follows the loop.
unfoldable pub after_loop : Result LuxClock → Result LuxClock
after_loop (returned c) = returned (lux_reprogram_timer c)
after_loop undefined = undefined
after_loop unfinished = unfinished

unfoldable pub lux_timer_work_func : RbLibrary → ℕ → LuxClock → Result LuxClock
lux_timer_work_func lib rounds c =
    after_loop (work_loop lib rounds (mgmt_readq c.f1 reg_timer_time) c)

-- The interrupt queues the work; the clock event's own handler is the kernel's.
unfoldable pub lux_ce_timer_isr : LuxClock → LuxClock
lux_ce_timer_isr c = record c { work_queued = true }

unfoldable pub lux_clocksource_read : F1 → ℕ
lux_clocksource_read f = mgmt_readq f reg_timer_time

unfoldable pub lux_clocksource_enable : F1 → F1
lux_clocksource_enable f =
    let ctrl = readl f reg_timer_ctrl in
    if not (bit_and ctrl 1 == 0) then f else writel f (bit_or ctrl 1) reg_timer_ctrl

unfoldable pub lux_clocksource_disable : F1 → F1
lux_clocksource_disable f =
    let ctrl = readl f reg_timer_ctrl in
    if bit_and ctrl 1 == 0 then f else writel f (bit_and ctrl (not32 1)) reg_timer_ctrl
