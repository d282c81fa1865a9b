-- ===== src/Lux/Mgmt.antt =====
-- qemu-devices/lux/f1_bar0.c, timer.c and irq.c: the interrupt controller and the timer of
-- function 1. As in BAR 0 of function 0, `buf` is the little-endian content of the buffer and
-- `none` the result -1. The time that `clock_gettime` returns is the argument `now_ns`.
pub mod Timer
pub mod Irq
pub mod Reach
pub mod Valid
use qemu_devices_and_drivers.Base.{
  ℕ, zero, suc, ◌+◌, ◌-◌, ◌%◌, ◌^◌, bit_and, bit_or, Bool, not, ◌&&◌, ◌==◌, ltb, leb, if◌then◌else◌,
  Option, none, some,
}
use qemu_devices_and_drivers.Words.{u32, u64, not32, not64, sub64, ◌<<<◌}
use qemu_devices_and_drivers.Lux.Device.{
  F1, reg_irq_status, reg_irq_mask, reg_irq_ack, reg_timer_ctrl, reg_timer_time, reg_timer_cmp,
}

-- `enum hwirqs`, and the bits of the timer's control register.
abbrev pub hwirq_timer : ℕ
hwirq_timer = 0

abbrev pub hwirq_led : ℕ
hwirq_led = 1

abbrev pub hwirq_led_err : ℕ
hwirq_led_err = 2

abbrev pub hwirq_count : ℕ
hwirq_count = 3

abbrev pub timer_bit : ℕ
timer_bit = 1

abbrev pub irq_bit : ℕ
irq_bit = 2

abbrev pub reload_bit : ℕ
reload_bit = 4

unfoldable pub f1_bar0_read : F1 → ℕ → ℕ → Option ℕ
f1_bar0_read f count offset =
    if leb offset reg_irq_ack && not (count == 4)
    then none
    else if offset == reg_irq_status
    then some f.irq_status
    else if offset == reg_irq_mask
    then some f.irq_mask
    else if offset == reg_timer_ctrl
    then (if count == 4 then some f.timer_ctrl else none)
    else if offset == reg_timer_time
    then (if count == 8 then some f.timer_val else none)
    else if offset == reg_timer_cmp
    then (if count == 8 then some f.timer_cmp else none)
    else none

unfoldable pub f1_bar0_write : F1 → ℕ → ℕ → ℕ → F1 × Option ℕ
f1_bar0_write f buf count offset =
    if leb offset reg_irq_ack && not (count == 4)
    then (f, none)
    else if offset == reg_irq_mask
    then (record f { irq_mask = u32 buf }, some count)
    else if offset == reg_irq_ack
    then (record f { irq_status = bit_and f.irq_status (not32 (u32 buf)) }, some count)
    else if offset == reg_timer_ctrl
    then (if count == 4 then (record f { timer_ctrl = u32 buf }, some count) else (f, none))
    else if offset == reg_timer_cmp
    then (if count == 8
        then (
          record f { timer_cmp = u64 buf; last_delta_ns = sub64 (u64 buf) f.timer_val },
          some count,
        )
        else (f, none))
    else (f, none)

unfoldable pub f1_bar0_access : F1 → ℕ → ℕ → ℕ → Bool → F1 × Option ℕ
f1_bar0_access f buf count offset is_write =
    if is_write then f1_bar0_write f buf count offset else (f, f1_bar0_read f count offset)

-- The macros TIMER_ENABLED, TIMER_IRQ_ENABLED, TIMER_RELOAD_ENABLED and
-- TIMER_TRIGGER_VAL_REACHED.
abbrev pub is_set : ℕ → ℕ → Bool
is_set word mask = not (bit_and word mask == 0)

abbrev pub timer_trigger_val_reached : F1 → Bool
timer_trigger_val_reached f = leb f.timer_cmp f.timer_val

-- The end of `device_timer_tick`: the interrupt, and reloading or disarming.
unfoldable pub timer_fire : F1 → F1
timer_fire f =
    let f' = record f { irq_status = bit_or f.irq_status (1 <<< hwirq_timer) } in
    if is_set f.timer_ctrl reload_bit
    then record f' { timer_cmp = u64 (f.timer_cmp + f.last_delta_ns) }
    else record f' { timer_ctrl = u32 (bit_and f.timer_ctrl (not64 irq_bit)) }

unfoldable pub device_timer_tick : F1 → ℕ → F1
device_timer_tick f now_ns =
    if not (is_set f.timer_ctrl timer_bit)
    then f
    else let elapsed = sub64 now_ns f.last_tick_ns in
      let f' = record f { last_tick_ns = now_ns; timer_val = u64 (f.timer_val + elapsed) } in
      if is_set f'.timer_ctrl irq_bit && timer_trigger_val_reached f' then timer_fire f' else f'

-- The loop of `device_irq_tick` from line `i` on: one call of `vfu_irq_trigger` for each.
unfoldable pub irq_loop : ℕ → ℕ → ℕ → F1 → F1
irq_loop pending zero i f = f
irq_loop pending (suc left) i f =
    irq_loop pending left (i + 1)
      (if is_set pending (1 <<< i) then record f { fired = f.fired + 1 } else f)

unfoldable pub device_irq_tick : F1 → F1
unfolding irq_loop
device_irq_tick f =
    let pending = bit_and f.irq_status (not32 f.irq_mask) in irq_loop pending hwirq_count 0 f
