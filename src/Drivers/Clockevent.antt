-- ===== src/Drivers/Clockevent.antt =====
-- qemu-drivers/led-gpio/lux-timer-core.c: the operations of the clock event device.
pub mod Events
use qemu_devices_and_drivers.Base.{
  ℕ, ◌+◌, ◌%◌, ◌^◌, bit_and, bit_or, Option, none, some, Bool, true, false,
}
use qemu_devices_and_drivers.Words.{u32, u64, not64}
use qemu_devices_and_drivers.Lux.Device.{F1, reg_timer_ctrl, reg_timer_time, reg_timer_cmp}
use qemu_devices_and_drivers.Lux.Mgmt.{f1_bar0_access, timer_bit, irq_bit, reload_bit}
use qemu_devices_and_drivers.Drivers.Irq.{readl, writel}

unfoldable pub mgmt_readq : F1 → ℕ → ℕ
mgmt_readq f offset = elim (f1_bar0_access f 0 8 offset false).1 [
  | none ↦ not64 0
  | some value ↦ value
]

unfoldable pub mgmt_writeq : F1 → ℕ → ℕ → F1
mgmt_writeq f value offset = (f1_bar0_access f value 8 offset true).0

-- `ctrl |= bits` and `ctrl &= ~bits` on the control register, where the bits are 64-bit constants.
unfoldable pub set_ctrl : F1 → ℕ → F1
set_ctrl f bits =
    let ctrl = readl f reg_timer_ctrl in writel f (u32 (bit_or ctrl bits)) reg_timer_ctrl

unfoldable pub clear_ctrl : F1 → ℕ → F1
clear_ctrl f bits =
    let ctrl = readl f reg_timer_ctrl in writel f (u32 (bit_and ctrl (not64 bits))) reg_timer_ctrl

unfoldable pub lux_ce_set_next_event : F1 → ℕ → F1
lux_ce_set_next_event f delta =
    let now = mgmt_readq f reg_timer_time in
    let cmp = u64 (now + delta) in
    set_ctrl (mgmt_writeq f cmp reg_timer_cmp) (bit_or timer_bit irq_bit)

unfoldable pub lux_ce_set_state_oneshot : F1 → F1
lux_ce_set_state_oneshot f = set_ctrl f timer_bit

unfoldable pub lux_ce_set_state_oneshot_stopped : F1 → F1
lux_ce_set_state_oneshot_stopped f = clear_ctrl f irq_bit

unfoldable pub lux_ce_set_state_periodic : F1 → F1
lux_ce_set_state_periodic f = set_ctrl f (bit_or (bit_or timer_bit irq_bit) reload_bit)

unfoldable pub lux_ce_set_state_shutdown : F1 → F1
lux_ce_set_state_shutdown f = clear_ctrl f (bit_or (bit_or timer_bit irq_bit) reload_bit)
