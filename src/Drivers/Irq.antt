-- ===== src/Drivers/Irq.antt =====
-- qemu-drivers/led-gpio/lux-irq.c: the operations of the interrupt chip. `readl` and `writel` reach
-- BAR 0 of function 1; what the kernel reads when the device refuses is all ones. For the chained
-- handler, `device` is function 1 in a state of the system, `ffs` is `__ffs`, and `dispatch` is what
-- `generic_handle_domain_irq` does to the system for a line.
pub mod Lines
pub mod Chained
use qemu_devices_and_drivers.Base.{
  ℕ, zero, suc, bit_and, bit_or, ◌==◌, if◌then◌else◌, Option, none, some, Bool, true, false,
}
use qemu_devices_and_drivers.Words.{u32, not32, ◌<<<◌}
use qemu_devices_and_drivers.Lux.Device.{F1, reg_irq_status, reg_irq_mask, reg_irq_ack}
use qemu_devices_and_drivers.Lux.Mgmt.{f1_bar0_access}

unfoldable pub readl : F1 → ℕ → ℕ
readl f offset = elim (f1_bar0_access f 0 4 offset false).1 [ none ↦ not32 0 | some value ↦ value ]

unfoldable pub writel : F1 → ℕ → ℕ → F1
writel f value offset = (f1_bar0_access f value 4 offset true).0

unfoldable pub lux_irq_mask : F1 → ℕ → F1
lux_irq_mask f hwirq =
    let mask = readl f reg_irq_mask in writel f (bit_or mask (u32 (1 <<< hwirq))) reg_irq_mask

unfoldable pub lux_irq_unmask : F1 → ℕ → F1
lux_irq_unmask f hwirq =
    let mask = readl f reg_irq_mask in
    writel f (bit_and mask (not32 (u32 (1 <<< hwirq)))) reg_irq_mask

unfoldable pub lux_irq_ack : F1 → ℕ → F1
lux_irq_ack f hwirq = writel f (u32 (1 <<< hwirq)) reg_irq_ack

module _ {S : Type 0} (device : S → F1) (ffs : ℕ → ℕ) (dispatch : ℕ → S → S) where
  -- The loop over the pending lines. Without a round left there is no result.
  unfoldable pub handle_pending : (rounds pending : ℕ) → S → Option S
  handle_pending zero pending s = if pending == 0 then some s else none
  handle_pending (suc rounds) pending s =
      let hwirq = ffs pending in
      let rest =
        handle_pending rounds (bit_and pending (not32 (u32 (1 <<< hwirq)))) (dispatch hwirq s) in
      if pending == 0 then some s else rest

  unfoldable pub lux_irq_chained_handler : ℕ → S → Option S
  lux_irq_chained_handler rounds s =
      let status = readl (device s) reg_irq_status in
      let mask = readl (device s) reg_irq_mask in
      handle_pending rounds (bit_and status (not32 mask)) s
