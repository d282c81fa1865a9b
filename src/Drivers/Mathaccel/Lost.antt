-- ===== src/Drivers/Mathaccel/Lost.antt =====
-- An interrupt with more than one cause.
use qemu_devices_and_drivers.Base.{ℕ, Bool, ◌≡◌, ◌≢◌, refl, ◌∙◌, ap, ==_ne}
use qemu_devices_and_drivers.Mathaccel.Hw.{
  Machine, GuestDma, Result, returned, irq_cause_error, irq_cause_cmd_done, irq_cause_job_done,
}
use qemu_devices_and_drivers.Mathaccel.Bar.{f0_bar0_access, f0_bar0_read}
use qemu_devices_and_drivers.Drivers.Mathaccel.{
  World, HostDma, with_result, math_readl, mathaccel_irq_handler,
}
use qemu_devices_and_drivers.Drivers.Mathaccel.Completion.{kthread_turn}

-- A set of causes that is none of the three single ones.
pub record IsCombined (cause : ℕ) : Type 0 where
  pub some_cause : cause ≢ 0
  pub not_error : cause ≢ irq_cause_error
  pub not_cmd : cause ≢ irq_cause_cmd_done
  pub not_job : cause ≢ irq_cause_job_done

module _ {Mem : Type 0} (host : HostDma Mem) (dma : GuestDma Mem) (rounds : ℕ)
    (reset : Machine Mem → Result (Machine Mem)) where
  turn_combined :
      (w : World Mem)
      → IsCombined w.driver.irq_cause
      → kthread_turn host dma rounds reset w
        ≡ returned (record w { driver = record w.driver { irq_cause = 0 } })
  unfolding kthread_turn
  turn_combined w c =
      rw
        (
          ==_ne w.driver.irq_cause 0 c.some_cause,
          ==_ne w.driver.irq_cause irq_cause_error c.not_error,
          ==_ne w.driver.irq_cause irq_cause_cmd_done c.not_cmd,
          ==_ne w.driver.irq_cause irq_cause_job_done c.not_job,
        )
        refl

  -- The world after the interrupt handler has read the causes.
  abbrev handled : World Mem → World Mem
  handled w = record {
    driver = record w.driver { irq_cause = w.machine.dev.irq_cause };
    machine = record w.machine { dev = record w.machine.dev { irq_cause = 0 } };
  }

  handler_lem :
      (w : World Mem) → (b : Bool) × (mathaccel_irq_handler dma rounds w ≡ returned (handled w, b))
  unfolding mathaccel_irq_handler math_readl f0_bar0_access f0_bar0_read
  handler_lem w = (_, refl)

  -- When the device has more than one cause to report, the interrupt handler and the turn of the
  -- kernel thread that follows it clear the causes in the device and in the driver and do nothing
  -- else: no result is read, no request completed and no error handled.
  pub kthread_turn-combined :
      (w : World Mem)
      → IsCombined w.machine.dev.irq_cause
      → with_result
          (mathaccel_irq_handler dma rounds w)
          (λ r. kthread_turn host dma rounds reset r.0)
        ≡ returned (record {
          driver = record w.driver { irq_cause = 0 };
          machine = record w.machine { dev = record w.machine.dev { irq_cause = 0 } };
        })
  kthread_turn-combined w c =
      let (b, eq) = handler_lem w in
      ap (λ res. with_result res (λ (r : World Mem × Bool). kthread_turn host dma rounds reset r.0))
        eq
      ∙ turn_combined (handled w) c
