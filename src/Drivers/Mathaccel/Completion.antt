-- ===== src/Drivers/Mathaccel/Completion.antt =====
-- qemu-drivers/mathaccel/irq.c and kthread.c: the completion ring, an error of the device, and what
-- the kernel thread does for an interrupt.
use qemu_devices_and_drivers.Base.{
  ℕ, zero, suc, ◌+◌, ◌%◌, bit_or, true, not, ◌&&◌, ◌==◌, if◌then◌else◌, Option, none, some,
}
use qemu_devices_and_drivers.Words.{u16}
use qemu_devices_and_drivers.Words.Int.{negsuc}
use qemu_devices_and_drivers.Mathaccel.Hw.{
  CqEntry, Machine, GuestDma, Result, returned, undefined, unfinished, reg_flags, reg_dma_sq_head,
  reg_dma_cq_head, reg_dma_cq_tail, reg_error_cause, irq_cause_job_done, irq_cause_cmd_done,
  irq_cause_error, flag_int_enabled, flag_dma_enabled,
}
use qemu_devices_and_drivers.Drivers.Mathaccel.{
  Pending, MathDriver, World, HostDma, completion_cause_job_done, completion_cause_error, xa_store,
  with_result, cq_address, math_readl, math_writel, mathaccel_init_dma,
  mathaccel_irq_read_legacy_cmd_result,
}

-- The request that an entry completes.
unfoldable pub complete_with : Pending → CqEntry → Pending
complete_with p entry = record p {
  req = record p.req { result = entry.result; status = entry.status };
  cause = completion_cause_job_done;
  done = true;
}

unfoldable pub complete_pending : MathDriver → CqEntry → MathDriver
complete_pending d entry = elim (d.pending_submissions entry.cmd_id) [
  | none ↦ d
  | some p ↦ record d {
    pending_submissions =
        xa_store d.pending_submissions entry.cmd_id (some (complete_with p entry));
  }
]

module _ {Mem : Type 0} (host : HostDma Mem) where
  abbrev pub entry_of : World Mem → ℕ → CqEntry
  entry_of w head = host.read_cq w.machine.memory (cq_address host w.driver head)

  -- The body of the loop.
  unfoldable pub consume_entry : World Mem → ℕ → World Mem
  consume_entry w head =
      let entry = entry_of w head in
      record {
        driver = complete_pending w.driver entry;
        machine = record w.machine {
          memory =
              host.write_cq w.machine.memory (cq_address host w.driver head)
                (record entry { valid = 0 });
        };
      }

  -- The loop from a head on: the world and the head after it. `rounds` bounds how often it goes
  -- round.
  unfoldable pub consume_loop : ℕ → World Mem → ℕ → ℕ → Result (World Mem × ℕ)
  consume_loop zero w head tail = unfinished
  consume_loop (suc rounds) w head tail =
      let rest =
        consume_loop rounds (consume_entry w head) ((head + 1) % w.driver.ring_size) tail in
      if not ((entry_of w head).valid == 0) && not (head == tail) then rest else returned (w, head)

  module _ (dma : GuestDma Mem) (rounds : ℕ) where
    -- From the two reads of the device's ends on.
    unfoldable pub consume_from : World Mem → Result (World Mem)
    consume_from w =
        if w.driver.cq_head == w.driver.cq_tail
        then returned w
        else with_result (consume_loop rounds w w.driver.cq_head w.driver.cq_tail) (λ r.
          math_writel dma rounds
            (record r.0 { driver = record (World.driver r.0) { cq_head = u16 r.1 } }) (u16 r.1)
            reg_dma_cq_head)

    unfoldable pub mathaccel_irq_consume_completion_queue : World Mem → Result (World Mem)
    mathaccel_irq_consume_completion_queue w =
        with_result (math_readl dma rounds w reg_dma_sq_head) (λ head.
          with_result
            (math_readl dma rounds
              (record head.0 { driver = record (World.driver head.0) { sq_head = u16 head.1 } })
              reg_dma_cq_tail)
            (λ tail.
              consume_from
                (record tail.0 { driver = record (World.driver tail.0) { cq_tail = u16 tail.1 } })))

    -- `xa_for_each`: every pending request fails.
    abbrev pub fail_pending : Option Pending → Option Pending
    fail_pending none = none
    fail_pending (some p) = some (record p {
      req = record p.req { result = negsuc 0 };
      cause = completion_cause_error;
      done = true;
    })

    -- `reset` is `pci_reset_function`, or `pci_reset_bus` when that fails. BUG_ON stops the kernel.
    unfoldable pub mathaccel_irq_handle_error :
        (Machine Mem → Result (Machine Mem)) → World Mem → Result (World Mem)
    mathaccel_irq_handle_error reset w =
        with_result (math_readl dma rounds w reg_error_cause) (λ cause.
          if cause.1 == 0
          then undefined
          else with_result (reset (World.machine cause.0)) (λ machine.
            with_result (mathaccel_init_dma dma rounds (record cause.0 { machine = machine }))
              (λ w₁. with_result (math_readl dma rounds w₁ reg_flags) (λ flags.
                with_result
                  (math_writel dma rounds flags.0
                    (bit_or flags.1 (bit_or flag_int_enabled flag_dma_enabled)) reg_flags)
                  (λ w₂. returned (record w₂ {
                    driver = record (World.driver w₂) {
                      pending_submissions =
                          λ id. fail_pending ((World.driver w₂).pending_submissions id);
                    };
                  }))))))

    -- A turn of the kernel thread after a wake-up: it takes the causes, and sleeps on when there are
    -- none.
    unfoldable pub kthread_turn :
        (Machine Mem → Result (Machine Mem)) → World Mem → Result (World Mem)
    kthread_turn reset w =
        let irq_cause = w.driver.irq_cause in
        let taken = record w { driver = record w.driver { irq_cause = 0 } } in
        if irq_cause == 0
        then returned w
        else if irq_cause == irq_cause_error
        then mathaccel_irq_handle_error reset taken
        else if irq_cause == irq_cause_cmd_done
        then mathaccel_irq_read_legacy_cmd_result dma rounds taken
        else if irq_cause == irq_cause_job_done
        then mathaccel_irq_consume_completion_queue taken
        else returned taken
