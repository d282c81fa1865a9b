-- ===== src/Mathaccel/Bar/Doorbell.antt =====
-- The work that a write to a register of the device starts: the doorbell of the submission ring
-- and the command register.
use qemu_devices_and_drivers.Base.{
  ℕ, ◌+◌, ◌%◌, ◌^◌, ◌<◌, bit_or, bit_and, false, ◌≡◌, refl, ◌∙◌, arith, ◌==◌,
}
use qemu_devices_and_drivers.Words.{u16, u32}
use qemu_devices_and_drivers.Mathaccel.Hw.{
  state_busy, state_ready, MathDevice, Machine, GuestDma, ok, returned, reg_dma_sq_tail,
  flag_dma_enabled, irq_cause_job_done,
}
use qemu_devices_and_drivers.Mathaccel.Fsm.{fsm_dispatch, perform, start_dma, job_done, trigger}
use qemu_devices_and_drivers.Mathaccel.Fsm.Finish.{waiting, IsRing}
use qemu_devices_and_drivers.Mathaccel.Fsm.Rounds.{AlwaysWorks, answered, consume-answered}
use qemu_devices_and_drivers.Mathaccel.Bar.{f0_bar0_write}

-- What the guest sets up before it rings the doorbell.
pub record IsSetUp (d : MathDevice) : Type 0 where
  pub is_ready : d.state ≡ state_ready
  pub ring : IsRing d
  pub cq_tail_fits : d.cq_tail < d.ring_size
  pub dma_enabled : (bit_and d.flags flag_dma_enabled == 0) ≡ false
  pub sq_set : (d.sq_base_addr == 0) ≡ false
  pub cq_set : (d.cq_base_addr == 0) ≡ false

tail_word : (t : ℕ) → t < 2 ^ 16 → u16 (u32 t) ≡ t
tail_word t h = omega arith

module _ {Mem : Type 0} (dma : GuestDma Mem) (works : AlwaysWorks dma) where
  -- The machine after the job of the ring that `m` shows.
  abbrev pub job_result : Machine Mem → Machine Mem
  job_result m =
      let k = waiting m.dev in
      trigger (record m {
        dev = record m.dev {
          state = state_ready;
          sq_head = m.dev.sq_tail;
          cq_tail = (m.dev.cq_tail + k) % m.dev.ring_size;
          irq_cause = bit_or m.dev.irq_cause irq_cause_job_done;
        };
        memory =
            answered dma works m.dev.sq_base_addr m.dev.cq_base_addr m.dev.ring_size k m.dev.sq_head
              m.dev.cq_tail m.memory;
      })

module _ {Mem : Type 0} (dma : GuestDma Mem) (works : AlwaysWorks dma) (rounds : ℕ) where
  start_dma-job :
      (m : Machine Mem)
      → m.dev.state ≡ state_busy
      → IsSetUp (record m.dev { state = state_ready })
      → waiting m.dev < rounds
      → start_dma dma (fsm_dispatch dma 1 rounds) rounds m ≡ returned (job_result dma works m, ok)
  unfolding start_dma job_done fsm_dispatch perform
  start_dma-job m b s w =
      rw (s.dma_enabled, s.sq_set, s.cq_set)
        (consume-answered dma works (fsm_dispatch dma 1 rounds) rounds m
            (record { head_fits = s.ring.head_fits; tail_fits = s.ring.tail_fits }) s.cq_tail_fits w
          ∙ rw b refl)

  -- A guest that has set up its rings, has DMA enabled and rings the doorbell of a ready device
  -- gets its job done, when its memory answers every access, with entries whose operations are
  -- defined, and there are more rounds than entries waiting: the device executes the entries from
  -- its head up to the guest's tail in order and puts their results in order from its tail of the
  -- completion ring on, leaves the submission ring empty, reports the job done in the interrupt
  -- cause, triggers the interrupt if it is enabled, and is ready again.
  pub f0_bar0_write_doorbell :
      (m : Machine Mem) (tail : ℕ)
      → tail < 2 ^ 16
      → let m' = record m { dev = record m.dev { sq_tail = tail } } in
        IsSetUp m'.dev
        → waiting m'.dev < rounds
        → f0_bar0_write dma rounds m tail reg_dma_sq_tail ≡ returned (job_result dma works m', ok)
  unfolding f0_bar0_write fsm_dispatch perform
  f0_bar0_write_doorbell m tail h s w =
      rw (tail_word tail h, s.is_ready)
        (start_dma-job (record m { dev = record m.dev { sq_tail = tail; state = state_busy } }) refl
          (record {
            is_ready = refl;
            ring = record { head_fits = s.ring.head_fits; tail_fits = s.ring.tail_fits };
            cq_tail_fits = s.cq_tail_fits;
            dma_enabled = s.dma_enabled;
            sq_set = s.sq_set;
            cq_set = s.cq_set;
          })
          w)
