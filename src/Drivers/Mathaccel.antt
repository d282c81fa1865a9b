-- ===== src/Drivers/Mathaccel.antt =====
-- qemu-drivers/mathaccel: the driver of the accelerator, run against the model of the device. `Mem`
-- is the memory that both reach: the driver through the coherent mapping of the kernel, which is the
-- argument `HostDma`, the device through libvfio-user. Locks are left out: operations run one after
-- another. From device.c, irq.c, kthread.c, dma.c and char.c.
pub mod Completion
pub mod Char
pub mod Ring
pub mod Shared
pub mod Lost
pub mod Consume
use qemu_devices_and_drivers.Base.{
  ℕ, zero, suc, ◌+◌, ◌*◌, ◌/◌, ◌%◌, ◌^◌, bit_or, Bool, true, false, not, ◌&&◌, ◌||◌, ◌==◌, leb, ltb,
  if◌then◌else◌, Option, none, some,
}
use qemu_devices_and_drivers.Words.{u16, u32, u64, not32}
use qemu_devices_and_drivers.Words.Int.{ℤ, pos, negsuc}
use qemu_devices_and_drivers.Mathaccel.Hw.{
  state_value, state_busy, state_reset, SqEntry, CqEntry, sq_entry_size, cq_entry_size, Machine,
  GuestDma, Ret, ok, failed, Result, returned, undefined, unfinished, einval, math_op_count,
  reg_arg1, reg_status, reg_flags, reg_dma_sq_base_lower, reg_dma_sq_base_upper, reg_dma_sq_head,
  reg_dma_sq_tail, reg_dma_cq_base_lower, reg_dma_cq_base_upper, reg_dma_cq_head, reg_dma_cq_tail,
  reg_dma_ring_size, reg_irq_cause, irq_cause_job_done, irq_cause_cmd_done, irq_cause_error,
  flag_int_enabled, flag_dma_enabled,
}
use qemu_devices_and_drivers.Mathaccel.Bar.{f0_bar0_access}

-- `struct mathaccel_req`.
pub record Req : Type 0 where
  pub opcode : ℕ
  pub cmd_id : ℕ
  pub arg_a : ℤ
  pub arg_b : ℤ
  pub result : ℤ
  pub status : ℕ

-- `enum completion_cause`.
abbrev pub completion_cause_job_done : ℕ
completion_cause_job_done = 1

abbrev pub completion_cause_cmd_done : ℕ
completion_cause_cmd_done = 2

abbrev pub completion_cause_error : ℕ
completion_cause_error = 4

abbrev pub completion_cause_shutting_down : ℕ
completion_cause_shutting_down = 2 ^ 30

abbrev pub mathaccel_ringbuffer_size : ℕ
mathaccel_ringbuffer_size = 256

-- `struct mathaccel_pending`; `done` is its completion.
pub record Pending : Type 0 where
  pub req : Req
  pub done : Bool
  pub cause : ℕ

-- `struct mathaccel_device`. `pending_submissions` is the array of pending requests by command id,
-- and `legacy_wakeups` counts the wake-ups of the readers.
pub record MathDriver : Type 0 where
  pub irq_cause : ℕ
  pub legacy_comp_cause : ℕ
  pub legacy_res : ℕ
  pub legacy_wakeups : ℕ
  pub cmdid_counter : ℕ
  pub ring_size : ℕ
  pub sq_dma_addr : ℕ
  pub cq_dma_addr : ℕ
  pub sq_tail : ℕ
  pub sq_head : ℕ
  pub cq_tail : ℕ
  pub cq_head : ℕ
  pub pending_submissions : ℕ → Option Pending

-- The driver and the machine.
pub record World (Mem : Type 0) : Type 0 where
  pub driver : MathDriver
  pub machine : Machine Mem

-- An entry of a ring in memory that the device reaches at the address, as the driver reads and
-- writes it.
pub record HostDma (Mem : Type 0) : Type 0 where
  pub write_sq : Mem → ℕ → SqEntry → Mem
  pub read_cq : Mem → ℕ → CqEntry
  pub write_cq : Mem → ℕ → CqEntry → Mem

-- STATE_COUNT.
abbrev state_count : ℕ
state_count = 5

abbrev pub ebusy : ℕ
ebusy = 16

-- `xa_store` of a changed request.
abbrev pub xa_store : (ℕ → Option Pending) → ℕ → Option Pending → ℕ → Option Pending
xa_store pendings id p j = if j == id then p else pendings j

abbrev pub with_result : {A B : Type 0} → Result A → (A → Result B) → Result B
with_result (returned a) k = k a
with_result undefined k = undefined
with_result unfinished k = unfinished

-- The index of the command in the submission ring, or minus an error.
pub data Submitted : Type 0 where
  at_index : ℕ → Submitted
  refused : ℕ → Submitted

module _ {Mem : Type 0} (host : HostDma Mem) where
  abbrev sq_address : MathDriver → ℕ → ℕ
  sq_address d i = d.sq_dma_addr + i * sq_entry_size

  abbrev pub cq_address : MathDriver → ℕ → ℕ
  cq_address d i = d.cq_dma_addr + i * cq_entry_size

  unfoldable pub mathaccel_submit_one_cmd : World Mem → Req → World Mem × Submitted
  mathaccel_submit_one_cmd w req =
      let d = w.driver in
      let sq_next_tail = (d.sq_tail + 1) % d.ring_size in
      if sq_next_tail == d.sq_head then (w, refused ebusy) else (
        record {
          driver = record d { sq_tail = u16 sq_next_tail };
          machine = record w.machine {
            memory =
                host.write_sq w.machine.memory (sq_address d (d.sq_tail % d.ring_size)) (record {
                  opcode = req.opcode;
                  cmd_id = req.cmd_id;
                  arg_a = req.arg_a;
                  arg_b = req.arg_b;
                });
          };
        },
        at_index d.sq_tail,
      )

-- `readl` and `writel` on BAR 0.
module _ {Mem : Type 0} (dma : GuestDma Mem) (rounds : ℕ) where
  unfoldable pub math_readl : World Mem → ℕ → Result (World Mem × ℕ)
  math_readl w offset =
      with_result (f0_bar0_access dma rounds w.machine 0 4 offset false)
        (λ r. returned (record w { machine = r.0 }, elim r.1 [ none ↦ not32 0 | some v ↦ v ]))

  unfoldable pub math_writel : World Mem → ℕ → ℕ → Result (World Mem)
  math_writel w value offset =
      with_result (f0_bar0_access dma rounds w.machine value 4 offset true)
        (λ r. returned (record w { machine = r.0 }))

  unfoldable pub mathaccel_start_dma_job : World Mem → Result (World Mem)
  mathaccel_start_dma_job w = math_writel w w.driver.sq_tail reg_dma_sq_tail

  unfoldable pub mathaccel_irq_read_legacy_cmd_result : World Mem → Result (World Mem)
  mathaccel_irq_read_legacy_cmd_result w = with_result (math_readl w reg_arg1) (λ r.
      returned (record r.0 {
        driver = record (World.driver r.0) {
          legacy_res = r.1;
          legacy_comp_cause = completion_cause_cmd_done;
          legacy_wakeups = suc (World.driver r.0).legacy_wakeups;
        };
      }))

  -- The top half: the causes go to the kernel thread, and the result is whether the interrupt was
  -- the device's.
  unfoldable pub mathaccel_irq_handler : World Mem → Result (World Mem × Bool)
  mathaccel_irq_handler w = with_result (math_readl w reg_irq_cause) (λ cause.
      with_result
        (math_readl
          (record cause.0 { driver = record (World.driver cause.0) { irq_cause = cause.1 } })
          reg_status)
        (λ state. returned (
          state.0,
          not (
              state.1 == state_value state_busy
              || state.1 == state_value state_reset
              || state.1 == state_count),
        )))

  unfoldable pub mathaccel_init_dma : World Mem → Result (World Mem)
  mathaccel_init_dma w =
      let d = record w.driver {
        cmdid_counter = 1;
        sq_head = 0;
        sq_tail = 0;
        cq_head = 0;
        cq_tail = 0;
      } in
      with_result (math_writel (record w { driver = d }) (u32 d.sq_dma_addr) reg_dma_sq_base_lower)
        (λ w₁. with_result (math_writel w₁ (d.sq_dma_addr / 2 ^ 32) reg_dma_sq_base_upper) (λ w₂.
          with_result (math_writel w₂ (u32 d.cq_dma_addr) reg_dma_cq_base_lower) (λ w₃.
            with_result (math_writel w₃ (d.cq_dma_addr / 2 ^ 32) reg_dma_cq_base_upper)
              (λ w₄. math_writel w₄ d.ring_size reg_dma_ring_size))))
