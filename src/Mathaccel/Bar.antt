-- ===== src/Mathaccel/Bar.antt =====
-- qemu-devices/mathaccel/bar.c and the reset callback of setup.c. `buf` is the little-endian
-- content of the buffer. A read gives what it leaves there, a write the byte count, and `none` is
-- the result -1.
pub mod Doorbell
pub mod Command
use qemu_devices_and_drivers.Base.{
  ℕ, ◌+◌, ◌*◌, ◌^◌, ◌%◌, bit_and, bit_or, Bool, true, false, not, ◌==◌, ltb, if◌then◌else◌, Option,
  none, some,
}
use qemu_devices_and_drivers.Words.{u16, u32, u64, ◌<<<◌}
use qemu_devices_and_drivers.Words.Int.{int32, word32}
use qemu_devices_and_drivers.Mathaccel.Hw.{
  DeviceState, state_value, evt_submit_job, evt_submit_cmd, evt_reset, evt_init, reg_arg1, reg_arg2,
  reg_cmd, reg_status, reg_flags, reg_dma_sq_base_lower, reg_dma_sq_base_upper, reg_dma_sq_head,
  reg_dma_sq_tail, reg_dma_cq_base_lower, reg_dma_cq_base_upper, reg_dma_cq_head, reg_dma_cq_tail,
  reg_dma_ring_size, reg_irq_cause, reg_error_cause, reg_offset_max, flag_mask, MathDevice, Machine,
  GuestDma, Ret, ok, failed, Result, returned, undefined, unfinished,
}
use qemu_devices_and_drivers.Mathaccel.Fsm.{Reply, fsm_dispatch}

-- How deep dispatches nest: an event from outside, and one that its action raises.
abbrev pub max_depth : ℕ
max_depth = 2

-- The device part of a read: the new device and the value.
unfoldable pub f0_bar0_read : MathDevice → ℕ → MathDevice × ℕ
f0_bar0_read d offset =
    if ltb reg_offset_max offset
    then (d, 0xffffffff)
    else if offset == reg_arg1
    then (d, word32 d.arg_a)
    else if offset == reg_arg2
    then (d, word32 d.arg_b)
    else if offset == reg_status
    then (d, state_value d.state)
    else if offset == reg_irq_cause
    then (record d { irq_cause = 0 }, d.irq_cause)
    else if offset == reg_error_cause
    then (record d { error_cause = 0 }, d.error_cause)
    else if offset == reg_flags
    then (d, d.flags)
    else if offset == reg_dma_sq_head
    then (d, d.sq_head)
    else if offset == reg_dma_cq_tail
    then (d, d.cq_tail)
    else (d, 0)

-- The registers whose write only changes the device; `none` for another offset.
unfoldable pub write_register : MathDevice → ℕ → ℕ → Option MathDevice
write_register d val offset =
    if offset == reg_arg1
    then some (record d { arg_a = int32 val })
    else if offset == reg_arg2
    then some (record d { arg_b = int32 val })
    else if offset == reg_flags
    then some (record d { flags = bit_and val flag_mask })
    else if offset == reg_dma_sq_base_lower
    then some (record d { sq_base_addr = val })
    else if offset == reg_dma_sq_base_upper
    then some (record d { sq_base_addr = bit_or d.sq_base_addr (val <<< 32) })
    else if offset == reg_dma_cq_base_lower
    then some (record d { cq_base_addr = val })
    else if offset == reg_dma_cq_base_upper
    then some (record d { cq_base_addr = bit_or d.cq_base_addr (val <<< 32) })
    else if offset == reg_dma_cq_head
    then some (record d { cq_head = u16 val })
    else if offset == reg_dma_ring_size
    then some (record d { ring_size = u16 val })
    else none

module _ {Mem : Type 0} (dma : GuestDma Mem) (rounds : ℕ) where
  unfoldable pub f0_bar0_write : Machine Mem → ℕ → ℕ → Reply Mem
  f0_bar0_write m buf offset =
      let val = u32 buf in
      if offset == reg_cmd
      then fsm_dispatch dma max_depth rounds evt_submit_cmd
          (record m { dev = record m.dev { cmd = val } })
      else if offset == reg_dma_sq_tail
      then fsm_dispatch dma max_depth rounds evt_submit_job
          (record m { dev = record m.dev { sq_tail = u16 val } })
      else elim (write_register m.dev val offset) [
        | some d ↦ returned (record m { dev = d }, ok)
        | none ↦ returned (m, failed 1)
      ]

  unfoldable pub f0_bar0_access : Machine Mem → ℕ → ℕ → ℕ → Bool → Result (Machine Mem × Option ℕ)
  f0_bar0_access m buf count offset is_write =
      if not (count == 4)
      then returned (m, none)
      else if is_write
      then elim (f0_bar0_write m buf offset) [
        | undefined ↦ undefined
        | unfinished ↦ unfinished
        | returned (m', ok) ↦ returned (m', some count)
        | returned (m', failed e) ↦ returned (m', none)
      ]
      else let r = f0_bar0_read m.dev offset in returned (record m { dev = r.0 }, some r.1)

  unfoldable pub on_device_reset : Machine Mem → Reply Mem
  on_device_reset m = elim (fsm_dispatch dma max_depth rounds evt_reset m) [
    | undefined ↦ undefined
    | unfinished ↦ unfinished
    | returned (m', failed e) ↦ returned (m', failed e)
    | returned (m', ok) ↦ fsm_dispatch dma max_depth rounds evt_init m'
  ]
