-- ===== src/Mathaccel/Dma.antt =====
-- qemu-devices/mathaccel/dma.c: one entry of the submission ring in, one of the completion ring
-- out. `sq_head % ring_size` with a ring size of 0 is undefined.
use qemu_devices_and_drivers.Base.{ℕ, ◌+◌, ◌*◌, ◌%◌, ◌==◌, if◌then◌else◌}
use qemu_devices_and_drivers.Words.{u64}
use qemu_devices_and_drivers.Mathaccel.Hw.{
  SqEntry, CqEntry, sq_entry_size, cq_entry_size, Machine, fetched, fetch_failed, stored,
  store_failed, GuestDma, eagain,
}

-- The entry that the function copies to its caller, or minus its result; a failure changes nothing.
pub data Next (Mem : Type 0) (A : Type 0) : Type 0 where
  got : Machine Mem → A → Next Mem A
  missed : ℕ → Next Mem A
  trapped : Next Mem A

module _ {Mem : Type 0} (dma : GuestDma Mem) where
  unfoldable pub dma_read_next : Machine Mem → Next Mem SqEntry
  dma_read_next m =
      if m.dev.sq_head == m.dev.sq_tail
      then missed eagain
      else let gpa = u64 (m.dev.sq_base_addr + m.dev.sq_head * sq_entry_size) in
        elim (dma.fetch m.memory gpa) [
          | fetch_failed e ↦ missed e
          | fetched cmd ↦
              if m.dev.ring_size == 0
              then trapped
              else got
                  (record m {
                    dev = record m.dev { sq_head = (m.dev.sq_head + 1) % m.dev.ring_size };
                  })
                  cmd
        ]

  unfoldable pub dma_write_next : Machine Mem → CqEntry → Next Mem Unit
  dma_write_next m res =
      let gpa = u64 (m.dev.cq_base_addr + m.dev.cq_tail * cq_entry_size) in
      elim (dma.store m.memory gpa res) [
        | store_failed e ↦ missed e
        | stored memory' ↦
            if m.dev.ring_size == 0
            then trapped
            else got
                (record m {
                  dev = record m.dev { cq_tail = (m.dev.cq_tail + 1) % m.dev.ring_size };
                  memory = memory';
                })
                tt
      ]
