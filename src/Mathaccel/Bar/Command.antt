-- ===== src/Mathaccel/Bar/Command.antt =====
-- The work that a write to the command register starts, and the reset of the device.
use qemu_devices_and_drivers.Base.{
  ℕ, ◌^◌, ◌<◌, bit_or, Bool, true, false, Outcome, done, fault, ◌≡◌, ◌≢◌, refl, arith,
  if◌then◌else◌, ==_ne,
}
use qemu_devices_and_drivers.Words.{u32}
use qemu_devices_and_drivers.Words.Int.{ℤ, pos, int32-word32, fits32, ◌+ℤ◌, ◌-ℤ◌, ◌*ℤ◌, ◌/ℤ◌}
use qemu_devices_and_drivers.Mathaccel.Hw.{
  DeviceState, state_busy, state_ready, state_reset, state_error, MathDevice, Machine, GuestDma,
  Ret, ok, failed, returned, undefined, SqEntry, CqEntry, reg_cmd, irq_cause_cmd_done,
  irq_cause_error, err_cause_cmd_exec, math_op_count, einval,
}
use qemu_devices_and_drivers.Mathaccel.Compute.{execute_operation, complete}
use qemu_devices_and_drivers.Mathaccel.Fsm.{
  Reply, fsm_dispatch, perform, do_legacy_job, after_legacy, raise_error, trigger, do_init,
  do_reset,
}
use qemu_devices_and_drivers.Mathaccel.Bar.{f0_bar0_write, on_device_reset}

-- What a command is to leave behind, for the outcome of its operation.
abbrev pub command_result : {Mem : Type 0} → Machine Mem → ℕ → Outcome (CqEntry × Ret) → Reply Mem
command_result m op fault = undefined
command_result m op (done (res, ok)) = returned (
  trigger (record m {
    dev = record m.dev {
      state = state_ready;
      cmd = math_op_count;
      arg_a = res.result;
      irq_cause = bit_or m.dev.irq_cause irq_cause_cmd_done;
    };
  }),
  ok,
)
command_result m op (done (res, failed e)) = returned (
  trigger (record m {
    dev = record m.dev {
      state = state_error;
      cmd = op;
      error_cause = bit_or m.dev.error_cause err_cause_cmd_exec;
      irq_cause = bit_or m.dev.irq_cause irq_cause_error;
    };
  }),
  ok,
)

-- A successful operation has the value of an `int`.
abbrev ResultFits : Outcome (CqEntry × Ret) → Type 0
ResultFits fault = Unit
ResultFits (done (res, ok)) = fits32 res.result ≡ true
ResultFits (done (res, failed e)) = Unit

complete-ResultFits : (cmd : SqEntry) (z : ℤ) → ResultFits (complete cmd z)
complete-ResultFits cmd z = ground arith

execute-ResultFits : (cmd : SqEntry) → ResultFits (execute_operation cmd)
unfolding execute_operation
execute-ResultFits cmd = ground (
  arith,
  complete-ResultFits cmd (cmd.arg_a +ℤ cmd.arg_b),
  complete-ResultFits cmd (cmd.arg_a -ℤ cmd.arg_b),
  complete-ResultFits cmd (cmd.arg_a *ℤ cmd.arg_b),
  complete-ResultFits cmd (cmd.arg_a /ℤ cmd.arg_b),
)

-- What a reset is to leave of the device.
abbrev pub reset_device : MathDevice → MathDevice
reset_device d = record d {
  state = state_ready;
  cmd = math_op_count;
  arg_a = pos 0;
  arg_b = pos 0;
  flags = 0;
  sq_base_addr = 0;
  sq_head = 0;
  sq_tail = 0;
  cq_base_addr = 0;
  cq_head = 0;
  cq_tail = 0;
}

-- The states from which the device can be reset.
abbrev pub resettable : DeviceState → Bool
resettable state_ready = true
resettable state_error = true
resettable state_reset = false
resettable state_busy = false

module _ {Mem : Type 0} (dma : GuestDma Mem) (rounds : ℕ) where
  legacy_step :
      (m : Machine Mem) (op : ℕ) (o : Outcome (CqEntry × Ret))
      → ResultFits o
      → after_legacy dma
          (fsm_dispatch dma 1 rounds)
          (record m { dev = record m.dev { cmd = op; state = state_busy } })
          o
        ≡ command_result m op o
  unfolding after_legacy raise_error fsm_dispatch perform
  legacy_step m op fault h = refl
  legacy_step m op (done (res, ok)) h = rw (int32-word32 res.result h) refl
  legacy_step m op (done (res, failed e)) h = refl

  -- Writing an operation other than the reserved one to the command register of a ready device
  -- runs it on the two argument registers: if it succeeds, the first argument register holds its
  -- result, the interrupt cause tells that the command is done, and the device is ready again; if it
  -- fails, the device is in the error state, and both causes tell so. Either way the write succeeds
  -- and the interrupt is triggered if it is enabled.
  f0_bar0_write_command :
      (m : Machine Mem) (op : ℕ)
      → op < 2 ^ 32
      → op ≢ math_op_count
      → m.dev.state ≡ state_ready
      → f0_bar0_write dma rounds m op reg_cmd
        ≡ command_result m op (
            execute_operation (record {
              opcode = op;
              cmd_id = 0xffffffff;
              arg_a = m.dev.arg_a;
              arg_b = m.dev.arg_b;
            }))
  unfolding f0_bar0_write fsm_dispatch perform do_legacy_job
  f0_bar0_write_command m op h ne s =
      rw (word_lem op h, s)
        (rw (==_ne op math_op_count ne) (legacy_step m op _ (execute-ResultFits _)))
    where
      word_lem : (t : ℕ) → t < 2 ^ 32 → u32 t ≡ t
      word_lem t h = omega arith

  -- A reset of a ready or failed device makes it ready, with its arguments, flags and rings
  -- cleared; the causes, the ring size and the guest's memory are kept. In the reset state and
  -- in the busy state the reset is refused with -EINVAL and changes nothing.
  on_device_reset_lem :
      (m : Machine Mem)
      → on_device_reset dma rounds m ≡ (
          if resettable m.dev.state
          then returned (record m { dev = reset_device m.dev }, ok)
          else returned (m, failed einval))
  unfolding on_device_reset fsm_dispatch perform do_init do_reset
  on_device_reset_lem m = reset_from m.dev.state m
    where
      reset_from :
          (s : DeviceState) (m : Machine Mem)
          → let m' = record m { dev = record m.dev { state = s } } in
            on_device_reset dma rounds m' ≡ (
              if resettable s
              then returned (record m { dev = reset_device m.dev }, ok)
              else returned (m', failed einval))
      reset_from state_reset m = refl
      reset_from state_ready m = refl
      reset_from state_busy m = refl
      reset_from state_error m = refl
