-- ===== src/Mathaccel/Fsm.antt =====
-- qemu-devices/mathaccel/fsm.c: the state machine, its actions, and the loop of compute.c that one
-- of them runs. An action may dispatch an event itself: `depth` bounds how deep dispatches nest,
-- and `rounds` how often the loop goes round.
pub mod Moves
pub mod Finish
pub mod Rounds
use qemu_devices_and_drivers.Base.{
  ℕ, zero, suc, ◌+◌, bit_and, bit_or, Bool, true, false, ◌==◌, if◌then◌else◌, Option, none, some,
  Outcome, done, fault,
}
use qemu_devices_and_drivers.Words.Int.{ℤ, pos, int32, word32}
use qemu_devices_and_drivers.Mathaccel.Hw.{
  DeviceState, state_reset, state_ready, state_busy, state_error, DeviceEvent, evt_init,
  evt_submit_job, evt_submit_cmd, evt_job_done, evt_cmd_done, evt_error, evt_reset, SqEntry,
  CqEntry, flag_int_enabled, flag_dma_enabled, irq_cause_job_done, irq_cause_cmd_done,
  irq_cause_error, err_cause_dma_read, err_cause_dma_write, err_cause_dma_bad_queue,
  err_cause_dma_disabled, err_cause_cmd_unkown, err_cause_cmd_exec, math_op_count, MathDevice,
  Machine, GuestDma, Ret, ok, failed, einval, eagain, Result, returned, undefined, unfinished,
}
use qemu_devices_and_drivers.Mathaccel.Compute.{execute_operation}
use qemu_devices_and_drivers.Mathaccel.Dma.{
  Next, got, missed, trapped, dma_read_next, dma_write_next,
}

-- The functions of the table.
pub data Action : Type 0 where
  action_init action_reset action_start_dma action_do_legacy_job action_complete : Action
  action_error : Action

-- The table `fsm`, `none` for the entries that are left out.
abbrev pub fsm : DeviceState → DeviceEvent → Option (DeviceState × Action)
fsm state_reset evt_init = some (state_ready, action_init)
fsm state_ready evt_submit_job = some (state_busy, action_start_dma)
fsm state_ready evt_submit_cmd = some (state_busy, action_do_legacy_job)
fsm state_ready evt_reset = some (state_reset, action_reset)
fsm state_ready evt_error = some (state_error, action_error)
fsm state_busy evt_job_done = some (state_ready, action_complete)
fsm state_busy evt_cmd_done = some (state_ready, action_complete)
fsm state_busy evt_error = some (state_error, action_error)
fsm state_error evt_reset = some (state_reset, action_reset)
fsm _ _ = none

abbrev pub Reply : Type 0 → Type 0
Reply Mem = Result (Machine Mem × Ret)

-- `dev->irq_cause |= ...` and `dev->error_cause |= ...`.
abbrev pub add_irq_cause : {Mem : Type 0} → Machine Mem → ℕ → Machine Mem
add_irq_cause m cause = record m { dev = record m.dev { irq_cause = bit_or m.dev.irq_cause cause } }

abbrev pub add_error_cause : {Mem : Type 0} → Machine Mem → ℕ → Machine Mem
add_error_cause m cause = record m {
  dev = record m.dev { error_cause = bit_or m.dev.error_cause cause };
}

-- `vfu_irq_trigger`, whose result is only printed.
abbrev pub trigger : {Mem : Type 0} → Machine Mem → Machine Mem
trigger m = if bit_and m.dev.flags flag_int_enabled == 0 then m else record m { irqs = m.irqs + 1 }

module _ {Mem : Type 0} where
  unfoldable pub do_init : Machine Mem → Machine Mem
  do_init m = record m { dev = record m.dev { sq_head = 0; sq_tail = 0; cq_head = 0; cq_tail = 0 } }

  unfoldable pub do_reset : Machine Mem → Machine Mem
  do_reset m = record m {
    dev = record m.dev {
      flags = 0;
      arg_a = pos 0;
      arg_b = pos 0;
      cmd = math_op_count;
      sq_base_addr = 0;
      cq_base_addr = 0;
      sq_head = 0;
      sq_tail = 0;
      cq_head = 0;
      cq_tail = 0;
    };
  }

module _ {Mem : Type 0} (dma : GuestDma Mem) (raise : DeviceEvent → Machine Mem → Reply Mem) where
  -- The end of `consume_submission_queue`, after the `break`.
  unfoldable pub job_done : Machine Mem → Reply Mem
  job_done m = raise evt_job_done (add_irq_cause m irq_cause_job_done)

  unfoldable pub raise_error : Machine Mem → ℕ → Reply Mem
  raise_error m cause = raise evt_error (add_error_cause m cause)

  -- The parts of the loop body after each call, `again` being the next round.
  unfoldable pub after_write : (Machine Mem → Reply Mem) → Machine Mem → Next Mem Unit → Reply Mem
  after_write again m trapped = undefined
  after_write again m (got m' u) = again m'
  after_write again m (missed e) =
      if e == eagain then again m else raise_error m err_cause_dma_write

  unfoldable pub after_execute :
      (Machine Mem → Reply Mem) → Machine Mem → Outcome (CqEntry × Ret) → Reply Mem
  after_execute again m fault = undefined
  after_execute again m (done res) = after_write again m (dma_write_next dma m res.0)

  unfoldable pub after_read : (Machine Mem → Reply Mem) → Machine Mem → Next Mem SqEntry → Reply Mem
  after_read again m trapped = undefined
  after_read again m (missed e) =
      if e == eagain then job_done m else raise_error m err_cause_dma_read
  after_read again m (got m' cmd) = after_execute again m' (execute_operation cmd)

  unfoldable pub consume_submission_queue : ℕ → Machine Mem → Reply Mem
  consume_submission_queue zero m = unfinished
  consume_submission_queue (suc rounds) m =
      after_read (consume_submission_queue rounds) m (dma_read_next dma m)

  unfoldable pub start_dma : ℕ → Machine Mem → Reply Mem
  start_dma rounds m =
      if bit_and m.dev.flags flag_dma_enabled == 0
      then raise_error m err_cause_dma_disabled
      else if m.dev.sq_base_addr == 0
      then raise_error m err_cause_dma_bad_queue
      else if m.dev.cq_base_addr == 0
      then raise_error m err_cause_dma_bad_queue
      else consume_submission_queue rounds m

  unfoldable pub after_legacy : Machine Mem → Outcome (CqEntry × Ret) → Reply Mem
  after_legacy m fault = undefined
  after_legacy m (done (res, failed e)) = raise_error m err_cause_cmd_exec
  after_legacy m (done (res, ok)) = raise evt_cmd_done (
      add_irq_cause
        (record m { dev = record m.dev { arg_a = int32 (word32 res.result); cmd = math_op_count } })
        irq_cause_cmd_done)

  -- `cmd_id` is -1, and the 64-bit result goes into an `int32_t`.
  abbrev pub legacy_entry : MathDevice → SqEntry
  legacy_entry d = record { opcode = d.cmd; cmd_id = 0xffffffff; arg_a = d.arg_a; arg_b = d.arg_b }

  unfoldable pub do_legacy_job : Machine Mem → Reply Mem
  do_legacy_job m =
      if m.dev.cmd == math_op_count
      then raise_error m err_cause_cmd_unkown
      else after_legacy m (execute_operation (legacy_entry m.dev))

  unfoldable pub perform : ℕ → Action → Machine Mem → Reply Mem
  perform rounds action_init m = returned (do_init m, ok)
  perform rounds action_reset m = returned (do_reset m, ok)
  perform rounds action_start_dma m = start_dma rounds m
  perform rounds action_do_legacy_job m = do_legacy_job m
  perform rounds action_complete m = returned (trigger m, ok)
  perform rounds action_error m = returned (trigger (add_irq_cause m irq_cause_error), ok)

module _ {Mem : Type 0} (dma : GuestDma Mem) where
  unfoldable pub fsm_dispatch : ℕ → ℕ → DeviceEvent → Machine Mem → Reply Mem
  fsm_dispatch zero rounds evt m = unfinished
  fsm_dispatch (suc depth) rounds evt m = elim (fsm m.dev.state evt) [
    | none ↦ returned (m, failed einval)
    | some (next, action) ↦
        perform dma (fsm_dispatch depth rounds) rounds action
          (record m { dev = record m.dev { state = next } })
  ]
