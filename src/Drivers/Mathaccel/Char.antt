-- ===== src/Drivers/Mathaccel/Char.antt =====
-- qemu-drivers/mathaccel/char.c: a request of a process, up to where it waits and from there on, and
-- the reads and writes of the character device.
use qemu_devices_and_drivers.Base.{
  ℕ, ◌+◌, Bool, false, ◌==◌, leb, if◌then◌else◌, Option, none, some,
}
use qemu_devices_and_drivers.Words.{u32}
use qemu_devices_and_drivers.Mathaccel.Hw.{
  GuestDma, Ret, ok, failed, Result, returned, einval, math_op_count, math_op_mul, reg_arg1,
  reg_arg2, reg_cmd,
}
use qemu_devices_and_drivers.Drivers.Mathaccel.{
  Req, Pending, MathDriver, World, HostDma, Submitted, at_index, refused, completion_cause_cmd_done,
  completion_cause_error, completion_cause_shutting_down, xa_store, with_result,
  mathaccel_submit_one_cmd, mathaccel_start_dma_job, math_writel,
}

abbrev efault : ℕ
efault = 14

abbrev pub erestartsys : ℕ
erestartsys = 512

abbrev pub enodev : ℕ
enodev = 19

abbrev pub eio : ℕ
eio = 5

-- A request waits for its completion under its command id, or it ended with minus an error.
pub data Started : Type 0 where
  waits_for : ℕ → Started
  ended : ℕ → Started

module _ {Mem : Type 0} (host : HostDma Mem) (dma : GuestDma Mem) (rounds : ℕ) where
  -- From the submission on. On an error the pending request is freed, and stays in the array.
  unfoldable pub after_submit : ℕ → World Mem × Submitted → Result (World Mem × Started)
  after_submit cmd_id (w, refused e) = returned (w, ended e)
  after_submit cmd_id (w, at_index i) =
      with_result (mathaccel_start_dma_job dma rounds w) (λ w'. returned (w', waits_for cmd_id))

  -- `mathaccel_ioc_compute` up to `wait_for_completion_interruptible`. `req` is what
  -- `copy_from_user` gives, or `none`; `xa_store` is taken to succeed.
  unfoldable pub mathaccel_ioc_compute : World Mem → Option Req → Result (World Mem × Started)
  mathaccel_ioc_compute w none = returned (w, ended efault)
  mathaccel_ioc_compute w (some req) =
      if leb math_op_count req.opcode
      then returned (w, ended einval)
      else let cmd_id = u32 (w.driver.cmdid_counter + 1) in
        let kernel_req = record req { cmd_id = cmd_id } in
        let pending : Pending = record { req = kernel_req; done = false; cause = 0 } in
        let d = record w.driver {
          cmdid_counter = cmd_id;
          pending_submissions = xa_store w.driver.pending_submissions cmd_id (some pending);
        } in
        after_submit cmd_id (mathaccel_submit_one_cmd host (record w { driver = d }) kernel_req)

-- The rest, for the request that waited: the driver, the result, and the request that the user gets.
-- `interrupted` is whether a signal ended the wait, `copy_fails` whether `copy_to_user` fails.
unfoldable pub finish_compute :
    MathDriver → ℕ → Pending → Bool → Bool → MathDriver × Ret × Option Req
finish_compute d cmd_id pending interrupted copy_fails =
    let erased = record d { pending_submissions = xa_store d.pending_submissions cmd_id none } in
    if interrupted
    then (d, failed erestartsys, none)
    else if pending.cause == completion_cause_cmd_done
    then (d, failed erestartsys, none)
    else if pending.cause == completion_cause_shutting_down
    then (d, failed enodev, none)
    else if pending.cause == completion_cause_error
    then (d, failed eio, none)
    else if copy_fails
    then (erased, failed efault, none)
    else (erased, ok, some pending.req)

module _ {Mem : Type 0} (dma : GuestDma Mem) (rounds : ℕ) where
  -- `mathaccel_device_write` with the number that `kstrtou32` gives.
  unfoldable pub mathaccel_device_write : World Mem → ℕ → Result (World Mem)
  mathaccel_device_write w number = with_result (math_writel dma rounds w number reg_arg1) (λ w₁.
      with_result (math_writel dma rounds w₁ 2 reg_arg2)
        (λ w₂. math_writel dma rounds w₂ math_op_mul reg_cmd))

-- What a turn of the loop of `mathaccel_device_read` comes to.
pub data Read : Type 0 where
  reads : ℕ → Read
  stops : ℕ → Read
  sleeps_on : Read

-- A turn of the loop: the cause afterwards, and what comes of it.
unfoldable pub mathaccel_device_read_turn : MathDriver → Bool → MathDriver × Read
mathaccel_device_read_turn d signal_pending =
    if d.legacy_comp_cause == completion_cause_error
    then (d, stops eio)
    else if d.legacy_comp_cause == completion_cause_cmd_done
    then (record d { legacy_comp_cause = 0 }, reads (u32 d.legacy_res))
    else if signal_pending
    then (d, stops erestartsys)
    else if d.legacy_comp_cause == completion_cause_shutting_down
    then (d, stops enodev)
    else (d, sleeps_on)
