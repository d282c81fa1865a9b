-- ===== src/Mathaccel/Fsm/Moves.antt =====
-- The state machine as the outside sees it, between two calls into the device.
use qemu_devices_and_drivers.Base.{
  ℕ, zero, suc, bit_and, Bool, true, false, none, Outcome, done, fault, ◌≡◌, ◌≢◌, sym, subst, refl,
  arith, ◌==◌, if◌then◌else◌,
}
use qemu_devices_and_drivers.Mathaccel.Hw.{
  DeviceState, state_reset, state_ready, state_busy, state_error, DeviceEvent, evt_init,
  evt_submit_job, evt_submit_cmd, evt_job_done, evt_cmd_done, evt_error, evt_reset, Machine,
  GuestDma, Ret, ok, failed, einval, returned, undefined, unfinished, CqEntry, SqEntry, eagain,
  err_cause_dma_read, err_cause_dma_write, err_cause_dma_disabled, err_cause_dma_bad_queue,
  err_cause_cmd_exec, err_cause_cmd_unkown, flag_dma_enabled, math_op_count, irq_cause_job_done,
  irq_cause_error,
}
use qemu_devices_and_drivers.Mathaccel.Compute.{execute_operation}
use qemu_devices_and_drivers.Mathaccel.Dma.{
  Next, got, missed, trapped, dma_read_next, dma_write_next,
}
use qemu_devices_and_drivers.Mathaccel.Fsm.{
  Reply, fsm_dispatch, perform, start_dma, do_legacy_job, consume_submission_queue, after_write,
  after_execute, after_read, after_legacy, job_done, raise_error, fsm, add_irq_cause,
  add_error_cause, do_init, do_reset, trigger,
}

-- The moves between the three states that the device rests in.
pub data Moves : DeviceState → DeviceEvent → DeviceState → Type 0 where
  start : Moves state_reset evt_init state_ready
  job_works : Moves state_ready evt_submit_job state_ready
  job_fails : Moves state_ready evt_submit_job state_error
  cmd_works : Moves state_ready evt_submit_cmd state_ready
  cmd_fails : Moves state_ready evt_submit_cmd state_error
  breaks : Moves state_ready evt_error state_error
  reset_ready : Moves state_ready evt_reset state_reset
  reset_error : Moves state_error evt_reset state_reset

abbrev IsSubmit : DeviceEvent → Type 0
IsSubmit evt_submit_job = Unit
IsSubmit evt_submit_cmd = Unit
IsSubmit _ = ⊥

-- The result of dispatching `evt` to a machine: a success is a move, a failure leaves the machine
-- as it was. Only the events that submit work may run into undefined behaviour, and only a job may
-- use up the rounds.
abbrev pub IsMove : {Mem : Type 0} → Machine Mem → DeviceEvent → Reply Mem → Type 0
IsMove m evt (returned (m', ok)) = Moves m.dev.state evt m'.dev.state
IsMove m evt (returned (m', failed e)) = (m' ≡ m) × (e ≡ einval) × (fsm m.dev.state evt ≡ none)
IsMove m evt undefined = IsSubmit evt
IsMove m evt unfinished = evt ≡ evt_submit_job

-- The result of an action that runs while the device is busy.
abbrev EndsIn : {Mem : Type 0} → (DeviceState → Type 0) → Type 0 → Reply Mem → Type 0
EndsIn P U (returned (m', ok)) = P m'.dev.state
EndsIn P U (returned (m', failed e)) = ⊥
EndsIn P U undefined = Unit
EndsIn P U unfinished = U

module _ {Mem : Type 0} (dma : GuestDma Mem) (rounds : ℕ) where
  abbrev nested : DeviceEvent → Machine Mem → Reply Mem
  nested = fsm_dispatch dma 1 rounds

  trigger-dev : (m : Machine Mem) → (trigger m).dev ≡ m.dev
  trigger-dev m = ground arith

  -- The machine after the events that end the work.
  abbrev after_done : Machine Mem → Machine Mem
  after_done m = trigger (record m { dev = record m.dev { state = state_ready } })

  abbrev after_error : Machine Mem → Machine Mem
  after_error m =
      trigger
        (add_irq_cause (record m { dev = record m.dev { state = state_error } }) irq_cause_error)

  nested-done :
      (m : Machine Mem)
      → m.dev.state ≡ state_busy
      → (nested evt_job_done m ≡ returned (after_done m, ok))
        × (nested evt_cmd_done m ≡ returned (after_done m, ok))
        × (nested evt_error m ≡ returned (after_error m, ok))
  unfolding fsm_dispatch perform
  nested-done m h = rw h (refl, refl, refl)

  module _ (P : DeviceState → Type 0) (works : P state_ready) (fails : P state_error)
      (U : Type 0) where
    if-EndsIn :
        (b : Bool) (r s : Reply Mem) → EndsIn P U r → EndsIn P U s → EndsIn P U (if b then r else s)
    if-EndsIn true r s x y = x
    if-EndsIn false r s x y = y

    raise_error-EndsIn :
        (m : Machine Mem) (cause : ℕ)
        → m.dev.state ≡ state_busy
        → EndsIn P U (raise_error dma nested m cause)
    unfolding raise_error
    raise_error-EndsIn m cause h =
        rw (nested-done (add_error_cause m cause) h).2
          (subst (λ d. P d.state) (sym (trigger-dev _)) fails)

    job_done-EndsIn :
        (m : Machine Mem) → m.dev.state ≡ state_busy → EndsIn P U (job_done dma nested m)
    unfolding job_done
    job_done-EndsIn m h =
        rw (nested-done (add_irq_cause m irq_cause_job_done) h).0
          (subst (λ d. P d.state) (sym (trigger-dev _)) works)

    cmd_done-EndsIn :
        (m : Machine Mem) → m.dev.state ≡ state_busy → EndsIn P U (nested evt_cmd_done m)
    cmd_done-EndsIn m h =
        rw (nested-done m h).1 (subst (λ d. P d.state) (sym (trigger-dev _)) works)

    -- What the loop goes on with is busy.
    abbrev StaysBusy : {A : Type 0} → Next Mem A → Type 0
    StaysBusy (got m a) = m.dev.state ≡ state_busy
    StaysBusy (missed e) = Unit
    StaysBusy trapped = Unit

    read-StaysBusy : (m : Machine Mem) → m.dev.state ≡ state_busy → StaysBusy (dma_read_next dma m)
    unfolding dma_read_next
    read-StaysBusy m h = ground arith

    write-StaysBusy :
        (m : Machine Mem) (res : CqEntry)
        → m.dev.state ≡ state_busy
        → StaysBusy (dma_write_next dma m res)
    unfolding dma_write_next
    write-StaysBusy m res h = ground arith

    abbrev LoopEnds : (Machine Mem → Reply Mem) → Type 0
    LoopEnds again = (m : Machine Mem) → m.dev.state ≡ state_busy → EndsIn P U (again m)

    after_write-EndsIn :
        (again : Machine Mem → Reply Mem) (m : Machine Mem) (o : Next Mem Unit)
        → LoopEnds again
        → m.dev.state ≡ state_busy
        → StaysBusy o
        → EndsIn P U (after_write dma nested again m o)
    unfolding after_write
    after_write-EndsIn again m trapped l h k = tt
    after_write-EndsIn again m (got m' u) l h k = l m' k
    after_write-EndsIn again m (missed e) l h k =
        if-EndsIn (e == eagain) _ _ (l m h) (raise_error-EndsIn m err_cause_dma_write h)

    after_execute-EndsIn :
        (again : Machine Mem → Reply Mem) (m : Machine Mem) (r : Outcome (CqEntry × Ret))
        → LoopEnds again
        → m.dev.state ≡ state_busy
        → EndsIn P U (after_execute dma nested again m r)
    unfolding after_execute
    after_execute-EndsIn again m fault l h = tt
    after_execute-EndsIn again m (done res) l h =
        after_write-EndsIn again m (dma_write_next dma m res.0) l h (write-StaysBusy m res.0 h)

    after_read-EndsIn :
        (again : Machine Mem → Reply Mem) (m : Machine Mem) (o : Next Mem SqEntry)
        → LoopEnds again
        → m.dev.state ≡ state_busy
        → StaysBusy o
        → EndsIn P U (after_read dma nested again m o)
    unfolding after_read
    after_read-EndsIn again m trapped l h k = tt
    after_read-EndsIn again m (got m' cmd) l h k =
        after_execute-EndsIn again m' (execute_operation cmd) l k
    after_read-EndsIn again m (missed e) l h k =
        if-EndsIn (e == eagain) _ _ (job_done-EndsIn m h)
          (raise_error-EndsIn m err_cause_dma_read h)

    consume-EndsIn : U → (n : ℕ) → LoopEnds (consume_submission_queue dma nested n)
    unfolding consume_submission_queue
    consume-EndsIn u zero m h = u
    consume-EndsIn u (suc n) m h =
        after_read-EndsIn (consume_submission_queue dma nested n) m (dma_read_next dma m)
          (consume-EndsIn u n) h (read-StaysBusy m h)

    start_dma-EndsIn :
        U
        → (m : Machine Mem) → m.dev.state ≡ state_busy
        → EndsIn P U (start_dma dma nested rounds m)
    unfolding start_dma
    start_dma-EndsIn u m h =
        if-EndsIn (bit_and m.dev.flags flag_dma_enabled == 0) _ _
          (raise_error-EndsIn m err_cause_dma_disabled h)
          (if-EndsIn (m.dev.sq_base_addr == 0) _ _ (raise_error-EndsIn m err_cause_dma_bad_queue h)
            (if-EndsIn (m.dev.cq_base_addr == 0) _ _
              (raise_error-EndsIn m err_cause_dma_bad_queue h) (consume-EndsIn u rounds m h)))

    after_legacy-EndsIn :
        (m : Machine Mem) (r : Outcome (CqEntry × Ret))
        → m.dev.state ≡ state_busy
        → EndsIn P U (after_legacy dma nested m r)
    unfolding after_legacy
    after_legacy-EndsIn m fault h = tt
    after_legacy-EndsIn m (done (res, ok)) h = cmd_done-EndsIn _ h
    after_legacy-EndsIn m (done (res, failed e)) h = raise_error-EndsIn m err_cause_cmd_exec h

    do_legacy_job-EndsIn :
        (m : Machine Mem) → m.dev.state ≡ state_busy → EndsIn P U (do_legacy_job dma nested m)
    unfolding do_legacy_job
    do_legacy_job-EndsIn m h =
        if-EndsIn (m.dev.cmd == math_op_count) _ _ (raise_error-EndsIn m err_cause_cmd_unkown h)
          (after_legacy-EndsIn m _ h)

  EndsIn-IsMove :
      (m : Machine Mem) (evt : DeviceEvent) (r : Reply Mem)
      → EndsIn (Moves m.dev.state evt) (evt ≡ evt_submit_job) r
      → IsSubmit evt
      → IsMove m evt r
  EndsIn-IsMove m evt (returned (m', ok)) e i = e
  EndsIn-IsMove m evt (returned (m', failed c)) e i = absurd e
  EndsIn-IsMove m evt undefined e i = i
  EndsIn-IsMove m evt unfinished e i = e

  dispatch_from :
      (s : DeviceState) (evt : DeviceEvent) (m : Machine Mem)
      → s ≢ state_busy
      → let m' = record m { dev = record m.dev { state = s } } in
        IsMove m' evt (fsm_dispatch dma 2 rounds evt m')
  unfolding fsm_dispatch perform do_init do_reset
  dispatch_from state_reset evt_init m h = start
  dispatch_from state_reset evt_submit_job m h = (refl, refl, refl)
  dispatch_from state_reset evt_submit_cmd m h = (refl, refl, refl)
  dispatch_from state_reset evt_job_done m h = (refl, refl, refl)
  dispatch_from state_reset evt_cmd_done m h = (refl, refl, refl)
  dispatch_from state_reset evt_error m h = (refl, refl, refl)
  dispatch_from state_reset evt_reset m h = (refl, refl, refl)
  dispatch_from state_ready evt_init m h = (refl, refl, refl)
  dispatch_from state_ready evt_submit_job m h =
      EndsIn-IsMove _ evt_submit_job _
        (start_dma-EndsIn (Moves state_ready evt_submit_job) job_works job_fails
          (evt_submit_job ≡ evt_submit_job) refl
          (record m { dev = record m.dev { state = state_busy } }) refl)
        tt
  dispatch_from state_ready evt_submit_cmd m h =
      EndsIn-IsMove _ evt_submit_cmd _
        (do_legacy_job-EndsIn (Moves state_ready evt_submit_cmd) cmd_works cmd_fails
          (evt_submit_cmd ≡ evt_submit_job) (record m { dev = record m.dev { state = state_busy } })
          refl)
        tt
  dispatch_from state_ready evt_job_done m h = (refl, refl, refl)
  dispatch_from state_ready evt_cmd_done m h = (refl, refl, refl)
  dispatch_from state_ready evt_error m h =
      subst (λ d. Moves state_ready evt_error d.state) (sym (trigger-dev _)) breaks
  dispatch_from state_ready evt_reset m h = reset_ready
  dispatch_from state_busy evt m h = absurd (h refl)
  dispatch_from state_error evt_init m h = (refl, refl, refl)
  dispatch_from state_error evt_submit_job m h = (refl, refl, refl)
  dispatch_from state_error evt_submit_cmd m h = (refl, refl, refl)
  dispatch_from state_error evt_job_done m h = (refl, refl, refl)
  dispatch_from state_error evt_cmd_done m h = (refl, refl, refl)
  dispatch_from state_error evt_error m h = (refl, refl, refl)
  dispatch_from state_error evt_reset m h = reset_error

  -- An event that reaches the state machine between two calls, when the device is not busy, either
  -- succeeds and moves the device between the states reset, ready and error as `Moves` allows, or
  -- is refused with -EINVAL, has no entry in the table and changes nothing. In particular the device
  -- is never left busy. Undefined behaviour comes only from submitted work, and only a job can use
  -- up the rounds given to its loop.
  pub fsm_dispatch-IsMove :
      (evt : DeviceEvent) (m : Machine Mem)
      → m.dev.state ≢ state_busy
      → IsMove m evt (fsm_dispatch dma 2 rounds evt m)
  fsm_dispatch-IsMove evt m h = dispatch_from m.dev.state evt m h
