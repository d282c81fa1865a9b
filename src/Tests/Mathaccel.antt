-- ===== src/Tests/Mathaccel.antt =====
-- The theorems of the math accelerator at concrete inputs. The guest's memory is the list of the
-- results it was given, and every entry of its submission ring adds 2 and 3.
use qemu_devices_and_drivers.Base.{ℕ, List, [], ◌∷◌, done, ◌≡◌, ◌≢◌, refl, arith}
use qemu_devices_and_drivers.Words.Int.{◌+ℤ◌, pos, negsuc}
use qemu_devices_and_drivers.Mathaccel.Hw.{
  state_ready, state_busy, evt_submit_job, MathDevice, Machine, GuestDma, fetched, stored, SqEntry,
  CqEntry, ok, returned, unfinished, reg_dma_sq_tail,
}
use qemu_devices_and_drivers.Mathaccel.Compute.{execute_operation}
use qemu_devices_and_drivers.Mathaccel.Compute.Divide.{int32_min}
use qemu_devices_and_drivers.Mathaccel.Fsm.{fsm_dispatch, consume_submission_queue}
use qemu_devices_and_drivers.Mathaccel.Fsm.Moves.{IsMove, fsm_dispatch-IsMove}
use qemu_devices_and_drivers.Mathaccel.Fsm.Finish.{IsRing, Finishes, f0_bar0_write-Finishes}
use qemu_devices_and_drivers.Mathaccel.Fsm.Rounds.{AlwaysWorks, consume_submission_queue_stuck}
use qemu_devices_and_drivers.Mathaccel.Bar.{f0_bar0_write}
use qemu_devices_and_drivers.Mathaccel.Bar.Doorbell.{IsSetUp, job_result, f0_bar0_write_doorbell}

abbrev pub sum_entry : SqEntry
sum_entry = record { opcode = 0; cmd_id = 1; arg_a = pos 2; arg_b = pos 3 }

abbrev pub sum_result : CqEntry
sum_result = record { cmd_id = 1; status = 1; result = pos 5; valid = 1 }

abbrev pub guest : GuestDma (List (ℕ × CqEntry))
guest = record { fetch = λ mem a. fetched sum_entry; store = λ mem a res. stored ((a, res) ∷ mem) }

pub guest_runs : execute_operation sum_entry ≡ done (sum_result, ok)
unfolding execute_operation ◌+ℤ◌
guest_runs = refl

abbrev pub guest_works : AlwaysWorks guest
guest_works = record {
  entry_at = λ mem a. sum_entry;
  result_of = λ entry. (sum_result, ok);
  put = λ mem a res. (a, res) ∷ mem;
  fetch_works = λ mem a. refl;
  store_works = λ mem a res. refl;
  execute_works = λ mem a. guest_runs;
}

abbrev ready : MathDevice
ready = record {
  cmd = 4;
  arg_a = pos 6;
  arg_b = pos 7;
  state = state_ready;
  flags = 3;
  irq_cause = 0;
  error_cause = 0;
  sq_base_addr = 4096;
  sq_head = 3;
  sq_tail = 3;
  cq_base_addr = 8192;
  cq_head = 3;
  cq_tail = 3;
  ring_size = 4;
}

abbrev pub machine : Machine (List (ℕ × CqEntry))
machine = record { dev = ready; memory = []; irqs = 0 }

-- The machine once the guest has written the tail 1: the entries of the slots 3 and 0 wait.
abbrev rung : Machine (List (ℕ × CqEntry))
rung = record machine { dev = record ready { sq_tail = 1 } }

rung-IsRing : IsRing rung.dev
rung-IsRing = record { head_fits = omega arith; tail_fits = omega arith }

rung-IsSetUp : IsSetUp rung.dev
rung-IsSetUp = record {
  is_ready = refl;
  ring = rung-IsRing;
  cq_tail_fits = omega arith;
  dma_enabled = refl;
  sq_set = refl;
  cq_set = refl;
}

doorbell_example :
    f0_bar0_write guest 3 machine 1 reg_dma_sq_tail
    ≡ returned (job_result guest guest_works rung, ok)
doorbell_example =
    f0_bar0_write_doorbell guest guest_works 3 machine 1 (omega arith) rung-IsSetUp (omega arith)

ready_ne_busy : state_ready ≢ state_busy
ready_ne_busy = ground arith

fsm_dispatch-IsMove_example :
    IsMove machine evt_submit_job (fsm_dispatch guest 2 3 evt_submit_job machine)
fsm_dispatch-IsMove_example = fsm_dispatch-IsMove guest 3 evt_submit_job machine ready_ne_busy

f0_bar0_write-Finishes_example : Finishes (f0_bar0_write guest 3 machine 1 reg_dma_sq_tail)
f0_bar0_write-Finishes_example =
    f0_bar0_write-Finishes guest 3 machine 1 (omega arith) rung-IsRing (omega arith)

abbrev overrun : Machine (List (ℕ × CqEntry))
overrun = record machine { dev = record ready { sq_tail = 9 } }

stuck_example : consume_submission_queue guest (fsm_dispatch guest 1 3) 100 overrun ≡ unfinished
stuck_example =
    consume_submission_queue_stuck guest guest_works (fsm_dispatch guest 1 3) 100 overrun
      (omega arith) (omega arith)

abbrev division : SqEntry
division = record { opcode = 3; cmd_id = 1; arg_a = int32_min; arg_b = negsuc 0 }
