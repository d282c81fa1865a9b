-- ===== src/Tests/Accel.antt =====
-- The theorems of the accelerator's driver at concrete inputs. The memory is a list of results, as in
-- Tests/Mathaccel.antt, where a test does not need what the driver writes into its submission ring.
use qemu_devices_and_drivers.Base.{
  ℕ, none, some, List, ◌∷◌, ◌≡◌, refl, sym, ap, ◌∙◌, arith, Outcome, done, fault, ◌==◌,
  if◌then◌else◌, ◌+◌, ◌*◌, ==_iff, inl,
}
use qemu_devices_and_drivers.Words.Int.{pos, ◌+ℤ◌}
use qemu_devices_and_drivers.Mathaccel.Compute.{execute_operation}
use qemu_devices_and_drivers.Mathaccel.Fsm.Rounds.{AlwaysWorks}
use qemu_devices_and_drivers.Drivers.Mathaccel.Shared.{
  IsShared, IsConnected, slot, mathaccel_ioc_compute-read_cq,
}
use qemu_devices_and_drivers.Mathaccel.Hw.{
  SqEntry, CqEntry, cq_entry_size, GuestDma, fetched, stored, Ret, ok, returned,
}
use qemu_devices_and_drivers.Mathaccel.Bar.Doorbell.{IsSetUp}
use qemu_devices_and_drivers.Drivers.Mathaccel.{
  Req, MathDriver, World, HostDma, with_result, mathaccel_irq_handler,
}
use qemu_devices_and_drivers.Drivers.Mathaccel.Completion.{kthread_turn}
use qemu_devices_and_drivers.Drivers.Mathaccel.Char.{waits_for, mathaccel_ioc_compute}
use qemu_devices_and_drivers.Drivers.Mathaccel.Ring.{IsDriverRing, entry_for, rung}
use qemu_devices_and_drivers.Drivers.Mathaccel.Lost.{IsCombined, kthread_turn-combined}
use qemu_devices_and_drivers.Tests.Mathaccel.{sum_entry, sum_result, guest_runs, guest, machine}

abbrev host : HostDma (List (ℕ × CqEntry))
host = record {
  write_sq = λ mem a e. mem;
  read_cq = λ mem a. sum_result;
  write_cq = λ mem a e. (a, e) ∷ mem;
}

abbrev driver : MathDriver
driver = record {
  irq_cause = 0;
  legacy_comp_cause = 0;
  legacy_res = 0;
  legacy_wakeups = 0;
  cmdid_counter = 1;
  ring_size = 4;
  sq_dma_addr = 4096;
  cq_dma_addr = 8192;
  sq_tail = 3;
  sq_head = 3;
  cq_tail = 3;
  cq_head = 3;
  pending_submissions = λ id. none;
}

abbrev request : Req
request = record {
  opcode = 0;
  cmd_id = 0;
  arg_a = pos 2;
  arg_b = pos 3;
  result = pos 0;
  status = 0;
}

driver-IsDriverRing : IsDriverRing driver
driver-IsDriverRing = record {
  head_fits = omega arith;
  tail_fits = omega arith;
  size_fits = omega arith;
}

-- A memory that the driver and the device share: the entries, each with the result of its operation, and
-- the results.
abbrev Entry : Type 0
Entry = (e : SqEntry) × (r : CqEntry × Ret) × (execute_operation e ≡ done r)

abbrev SharedMemory : Type 0
SharedMemory = (ℕ → Entry) × (ℕ → CqEntry)

abbrev store_entry :
    (ℕ → Entry)
    → ℕ
    → (e : SqEntry) (o : Outcome (CqEntry × Ret)) → execute_operation e ≡ o
    → ℕ
    → Entry
store_entry entries a e (done r) p j = if j == a then (e, r, p) else entries j
store_entry entries a e fault p j = entries j

abbrev store_result : (ℕ → CqEntry) → ℕ → CqEntry → ℕ → CqEntry
store_result results a res j = if j == a then res else results j

abbrev result_or : Outcome (CqEntry × Ret) → CqEntry × Ret
result_or (done r) = r
result_or fault = (sum_result, ok)

abbrev shared_host : HostDma SharedMemory
shared_host = record {
  write_sq = λ mem a e. (store_entry mem.0 a e (execute_operation e) refl, mem.1);
  read_cq = λ mem a. mem.1 a;
  write_cq = λ mem a res. (mem.0, store_result mem.1 a res);
}

abbrev shared_guest : GuestDma SharedMemory
shared_guest = record {
  fetch = λ mem a. fetched (mem.0 a).0;
  store = λ mem a res. stored (mem.0, store_result mem.1 a res);
}

abbrev shared_works : AlwaysWorks shared_guest
shared_works = record {
  entry_at = λ mem a. (mem.0 a).0;
  result_of = λ e. result_or (execute_operation e);
  put = λ mem a res. (mem.0, store_result mem.1 a res);
  fetch_works = λ mem a. refl;
  store_works = λ mem a res. refl;
  execute_works = λ mem a. (mem.0 a).2 ∙ ap done (ap result_or (sym (mem.0 a).2));
}

stored_there :
    (entries : ℕ → Entry) (a : ℕ) (e : SqEntry) (r : CqEntry × Ret) (o : Outcome (CqEntry × Ret))
    (p : execute_operation e ≡ o)
    → o ≡ done r
    → (store_entry entries a e o p a).0 ≡ e
stored_there entries a e r (done r') p h = rw ((==_iff a a).1 refl) refl
stored_there entries a e r fault p h = ground arith

memory-IsShared : IsShared shared_host shared_guest shared_works
memory-IsShared = record {
  written = λ mem a e r h. stored_there mem.0 a e r (execute_operation e) refl h;
  kept = λ mem a b res h. refl;
  read_back = λ mem a res. rw ((==_iff a a).1 refl) refl;
}

abbrev world : World SharedMemory
world = record {
  driver = driver;
  machine = record {
    dev = machine.dev;
    memory = ((λ j. (sum_entry, (sum_result, ok), guest_runs)), (λ j. sum_result));
    irqs = 0;
  };
}

abbrev sum_of_request : CqEntry
sum_of_request = record { cmd_id = 2; status = 1; result = pos 5; valid = 1 }

request_runs :
    execute_operation (entry_for (record request { cmd_id = 2 })) ≡ done (sum_of_request, ok)
unfolding execute_operation ◌+ℤ◌
request_runs = refl

abbrev started : World SharedMemory
started = rung shared_host shared_guest shared_works 3 world request

started-IsSetUp : IsSetUp (World.machine started).dev
started-IsSetUp = record {
  is_ready = refl;
  ring = record { head_fits = omega arith; tail_fits = omega arith };
  cq_tail_fits = omega arith;
  dma_enabled = refl;
  sq_set = refl;
  cq_set = refl;
}

world-IsConnected : IsConnected world
world-IsConnected = record {
  same_sq = refl;
  same_cq = refl;
  same_size = refl;
  rings = record { sq_fits = omega arith; cq_fits = omega arith; apart = inl (omega arith) };
  room = omega arith;
}

compute_example :
    (w' : World SharedMemory) × (mathaccel_ioc_compute shared_host shared_guest 3 world
        (some request)
      ≡ returned (w', waits_for 2))
    × (w'.driver ≡ started.driver)
    × (w'.machine.dev.sq_head ≡ 0)
    × (shared_host.read_cq w'.machine.memory (w'.driver.cq_dma_addr + slot 4 0 3 * cq_entry_size)
        ≡ sum_of_request)
compute_example =
    mathaccel_ioc_compute-read_cq shared_host shared_guest shared_works memory-IsShared 3 world
      request (sum_of_request, ok) (omega arith) request_runs driver-IsDriverRing (omega arith)
      world-IsConnected started-IsSetUp (omega arith)

-- The device reports a command and a job at once.
abbrev both : World (List (ℕ × CqEntry))
both = record {
  driver = driver;
  machine = record machine { dev = record machine.dev { irq_cause = 3 } };
}

both-IsCombined : IsCombined 3
both-IsCombined = record {
  some_cause = omega arith;
  not_error = omega arith;
  not_cmd = omega arith;
  not_job = omega arith;
}

combined_example :
    with_result
      (mathaccel_irq_handler guest 3 both)
      (λ r. kthread_turn host guest 3 (λ m. returned m) r.0)
    ≡ returned (record { driver = driver; machine = machine })
combined_example = kthread_turn-combined host guest 3 (λ m. returned m) both both-IsCombined
