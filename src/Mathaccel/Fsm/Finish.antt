-- ===== src/Mathaccel/Fsm/Finish.antt =====
-- Whether the loop over the submission ring comes to an end.
use native.Mathlib.Nat.{mod-eq_of_lt, mod_self}
use qemu_devices_and_drivers.Base.{
  ℕ, zero, suc, ◌+◌, ◌-◌, ◌%◌, ◌^◌, ◌<◌, bit_and, Bool, true, false, Outcome, done, fault, ◌≡◌, ◌≢◌,
  refl, arith, ◌==◌, if◌then◌else◌, leb, ◌⊎◌, inl, inr,
}
use qemu_devices_and_drivers.Words.{u16, u32}
use qemu_devices_and_drivers.Mathaccel.Hw.{
  DeviceState, state_busy, state_ready, state_reset, state_error, DeviceEvent, evt_submit_job,
  evt_job_done, evt_cmd_done, evt_error, irq_cause_job_done, flag_dma_enabled,
  err_cause_dma_disabled, err_cause_dma_bad_queue, reg_dma_sq_tail, MathDevice, SqEntry, CqEntry,
  Machine, GuestDma, Ret, returned, undefined, unfinished, eagain, err_cause_dma_read,
  err_cause_dma_write,
}
use qemu_devices_and_drivers.Mathaccel.Compute.{execute_operation}
use qemu_devices_and_drivers.Mathaccel.Dma.{
  Next, got, missed, trapped, dma_read_next, dma_write_next,
}
use qemu_devices_and_drivers.Mathaccel.Bar.{f0_bar0_write}
use qemu_devices_and_drivers.Mathaccel.Fsm.{
  Reply, consume_submission_queue, after_write, after_execute, after_read, job_done, raise_error,
  start_dma, fsm_dispatch, perform, add_irq_cause, add_error_cause,
}

-- The entries that wait in the submission ring.
abbrev pub waiting : MathDevice → ℕ
waiting d =
    if leb d.sq_head d.sq_tail then d.sq_tail - d.sq_head else d.sq_tail + d.ring_size - d.sq_head

-- Both ends of the ring are slots of it.
pub record IsRing (d : MathDevice) : Type 0 where
  pub head_fits : d.sq_head < d.ring_size
  pub tail_fits : d.sq_tail < d.ring_size

-- The loop came to an end, with a result or in undefined behaviour.
abbrev pub Finishes : {Mem : Type 0} → Reply Mem → Type 0
Finishes (returned r) = Unit
Finishes undefined = Unit
Finishes unfinished = ⊥

-- The slot after `h`.
pub next_slot :
    (h n : ℕ)
    → h < n
    → ((h + 1) % n < n)
      × (((h + 1 < n) × ((h + 1) % n ≡ h + 1)) ⊎ ((h + 1 ≡ n) × ((h + 1) % n ≡ 0)))
next_slot h n l = elim (lt-cases h n l) [
  | inl k ↦ (rw (mod-eq_of_lt k) k, inl (k, mod-eq_of_lt k))
  | inr e ↦ rw (e, mod_self n) (omega arith, inr (refl, refl))
]
  where
    lt-cases : (h n : ℕ) → h < n → (h + 1 < n) ⊎ (h + 1 ≡ n)
    lt-cases h n l = omega arith

pub waiting-next :
    (h t n : ℕ)
    → h < n
    → t < n
    → h ≢ t
    → suc (if leb ((h + 1) % n) t then t - (h + 1) % n else t + n - (h + 1) % n)
      ≡ (if leb h t then t - h else t + n - h)
waiting-next h t n lh lt ne = ground (arith, next_slot h n lh)

module _ {Mem : Type 0} (dma : GuestDma Mem) where
  -- An entry that is read leaves one less waiting.
  abbrev OneLess : {A : Type 0} → MathDevice → Next Mem A → Type 0
  OneLess d (got m a) = IsRing m.dev × (suc (waiting m.dev) ≡ waiting d)
  OneLess d (missed e) = Unit
  OneLess d trapped = Unit

  abbrev SameRing : {A : Type 0} → MathDevice → Next Mem A → Type 0
  SameRing d (got m a) = IsRing m.dev × (waiting m.dev ≡ waiting d)
  SameRing d (missed e) = Unit
  SameRing d trapped = Unit

  read-OneLess : (m : Machine Mem) → IsRing m.dev → OneLess m.dev (dma_read_next dma m)
  unfolding dma_read_next
  read-OneLess m r = ground (
    arith,
    waiting-next m.dev.sq_head m.dev.sq_tail m.dev.ring_size r.head_fits r.tail_fits,
    next_slot m.dev.sq_head m.dev.ring_size r.head_fits,
  )

  write-SameRing :
      (m : Machine Mem) (res : CqEntry) → IsRing m.dev → SameRing m.dev (dma_write_next dma m res)
  unfolding dma_write_next
  write-SameRing m res r = ground arith

module _ {Mem : Type 0} (dma : GuestDma Mem) (rounds : ℕ) where
  abbrev nested : DeviceEvent → Machine Mem → Reply Mem
  nested = fsm_dispatch dma 1 rounds

  if-Finishes :
      (b : Bool) (r s : Reply Mem) → Finishes r → Finishes s → Finishes (if b then r else s)
  if-Finishes true r s x y = x
  if-Finishes false r s x y = y

  nested-Finishes :
      (s : DeviceState) (m : Machine Mem)
      → let m' = record m { dev = record m.dev { state = s } } in
        Finishes (nested evt_job_done m')
        × Finishes (nested evt_cmd_done m')
        × Finishes (nested evt_error m')
  unfolding fsm_dispatch perform
  nested-Finishes state_reset m = (tt, tt, tt)
  nested-Finishes state_ready m = (tt, tt, tt)
  nested-Finishes state_busy m = (tt, tt, tt)
  nested-Finishes state_error m = (tt, tt, tt)

  raise_error-Finishes : (m : Machine Mem) (cause : ℕ) → Finishes (raise_error dma nested m cause)
  unfolding raise_error
  raise_error-Finishes m cause = (nested-Finishes m.dev.state (add_error_cause m cause)).2

  job_done-Finishes : (m : Machine Mem) → Finishes (job_done dma nested m)
  unfolding job_done
  job_done-Finishes m = (nested-Finishes m.dev.state (add_irq_cause m irq_cause_job_done)).0

  -- What is left of the loop finishes when fewer than `n` entries wait.
  abbrev LoopFinishes : ℕ → (Machine Mem → Reply Mem) → Type 0
  LoopFinishes n again = (m : Machine Mem) → IsRing m.dev → waiting m.dev < n → Finishes (again m)

  after_write-Finishes :
      (n : ℕ) (again : Machine Mem → Reply Mem) (m : Machine Mem) (o : Next Mem Unit)
      → LoopFinishes n again
      → IsRing m.dev
      → waiting m.dev < n
      → SameRing dma m.dev o
      → Finishes (after_write dma nested again m o)
  unfolding after_write
  after_write-Finishes n again m trapped l r w k = tt
  after_write-Finishes n again m (got m' u) l r w k = l m' k.0 (rw k.1 w)
  after_write-Finishes n again m (missed e) l r w k =
      if-Finishes (e == eagain) _ _ (l m r w) (raise_error-Finishes m err_cause_dma_write)

  after_execute-Finishes :
      (n : ℕ) (again : Machine Mem → Reply Mem) (m : Machine Mem) (o : Outcome (CqEntry × Ret))
      → LoopFinishes n again
      → IsRing m.dev
      → waiting m.dev < n
      → Finishes (after_execute dma nested again m o)
  unfolding after_execute
  after_execute-Finishes n again m fault l r w = tt
  after_execute-Finishes n again m (done res) l r w =
      after_write-Finishes n again m (dma_write_next dma m res.0) l r w
        (write-SameRing dma m res.0 r)

  after_read-Finishes :
      (n : ℕ) (again : Machine Mem → Reply Mem) (m : Machine Mem) (o : Next Mem SqEntry)
      → LoopFinishes n again
      → waiting m.dev < suc n
      → OneLess dma m.dev o
      → Finishes (after_read dma nested again m o)
  unfolding after_read
  after_read-Finishes n again m trapped l w k = tt
  after_read-Finishes n again m (missed e) l w k =
      if-Finishes (e == eagain) _ _ (job_done-Finishes m)
        (raise_error-Finishes m err_cause_dma_read)
  after_read-Finishes n again m (got m' cmd) l w k =
      after_execute-Finishes n again m' (execute_operation cmd) l k.0 (omega (arith, k.1, w))

  consume-Finishes : (n : ℕ) → LoopFinishes n (consume_submission_queue dma nested n)
  unfolding consume_submission_queue
  consume-Finishes zero m r w = absurd (omega (arith, w))
  consume-Finishes (suc n) m r w =
      after_read-Finishes n (consume_submission_queue dma nested n) m (dma_read_next dma m)
        (consume-Finishes n) w (read-OneLess dma m r)

  start_dma-Finishes :
      (m : Machine Mem)
      → IsRing m.dev
      → waiting m.dev < rounds
      → Finishes (start_dma dma nested rounds m)
  unfolding start_dma
  start_dma-Finishes m r w =
      if-Finishes (bit_and m.dev.flags flag_dma_enabled == 0) _ _
        (raise_error-Finishes m err_cause_dma_disabled)
        (if-Finishes (m.dev.sq_base_addr == 0) _ _ (raise_error-Finishes m err_cause_dma_bad_queue)
          (if-Finishes (m.dev.cq_base_addr == 0) _ _
            (raise_error-Finishes m err_cause_dma_bad_queue) (consume-Finishes rounds m r w)))

  submit_from :
      (s : DeviceState) (m : Machine Mem)
      → IsRing m.dev
      → waiting m.dev < rounds
      → Finishes
          (fsm_dispatch dma 2 rounds evt_submit_job (record m { dev = record m.dev { state = s } }))
  unfolding fsm_dispatch perform
  submit_from state_reset m r w = tt
  submit_from state_ready m r w =
      start_dma-Finishes (record m { dev = record m.dev { state = state_busy } })
        (record { head_fits = r.head_fits; tail_fits = r.tail_fits }) w
  submit_from state_busy m r w = tt
  submit_from state_error m r w = tt

  tail_word : (t : ℕ) → t < 2 ^ 16 → u16 (u32 t) ≡ t
  tail_word t h = omega arith

  -- Ringing the doorbell of the submission ring always comes to an end, with a result or in
  -- undefined behaviour, whatever the guest's memory holds and whatever part of the DMA fails, when
  -- the tail that the guest writes is a slot of the ring and the head is one. More rounds than there
  -- are entries waiting are enough.
  pub f0_bar0_write-Finishes :
      (m : Machine Mem) (tail : ℕ)
      → tail < 2 ^ 16
      → let d = record m.dev { sq_tail = tail } in
        IsRing d → waiting d < rounds → Finishes (f0_bar0_write dma rounds m tail reg_dma_sq_tail)
  unfolding f0_bar0_write
  f0_bar0_write-Finishes m tail h r w =
      rw (tail_word tail h)
        (submit_from m.dev.state (record m { dev = record m.dev { sq_tail = tail } }) r w)
