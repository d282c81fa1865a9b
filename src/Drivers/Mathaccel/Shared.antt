-- ===== src/Drivers/Mathaccel/Shared.antt =====
-- The memory that the driver of qemu-drivers/mathaccel and the accelerator share: a request from the
-- process through both rings and back.
use qemu_devices_and_drivers.Base.{
  ℕ, zero, suc, ◌+◌, ◌-◌, ◌*◌, ◌%◌, ◌^◌, ◌<◌, ◌≤◌, ◌==◌, leb, if◌then◌else◌, some, done, ◌≡◌, ◌≢◌,
  ◌⊎◌, inl, inr, refl, sym, subst, Outcome, fault, ◌∙◌, ap, arith, bit_and, Bool-cases,
}
use qemu_devices_and_drivers.Words.{u32, u64}
use qemu_devices_and_drivers.Mathaccel.Hw.{
  SqEntry, CqEntry, sq_entry_size, cq_entry_size, MathDevice, Machine, GuestDma, Ret, returned,
  math_op_count, flag_int_enabled,
}
use qemu_devices_and_drivers.Mathaccel.Compute.{execute_operation}
use qemu_devices_and_drivers.Mathaccel.Fsm.{trigger}
use qemu_devices_and_drivers.Mathaccel.Fsm.Finish.{next_slot, waiting, waiting-next}
use qemu_devices_and_drivers.Mathaccel.Fsm.Rounds.{AlwaysWorks, answered}
use qemu_devices_and_drivers.Mathaccel.Bar.Doorbell.{IsSetUp, job_result}
use qemu_devices_and_drivers.Drivers.Mathaccel.{Req, World, HostDma}
use qemu_devices_and_drivers.Drivers.Mathaccel.Char.{waits_for, mathaccel_ioc_compute}
use qemu_devices_and_drivers.Drivers.Mathaccel.Ring.{
  IsDriverRing, in_flight, full-or-room, entry_for, rung, mathaccel_ioc_compute_lem,
}

-- The driver's mapping and the device's DMA reach one memory: the device reads the executable entry
-- that the driver has written, a result that the device writes elsewhere leaves an entry alone, and
-- the driver reads a result that the device has written.
pub record IsShared {Mem : Type 0} (host : HostDma Mem) (dma : GuestDma Mem)
    (works : AlwaysWorks dma) : Type 0 where
  pub written :
      (mem : Mem) (a : ℕ) (e : SqEntry) (r : CqEntry × Ret)
      → execute_operation e ≡ done r
      → works.entry_at (host.write_sq mem a e) a ≡ e
  pub kept :
      (mem : Mem) (a b : ℕ) (res : CqEntry)
      → (a + sq_entry_size ≤ b) ⊎ (b + cq_entry_size ≤ a)
      → works.entry_at (works.put mem b res) a ≡ works.entry_at mem a
  pub read_back : (mem : Mem) (a : ℕ) (res : CqEntry) → host.read_cq (works.put mem a res) a ≡ res

-- Two rings of `n` slots that fit into the address space and do not overlap.
pub record AreApart (sq cq n : ℕ) : Type 0 where
  pub sq_fits : sq + n * sq_entry_size ≤ 2 ^ 64
  pub cq_fits : cq + n * cq_entry_size ≤ 2 ^ 64
  pub apart : (sq + n * sq_entry_size ≤ cq) ⊎ (cq + n * cq_entry_size ≤ sq)

-- The device has the driver's rings, which are apart, and has read so much of them that there is room
-- for another entry.
pub record IsConnected {Mem : Type 0} (w : World Mem) : Type 0 where
  pub same_sq : w.machine.dev.sq_base_addr ≡ w.driver.sq_dma_addr
  pub same_cq : w.machine.dev.cq_base_addr ≡ w.driver.cq_dma_addr
  pub same_size : w.machine.dev.ring_size ≡ w.driver.ring_size
  pub rings : AreApart w.driver.sq_dma_addr w.driver.cq_dma_addr w.driver.ring_size
  pub room :
      suc (
        waiting
          (record w.machine.dev { sq_tail = w.driver.sq_tail; ring_size = w.driver.ring_size }))
      < w.driver.ring_size

-- The slot that is `k` after `h`.
abbrev pub slot : ℕ → ℕ → ℕ → ℕ
slot n zero h = h
slot n (suc k) h = slot n k ((h + 1) % n)

slot_fits : (n k h : ℕ) → h < n → slot n k h < n
slot_fits n zero h l = l
slot_fits n (suc k) h l = slot_fits n k ((h + 1) % n) (next_slot h n l).0

empty_ends : (h t n : ℕ) → h < n → t < n → (if leb h t then t - h else t + n - h) ≡ 0 → h ≡ t
empty_ends h t n lh lt e = ground arith

full_ends : (h t n k : ℕ) → h < n → (if leb h t then t - h else t + n - h) ≡ suc k → h ≢ t
full_ends h t n k lh e = ground arith

-- The last of the entries from `h` up to `t` is in slot `t`.
slot-ends :
    (n k h t : ℕ) → h < n → t < n → (if leb h t then t - h else t + n - h) ≡ k → slot n k h ≡ t
slot-ends n zero h t lh lt e = empty_ends h t n lh lt e
slot-ends n (suc k) h t lh lt e =
    slot-ends n k ((h + 1) % n) t (next_slot h n lh).0 lt
      (omega (arith, waiting-next h t n lh lt (full_ends h t n k lh e), e))

trigger-memory : {Mem : Type 0} (m : Machine Mem) → Machine.memory (trigger m) ≡ m.memory
trigger-memory m = elim (Bool-cases (bit_and m.dev.flags flag_int_enabled == 0)) [
  | inl e ↦ rw e refl
  | inr e ↦ rw e refl
]

trigger-dev : {Mem : Type 0} (m : Machine Mem) → Machine.dev (trigger m) ≡ m.dev
trigger-dev m = elim (Bool-cases (bit_and m.dev.flags flag_int_enabled == 0)) [
  | inl e ↦ rw e refl
  | inr e ↦ rw e refl
]

done_same : (a b : CqEntry × Ret) → ◌≡◌ {A = Outcome (CqEntry × Ret)} (done a) (done b) → a ≡ b
done_same a b e = ap result e
  where
    result : Outcome (CqEntry × Ret) → CqEntry × Ret
    result (done r) = r
    result fault = a

-- One more entry is waiting at the new tail.
one_more :
    (h t n : ℕ)
    → h < n
    → t < n
    → suc (if leb h t then t - h else t + n - h) < n
    → (if leb h ((t + 1) % n) then (t + 1) % n - h else (t + 1) % n + n - h)
      ≡ suc (if leb h t then t - h else t + n - h)
one_more h t n lh lt room = elim (full-or-room h t n lh lt) [
  | inl (full, count) ↦ absurd (omega (arith, count, room))
  | inr (free, more, fits, count) ↦ count
]

module _ {sq cq n : ℕ} (rings : AreApart sq cq n) where
  sq_word : (s : ℕ) → s < n → u64 (sq + s * sq_entry_size) ≡ sq + s * sq_entry_size
  sq_word s ls = omega (arith, ls, rings.sq_fits)

  cq_word : (t : ℕ) → t < n → u64 (cq + t * cq_entry_size) ≡ cq + t * cq_entry_size
  cq_word t lt = omega (arith, lt, rings.cq_fits)

  entries_apart :
      (s t : ℕ)
      → s < n
      → t < n
      → (u64 (sq + s * sq_entry_size) + sq_entry_size ≤ u64 (cq + t * cq_entry_size))
        ⊎ (u64 (cq + t * cq_entry_size) + cq_entry_size ≤ u64 (sq + s * sq_entry_size))
  entries_apart s t ls lt =
      rw (sq_word s ls, cq_word t lt)
        (elim rings.apart [
          | inl below ↦ inl (omega (arith, below, ls))
          | inr above ↦ inr (omega (arith, above, lt))
        ])

module _ {Mem : Type 0} (host : HostDma Mem) (dma : GuestDma Mem) (works : AlwaysWorks dma)
    (shared : IsShared host dma works) where
  -- The last result is put into its slot, and is that of the entry in its slot.
  answered-read_cq :
      (sq cq n : ℕ) (rings : AreApart sq cq n) (k h t : ℕ) (mem : Mem)
      → h < n
      → t < n
      → host.read_cq
          (answered dma works sq cq n (suc k) h t mem)
          (u64 (cq + slot n k t * cq_entry_size))
        ≡ (works.result_of (works.entry_at mem (u64 (sq + slot n k h * sq_entry_size)))).0
  answered-read_cq sq cq n rings zero h t mem lh lt = shared.read_back mem _ _
  answered-read_cq sq cq n rings (suc k) h t mem lh lt =
      let lh' = (next_slot h n lh).0 in
      answered-read_cq sq cq n rings k ((h + 1) % n) ((t + 1) % n) _ lh' (next_slot t n lt).0
      ∙ ap (λ e. (works.result_of e).0)
          (shared.kept mem _ _ _
            (entries_apart rings (slot n k ((h + 1) % n)) t (slot_fits n k _ lh') lt))

  -- The result of an entry that the driver has written as the last one.
  written-read_cq :
      (sq cq n : ℕ) (rings : AreApart sq cq n) (h last t : ℕ) (mem : Mem) (e : SqEntry)
      (r : CqEntry × Ret)
      → h < n
      → last < n
      → t < n
      → execute_operation e ≡ done r
      → let k = if leb h last then last - h else last + n - h in
        host.read_cq
          (answered dma works sq cq n (suc k) h t (host.write_sq mem (sq + last * sq_entry_size) e))
          (cq + slot n k t * cq_entry_size)
        ≡ r.0
  written-read_cq sq cq n rings h last t mem e r lh ll lt executes =
      let k = if leb h last then last - h else last + n - h in
      let mem' = host.write_sq mem (sq + last * sq_entry_size) e in
      let found : works.entry_at mem' (u64 (sq + slot n k h * sq_entry_size)) ≡ e =
        ap (λ s. works.entry_at mem' (u64 (sq + s * sq_entry_size)))
          (slot-ends n k h last lh ll refl)
        ∙ ap (λ a. works.entry_at mem' a) (sq_word rings last ll)
        ∙ shared.written mem (sq + last * sq_entry_size) e r executes in
      let executed : execute_operation e ≡ done (works.result_of e) =
        subst (λ x. execute_operation x ≡ done (works.result_of x)) found
          (works.execute_works mem' (u64 (sq + slot n k h * sq_entry_size))) in
      ap (λ a. host.read_cq (answered dma works sq cq n (suc k) h t mem') a)
        (sym (cq_word rings (slot n k t) (slot_fits n k t lt)))
      ∙ answered-read_cq sq cq n rings k h t mem' lh lt
      ∙ ap (λ x. (works.result_of x).0) found
      ∙ ap (λ (x : CqEntry × Ret). x.0) (done_same (works.result_of e) r (sym executed ∙ executes))

  -- A request whose operation can be executed, while the ring of the driver and that of the device
  -- have room, and the device is set up and ready, waits under its new command id, and the device has
  -- done its job: the entry that the driver wrote for the request was executed, and the driver reads
  -- its result in the completion ring, as many slots after the device's old tail as entries had been
  -- waiting before it. The driver and the device share one memory and the same rings, which do not
  -- overlap, every entry of the ring can be executed, no access to the memory fails, and there are more
  -- rounds than entries waiting.
  pub mathaccel_ioc_compute-read_cq :
      (rounds : ℕ) (w : World Mem) (req : Req) (r : CqEntry × Ret)
      → req.opcode < math_op_count
      → execute_operation (entry_for (record req { cmd_id = u32 (w.driver.cmdid_counter + 1) }))
        ≡ done r
      → IsDriverRing w.driver
      → suc (in_flight w.driver) < w.driver.ring_size
      → IsConnected w
      → IsSetUp (World.machine (rung host dma works rounds w req)).dev
      → waiting (World.machine (rung host dma works rounds w req)).dev < rounds
      → let n = w.driver.ring_size in
        let k =
          waiting
            (record w.machine.dev { sq_tail = w.driver.sq_tail; ring_size = w.driver.ring_size }) in
        (w' : World Mem) × (mathaccel_ioc_compute host dma rounds w (some req)
          ≡ returned (w', waits_for (u32 (w.driver.cmdid_counter + 1))))
        × (w'.driver ≡ World.driver (rung host dma works rounds w req))
        × (w'.machine.dev.sq_head ≡ (w.driver.sq_tail + 1) % n)
        × (host.read_cq w'.machine.memory
              (w'.driver.cq_dma_addr + slot n k w.machine.dev.cq_tail * cq_entry_size)
            ≡ r.0)
  mathaccel_ioc_compute-read_cq rounds w req r known executes ring room same set_up few =
      let m = World.machine (rung host dma works rounds w req) in
      let m' = job_result dma works m in
      let n = w.driver.ring_size in
      let h = w.machine.dev.sq_head in
      let k =
        waiting
          (record w.machine.dev { sq_tail = w.driver.sq_tail; ring_size = w.driver.ring_size }) in
      let head_fits : h < n = subst (λ j. h < j) same.same_size set_up.ring.head_fits in
      let count : waiting m.dev ≡ suc k =
        ap
          (λ (j : ℕ).
            if leb h ((w.driver.sq_tail + 1) % n)
            then (w.driver.sq_tail + 1) % n - h
            else (w.driver.sq_tail + 1) % n + j - h)
          same.same_size
        ∙ one_more h w.driver.sq_tail n head_fits ring.tail_fits same.room in
      (
        record (rung host dma works rounds w req) { machine = m' },
        mathaccel_ioc_compute_lem host dma works rounds w req known ring room set_up few,
        refl,
        ap (λ (d : MathDevice). d.sq_head) (trigger-dev _),
        ap
              (λ mem.
                host.read_cq mem
                  (w.driver.cq_dma_addr + slot n k w.machine.dev.cq_tail * cq_entry_size))
              (trigger-memory _ ∙ (λ i.
                answered dma works (same.same_sq i) (same.same_cq i) (same.same_size i) (count i)
                  w.machine.dev.sq_head w.machine.dev.cq_tail m.memory))
            ∙ written-read_cq w.driver.sq_dma_addr w.driver.cq_dma_addr n same.rings h
                w.driver.sq_tail w.machine.dev.cq_tail w.machine.memory _ r head_fits ring.tail_fits
                (subst (λ j. w.machine.dev.cq_tail < j) same.same_size set_up.cq_tail_fits)
                executes,
      )
