-- ===== src/Mathaccel/Fsm/Rounds.antt =====
-- The loop over the submission ring round by round, when the guest's memory answers every access.
use native.Mathlib.Nat.{mod-add-mod, add-mod_right, mod-eq_of_lt}
use qemu_devices_and_drivers.Base.{
  ℕ, zero, suc, ◌+◌, ◌-◌, ◌*◌, ◌%◌, ◌≤◌, ◌<◌, true, done, ◌≡◌, ◌≢◌, refl, ap, ap₂, sym, ◌∙◌, arith,
  ◌==◌, if◌then◌else◌, ==_ne, leb,
}
use qemu_devices_and_drivers.Words.{u64}
use qemu_devices_and_drivers.Mathaccel.Hw.{
  DeviceEvent, SqEntry, CqEntry, fetched, stored, Machine, GuestDma, Ret, unfinished, sq_entry_size,
  cq_entry_size,
}
use qemu_devices_and_drivers.Mathaccel.Compute.{execute_operation}
use qemu_devices_and_drivers.Mathaccel.Dma.{got, dma_read_next, dma_write_next}
use qemu_devices_and_drivers.Mathaccel.Fsm.{
  Reply, consume_submission_queue, after_write, after_execute, after_read, job_done,
}
use qemu_devices_and_drivers.Mathaccel.Fsm.Finish.{next_slot, waiting, IsRing, waiting-next}

-- Guest memory that every access reaches, where each entry is an operation that can be done.
pub record AlwaysWorks {Mem : Type 0} (dma : GuestDma Mem) : Type 0 where
  pub entry_at : Mem → ℕ → SqEntry
  pub result_of : SqEntry → CqEntry × Ret
  pub put : Mem → ℕ → CqEntry → Mem
  pub fetch_works : (mem : Mem) (a : ℕ) → dma.fetch mem a ≡ fetched (entry_at mem a)
  pub store_works :
      (mem : Mem) (a : ℕ) (res : CqEntry) → dma.store mem a res ≡ stored (put mem a res)
  pub execute_works :
      (mem : Mem) (a : ℕ) → execute_operation (entry_at mem a) ≡ done (result_of (entry_at mem a))

empty : (h t n : ℕ) → h < n → t < n → (if leb h t then t - h else t + n - h) ≡ 0 → (h == t) ≡ true
empty h t n lh lt e = ground arith

nonempty : (h t n k : ℕ) → (if leb h t then t - h else t + n - h) ≡ suc k → h < n → h ≢ t
nonempty h t n k e lh = ground arith

wrap-zero : (h n : ℕ) → h < n → h ≡ (h + 0) % n
wrap-zero h n l = sym (mod-eq_of_lt l) ∙ ap (λ x. x % n) (omega arith)

wrap-suc : (h k n : ℕ) → ((h + 1) % n + k) % n ≡ (h + suc k) % n
wrap-suc h k n = mod-add-mod (h + 1) n k ∙ ap (λ x. x % n) (omega arith)

-- The head meets the tail after as many slots as there are entries waiting.
meets : (h t n : ℕ) → h < n → t < n → (h + (if leb h t then t - h else t + n - h)) % n ≡ t
meets h t n lh lt =
    ground (arith, mod-eq_of_lt lt, add-mod_right t n, ap (λ x. x % n) (total h t n lh lt))
  where
    total :
        (h t n : ℕ)
        → h < n
        → t < n
        → h + (if leb h t then t - h else t + n - h) ≡ (if leb h t then t else t + n)
    total h t n lh lt = ground arith

module _ {Mem : Type 0} (dma : GuestDma Mem) (works : AlwaysWorks dma) (sq cq n : ℕ) where
  -- The memory after the results of `k` entries, for rings of `n` slots at `sq` and `cq`: the
  -- entries from slot `h` of the submission ring on are executed in order, and their results put
  -- from slot `t` of the completion ring on.
  abbrev pub answered : ℕ → ℕ → ℕ → Mem → Mem
  answered zero h t mem = mem
  answered (suc k) h t mem =
      let entry = works.entry_at mem (u64 (sq + h * sq_entry_size)) in
      answered k ((h + 1) % n) ((t + 1) % n)
        (works.put mem (u64 (cq + t * cq_entry_size)) (works.result_of entry).0)

module _ {Mem : Type 0} (dma : GuestDma Mem) (works : AlwaysWorks dma)
    (raise : DeviceEvent → Machine Mem → Reply Mem) where
  abbrev next_entry : Machine Mem → SqEntry
  next_entry m = works.entry_at m.memory (u64 (m.dev.sq_base_addr + m.dev.sq_head * sq_entry_size))

  -- The machine after an entry is read, and after a result is written.
  abbrev after_head : Machine Mem → Machine Mem
  after_head m = record m { dev = record m.dev { sq_head = (m.dev.sq_head + 1) % m.dev.ring_size } }

  abbrev after_tail : Machine Mem → CqEntry → Machine Mem
  after_tail m res = record m {
    dev = record m.dev { cq_tail = (m.dev.cq_tail + 1) % m.dev.ring_size };
    memory = works.put m.memory (u64 (m.dev.cq_base_addr + m.dev.cq_tail * cq_entry_size)) res;
  }

  read_lem :
      (m : Machine Mem)
      → m.dev.sq_head ≢ m.dev.sq_tail
      → m.dev.ring_size ≢ 0
      → dma_read_next dma m ≡ got (after_head m) (next_entry m)
  unfolding dma_read_next
  read_lem m h r =
      rw (==_ne m.dev.sq_head m.dev.sq_tail h, works.fetch_works, ==_ne m.dev.ring_size 0 r) refl

  write_lem :
      (m : Machine Mem) (res : CqEntry)
      → m.dev.ring_size ≢ 0
      → dma_write_next dma m res ≡ got (after_tail m res) tt
  unfolding dma_write_next
  write_lem m res r = ground (
    arith,
    works.store_works m.memory (u64 (m.dev.cq_base_addr + m.dev.cq_tail * cq_entry_size)) res,
  )

  -- The machine after one round.
  abbrev pub round : Machine Mem → Machine Mem
  round m = after_tail (after_head m) (works.result_of (next_entry m)).0

  consume-round :
      (n : ℕ) (m : Machine Mem)
      → m.dev.sq_head ≢ m.dev.sq_tail
      → m.dev.ring_size ≢ 0
      → consume_submission_queue dma raise (suc n) m
        ≡ consume_submission_queue dma raise n (round m)
  unfolding consume_submission_queue after_read after_execute after_write
  consume-round n m h r =
      ap (after_read dma raise again m) (read_lem m h r)
      ∙ ap (after_execute dma raise again (after_head m)) (works.execute_works m.memory _)
      ∙ ap (after_write dma raise again (after_head m)) (write_lem (after_head m) _ r)
    where
      again : Machine Mem → Reply Mem
      again = consume_submission_queue dma raise n

  -- When the tail that the guest wrote is not a slot of the ring, and the guest's memory answers
  -- every access with an entry that can be executed, the loop never ends: no number of rounds is
  -- enough. The head goes round the slots of the ring and never meets the tail.
  pub consume_submission_queue_stuck :
      (n : ℕ) (m : Machine Mem)
      → m.dev.sq_head < m.dev.ring_size
      → m.dev.ring_size ≤ m.dev.sq_tail
      → consume_submission_queue dma raise n m ≡ unfinished
  unfolding consume_submission_queue
  consume_submission_queue_stuck zero m h t = refl
  consume_submission_queue_stuck (suc n) m h t =
      consume-round n m (omega (arith, h, t)) (omega (arith, h))
      ∙ consume_submission_queue_stuck n (round m) (next_slot m.dev.sq_head m.dev.ring_size h).0 t

  abbrev serve : ℕ → Machine Mem → Machine Mem
  serve zero m = m
  serve (suc k) m = serve k (round m)

  consume-serve :
      (k n : ℕ) (m : Machine Mem)
      → IsRing m.dev
      → waiting m.dev ≡ k
      → k < n
      → consume_submission_queue dma raise n m ≡ job_done dma raise (serve k m)
  unfolding consume_submission_queue dma_read_next after_read
  consume-serve k zero m r w l = absurd (omega (arith, l))
  consume-serve zero (suc n) m r w l =
      rw (empty m.dev.sq_head m.dev.sq_tail m.dev.ring_size r.head_fits r.tail_fits w) refl
  consume-serve (suc k) (suc n) m r w l =
      let ne = nonempty m.dev.sq_head m.dev.sq_tail m.dev.ring_size k w r.head_fits in
      consume-round n m ne (omega (arith, r.head_fits))
      ∙ consume-serve k n (round m)
          (record {
            head_fits = (next_slot m.dev.sq_head m.dev.ring_size r.head_fits).0;
            tail_fits = r.tail_fits;
          })
          (omega (
            arith,
            w,
            waiting-next m.dev.sq_head m.dev.sq_tail m.dev.ring_size r.head_fits r.tail_fits ne,
          ))
          (omega (arith, l))

  -- The machine with other ends of the rings and another memory.
  abbrev moved : Machine Mem → ℕ → ℕ → Mem → Machine Mem
  moved m h t mem = record m { dev = record m.dev { sq_head = h; cq_tail = t }; memory = mem }

  serve-answered :
      (k : ℕ) (m : Machine Mem)
      → m.dev.sq_head < m.dev.ring_size
      → m.dev.cq_tail < m.dev.ring_size
      → serve k m
        ≡ moved m ((m.dev.sq_head + k) % m.dev.ring_size) ((m.dev.cq_tail + k) % m.dev.ring_size) (
            answered dma works m.dev.sq_base_addr m.dev.cq_base_addr m.dev.ring_size k m.dev.sq_head
              m.dev.cq_tail m.memory)
  serve-answered zero m h t =
      ap₂ (λ x y. moved m x y m.memory) (wrap-zero m.dev.sq_head m.dev.ring_size h)
        (wrap-zero m.dev.cq_tail m.dev.ring_size t)
  serve-answered (suc k) m h t =
      serve-answered k (round m) (next_slot m.dev.sq_head m.dev.ring_size h).0
        (next_slot m.dev.cq_tail m.dev.ring_size t).0
      ∙ ap₂
          (λ x y. moved m x y (
            answered dma works m.dev.sq_base_addr m.dev.cq_base_addr m.dev.ring_size (suc k)
              m.dev.sq_head m.dev.cq_tail m.memory))
          (wrap-suc m.dev.sq_head k m.dev.ring_size) (wrap-suc m.dev.cq_tail k m.dev.ring_size)

  -- The loop serves what waits, in order, and then reports the job done.
  pub consume-answered :
      (n : ℕ) (m : Machine Mem)
      → IsRing m.dev
      → m.dev.cq_tail < m.dev.ring_size
      → waiting m.dev < n
      → let k = waiting m.dev in
        consume_submission_queue dma raise n m
        ≡ job_done dma raise (
            moved m m.dev.sq_tail ((m.dev.cq_tail + k) % m.dev.ring_size) (
              answered dma works m.dev.sq_base_addr m.dev.cq_base_addr m.dev.ring_size k
                m.dev.sq_head m.dev.cq_tail m.memory))
  consume-answered n m r t l =
      consume-serve (waiting m.dev) n m r refl l
      ∙ ap (job_done dma raise) (serve-answered (waiting m.dev) m r.head_fits t)
      ∙ ap
          (λ h. job_done dma raise (
            moved m h ((m.dev.cq_tail + waiting m.dev) % m.dev.ring_size) (
              answered dma works m.dev.sq_base_addr m.dev.cq_base_addr m.dev.ring_size
                (waiting m.dev) m.dev.sq_head m.dev.cq_tail m.memory)))
          (meets m.dev.sq_head m.dev.sq_tail m.dev.ring_size r.head_fits r.tail_fits)
