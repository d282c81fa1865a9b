-- ===== src/Drivers/Mathaccel/Consume.antt =====
-- qemu-drivers/mathaccel/irq.c: the loop over the completion ring ends.
use qemu_devices_and_drivers.Base.{
  ℕ, zero, suc, ◌+◌, ◌-◌, ◌%◌, ◌<◌, true, not, ◌&&◌, ◌==◌, leb, if◌then◌else◌, ◌≡◌, ◌≢◌, inl, inr,
  refl, sym, ◌∙◌, subst, Bool-cases, arith,
}
use qemu_devices_and_drivers.Mathaccel.Hw.{CqEntry, Result, returned}
use qemu_devices_and_drivers.Mathaccel.Fsm.Finish.{next_slot, waiting-next}
use qemu_devices_and_drivers.Drivers.Mathaccel.{MathDriver, World, HostDma}
use qemu_devices_and_drivers.Drivers.Mathaccel.Completion.{
  complete_pending, entry_of, consume_entry, consume_loop,
}

-- The slots from `h` up to `t` in a ring of `n`.
abbrev pub between : ℕ → ℕ → ℕ → ℕ
between h t n = if leb h t then t - h else t + n - h

complete_pending-ring_size :
    (d : MathDriver) (entry : CqEntry) → (complete_pending d entry).ring_size ≡ d.ring_size
unfolding complete_pending
complete_pending-ring_size d entry = ground arith

more-ne : (v h t : ℕ) → (not (v == 0) && not (h == t)) ≡ true → h ≢ t
more-ne v h t c = ground arith

closer :
    (h t n k : ℕ)
    → h < n
    → t < n
    → h ≢ t
    → between h t n < suc k
    → ((h + 1) % n < n) × (between ((h + 1) % n) t n < k)
closer h t n k lh lt ne few =
    ((next_slot h n lh).0, omega (arith, waiting-next h t n lh lt ne, few))

module _ {Mem : Type 0} (host : HostDma Mem) where
  entry-ring_size :
      (w : World Mem) (head : ℕ)
      → (World.driver (consume_entry host w head)).ring_size ≡ w.driver.ring_size
  unfolding consume_entry
  entry-ring_size w head = complete_pending-ring_size w.driver (entry_of host w head)

  -- The loop ends in a world with the ring size `n`, at a slot of the ring.
  abbrev pub EndsIn : ℕ → Result (World Mem × ℕ) → Type 0
  EndsIn n res =
      (r : World Mem × ℕ) × (res ≡ returned r) × (r.1 < n) × ((World.driver r.0).ring_size ≡ n)

  loop_ends :
      (n rounds : ℕ) (w : World Mem) (head tail : ℕ)
      → w.driver.ring_size ≡ n
      → head < n
      → tail < n
      → between head tail n < rounds
      → EndsIn n (consume_loop host rounds w head tail)
  unfolding consume_loop
  loop_ends n zero w head tail size lh lt few = absurd (omega (arith, few))
  loop_ends n (suc rounds) w head tail size lh lt few =
      elim (Bool-cases (not ((entry_of host w head).valid == 0) && not (head == tail))) [
        | inl c ↦
            let (fits, less) =
              closer head tail n rounds lh lt (more-ne (entry_of host w head).valid head tail c)
                few in
            let rest =
              loop_ends n rounds (consume_entry host w head) ((head + 1) % n) tail
                (entry-ring_size w head ∙ size) fits lt less in
            rw c (
              subst
                (λ s.
                  EndsIn n
                    (consume_loop host rounds (consume_entry host w head) ((head + 1) % s) tail))
                (sym size) rest)
        | inr c ↦ ((w, head), rw c refl, lh, size)
      ]

  -- The loop over the completion ring ends, whatever the entries say, when both its head and the
  -- tail are slots of the ring and it is given more rounds than there are slots from the head to the
  -- tail. The head is a slot of the ring again, whose size is the same.
  consume_loop_ends :
      (rounds : ℕ) (w : World Mem) (head tail : ℕ)
      → head < w.driver.ring_size
      → tail < w.driver.ring_size
      → between head tail w.driver.ring_size < rounds
      → EndsIn w.driver.ring_size (consume_loop host rounds w head tail)
  consume_loop_ends rounds w head tail = loop_ends w.driver.ring_size rounds w head tail refl
