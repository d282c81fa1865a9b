-- ===== src/Drivers/Mathaccel/Ring.antt =====
-- The driver's submission ring, and a request from the process to the completion ring.
use native.Mathlib.Nat.{mod-eq_of_lt}
use qemu_devices_and_drivers.Base.{
  ℕ, suc, ◌+◌, ◌-◌, ◌*◌, ◌%◌, ◌^◌, ◌<◌, true, false, ◌==◌, leb, if◌then◌else◌, some, ◌≡◌, ◌⊎◌, inl,
  inr, refl, ◌∙◌, ap, ap₂, arith,
}
use qemu_devices_and_drivers.Words.{u32}
use qemu_devices_and_drivers.Mathaccel.Hw.{
  SqEntry, sq_entry_size, Machine, GuestDma, ok, returned, math_op_count, reg_dma_sq_tail,
}
use qemu_devices_and_drivers.Mathaccel.Fsm.Finish.{next_slot, waiting}
use qemu_devices_and_drivers.Mathaccel.Fsm.Rounds.{AlwaysWorks}
use qemu_devices_and_drivers.Mathaccel.Bar.{f0_bar0_access, f0_bar0_write}
use qemu_devices_and_drivers.Mathaccel.Bar.Doorbell.{IsSetUp, job_result, f0_bar0_write_doorbell}
use qemu_devices_and_drivers.Drivers.Mathaccel.{
  Req, MathDriver, World, HostDma, Submitted, at_index, refused, ebusy, xa_store, with_result,
  mathaccel_submit_one_cmd, mathaccel_start_dma_job, math_writel,
}
use qemu_devices_and_drivers.Drivers.Mathaccel.Char.{waits_for, after_submit, mathaccel_ioc_compute}

-- Both ends of the driver's ring are slots of it.
pub record IsDriverRing (d : MathDriver) : Type 0 where
  pub head_fits : d.sq_head < d.ring_size
  pub tail_fits : d.sq_tail < d.ring_size
  pub size_fits : d.ring_size < 2 ^ 16

-- The entries that the driver takes to be in the submission ring.
abbrev pub in_flight : MathDriver → ℕ
in_flight d =
    if leb d.sq_head d.sq_tail then d.sq_tail - d.sq_head else d.sq_tail + d.ring_size - d.sq_head

pub full-or-room :
    (h t n : ℕ)
    → h < n
    → t < n
    → let k = if leb h t then t - h else t + n - h in
      let t' = (t + 1) % n in
      (((t' == h) ≡ true) × (suc k ≡ n))
      ⊎ (((t' == h) ≡ false)
          × (suc k < n)
          × (t' < n)
          × ((if leb h t' then t' - h else t' + n - h) ≡ suc k))
full-or-room h t n lh lt = ground (arith, next_slot t n lt)

-- The entry of a request.
abbrev pub entry_for : Req → SqEntry
entry_for req = record {
  opcode = req.opcode;
  cmd_id = req.cmd_id;
  arg_a = req.arg_a;
  arg_b = req.arg_b;
}

module _ {Mem : Type 0} (host : HostDma Mem) where
  -- The world after a request was put into the ring.
  abbrev pub submitted : World Mem → Req → World Mem
  submitted w req = record {
    driver = record w.driver { sq_tail = (w.driver.sq_tail + 1) % w.driver.ring_size };
    machine = record w.machine {
      memory =
          host.write_sq w.machine.memory (w.driver.sq_dma_addr + w.driver.sq_tail * sq_entry_size)
            (entry_for req);
    };
  }

  -- The world with a tail and an entry in a slot.
  abbrev placed : World Mem → Req → ℕ → ℕ → World Mem × Submitted
  placed w req tail slot = (
    record {
      driver = record w.driver { sq_tail = tail };
      machine = record w.machine {
        memory =
            host.write_sq w.machine.memory (w.driver.sq_dma_addr + slot * sq_entry_size)
              (entry_for req);
      };
    },
    at_index w.driver.sq_tail,
  )

  submit_room :
      (w : World Mem) (req : Req)
      → IsDriverRing w.driver
      → ((w.driver.sq_tail + 1) % w.driver.ring_size == w.driver.sq_head) ≡ false
      → (w.driver.sq_tail + 1) % w.driver.ring_size < w.driver.ring_size
      → mathaccel_submit_one_cmd host w req ≡ (submitted w req, at_index w.driver.sq_tail)
  unfolding mathaccel_submit_one_cmd
  submit_room w req r free fits =
      rw free (ap₂ (placed w req) (omega (arith, fits, r.size_fits)) (mod-eq_of_lt r.tail_fits))

  -- The driver puts a request into its ring exactly when a slot besides one is free: with one slot
  -- left it refuses with -EBUSY and changes nothing. Otherwise the entry of the request is at the
  -- tail, whose index is the result, one more entry is in flight, and both ends are slots of the
  -- ring again.
  mathaccel_submit_one_cmd_lem :
      (w : World Mem) (req : Req)
      → IsDriverRing w.driver
      → ((suc (in_flight w.driver) ≡ w.driver.ring_size)
          × (mathaccel_submit_one_cmd host w req ≡ (w, refused ebusy)))
        ⊎ ((suc (in_flight w.driver) < w.driver.ring_size)
            × (mathaccel_submit_one_cmd host w req ≡ (submitted w req, at_index w.driver.sq_tail))
            × (in_flight (World.driver (submitted w req)) ≡ suc (in_flight w.driver))
            × IsDriverRing (World.driver (submitted w req)))
  unfolding mathaccel_submit_one_cmd
  mathaccel_submit_one_cmd_lem w req r =
      elim (full-or-room w.driver.sq_head w.driver.sq_tail w.driver.ring_size r.head_fits
        r.tail_fits) [
          | inl (full, count) ↦ inl (count, rw full refl)
          | inr (free, room, fits, count) ↦ inr (
            room,
            submit_room w req r free fits,
            count,
            record { head_fits = r.head_fits; tail_fits = fits; size_fits = r.size_fits },
          )
        ]

free_slot :
    (d : MathDriver)
    → IsDriverRing d
    → suc (in_flight d) < d.ring_size
    → (((d.sq_tail + 1) % d.ring_size == d.sq_head) ≡ false)
      × ((d.sq_tail + 1) % d.ring_size < d.ring_size)
free_slot d r room = elim (full-or-room d.sq_head d.sq_tail d.ring_size r.head_fits r.tail_fits) [
  | inl (full, count) ↦ absurd (omega (arith, count, room))
  | inr (free, more, fits, count) ↦ (free, fits)
]

module _ {Mem : Type 0} (dma : GuestDma Mem) (rounds : ℕ) where
  -- A register write that the device takes.
  math_writel_lem :
      (w : World Mem) (m : Machine Mem) (value offset : ℕ)
      → f0_bar0_write dma rounds w.machine value offset ≡ returned (m, ok)
      → math_writel dma rounds w value offset ≡ returned (record w { machine = m })
  unfolding math_writel f0_bar0_access
  math_writel_lem w m value offset h = rw h refl

-- The driver after it has given a request its id and made it pending.
abbrev pub registered : MathDriver → Req → MathDriver
registered d req =
    let cmd_id = u32 (d.cmdid_counter + 1) in
    record d {
      cmdid_counter = cmd_id;
      pending_submissions =
          xa_store d.pending_submissions cmd_id
            (some (record { req = record req { cmd_id = cmd_id }; done = false; cause = 0 }));
    }

module _ {Mem : Type 0} (host : HostDma Mem) (dma : GuestDma Mem) (works : AlwaysWorks dma)
    (rounds : ℕ) where
  -- The world when the doorbell is rung.
  abbrev pub rung : World Mem → Req → World Mem
  rung w req =
      let w' =
        submitted host (record w { driver = registered w.driver req })
          (record req { cmd_id = u32 (w.driver.cmdid_counter + 1) }) in
      record w' {
        machine = record w'.machine {
          dev = record w'.machine.dev { sq_tail = (w.driver.sq_tail + 1) % w.driver.ring_size };
        };
      }

  -- A request for a known operation, while the ring has room and the device is set up and ready,
  -- waits under its new command id, and the device has done its job: every entry up to the
  -- request's own was executed and its result put into the completion ring.
  pub mathaccel_ioc_compute_lem :
      (w : World Mem) (req : Req)
      → req.opcode < math_op_count
      → IsDriverRing w.driver
      → suc (in_flight w.driver) < w.driver.ring_size
      → IsSetUp (World.machine (rung w req)).dev
      → waiting (World.machine (rung w req)).dev < rounds
      → mathaccel_ioc_compute host dma rounds w (some req)
        ≡ returned (
          record (rung w req) { machine = job_result dma works (World.machine (rung w req)) },
          waits_for (u32 (w.driver.cmdid_counter + 1)),
        )
  unfolding mathaccel_ioc_compute after_submit mathaccel_start_dma_job
  mathaccel_ioc_compute_lem w req known r room set_up few =
      let id = u32 (w.driver.cmdid_counter + 1) in
      let w₁ = record w { driver = registered w.driver req } in
      let req' = record req { cmd_id = id } in
      let w₂ = submitted host w₁ req' in
      let next = (w.driver.sq_tail + 1) % w.driver.ring_size in
      let (free, fits) = free_slot w.driver r room in
      let r₁ : IsDriverRing (registered w.driver req) = record {
        head_fits = r.head_fits;
        tail_fits = r.tail_fits;
        size_fits = r.size_fits;
      } in
      rw not_refused (
        ap (after_submit host dma rounds id) (submit_room host w₁ req' r₁ free fits)
        ∙ ap (λ res. with_result res (λ w'. returned (w', waits_for id)))
            (math_writel_lem dma rounds w₂ (job_result dma works (World.machine (rung w req))) next
              reg_dma_sq_tail
              (f0_bar0_write_doorbell dma works rounds w₂.machine next
                (omega (arith, fits, r.size_fits)) set_up few)))
    where
      not_refused : leb math_op_count req.opcode ≡ false
      not_refused = ground arith
