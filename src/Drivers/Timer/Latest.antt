-- ===== src/Drivers/Timer/Latest.antt =====
-- The timer's work and the comparator look at the latest deadline.
use qemu_devices_and_drivers.Base.{
  ℕ, zero, suc, ◌^◌, ◌≤◌, ◌<◌, leb, true, Option, none, some, [], ◌∷◌, length, ◌≡◌, ◌⊎◌, inl, inr,
  refl, sym, ◌∙◌, ap, subst, Bool-cases, arith,
}
use qemu_devices_and_drivers.Words.{sub64}
use qemu_devices_and_drivers.Lux.Device.{reg_timer_time}
use qemu_devices_and_drivers.Mathaccel.Hw.{Result, returned, unfinished}
use qemu_devices_and_drivers.Drivers.Clockevent.{mgmt_readq}
use qemu_devices_and_drivers.Drivers.Timer.{
  Subscriber, RbLibrary, IsRbLibrary, LuxClock, RbRoot, In, inorder, remove, queued, key_of, first,
}
use qemu_devices_and_drivers.Drivers.Clockevent.Events.{write_cmp_lem, set_ctrl_lem}
use qemu_devices_and_drivers.Drivers.Timer.Fops.{
  lux_timer_read_virtual_time, lux_reprogram_timer, reprogram_for,
}
use qemu_devices_and_drivers.Drivers.Timer.Queue.{lux_timer_enqueue}
use qemu_devices_and_drivers.Drivers.Timer.Work.{
  expire, after_erase, round, work_loop, after_loop, lux_timer_work_func,
}
use qemu_devices_and_drivers.Drivers.Timer.Order.{insert_descending, All}
use qemu_devices_and_drivers.Drivers.Timer.Enqueue.{
  in_tree_of, IsQueue, erase_lem, enqueue_self, lux_timer_enqueue_lem,
}
use qemu_devices_and_drivers.Drivers.Timer.Members.{first-In, first-largest, In-All}
use qemu_devices_and_drivers.Drivers.Timer.Served.{
  served, notified, notified_self, serve_lem, notified-IsQueueWithout, announce_keeps, expired,
}
use qemu_devices_and_drivers.Drivers.Timer.Loop.{
  round_later, round_due, Due, outcome, work_loop_oneshot,
}

-- The work looks at the latest deadline first: as long as the deadline of any queued subscriber is
-- still to come, it serves nobody, whatever other deadlines have passed, and only programs the
-- device again.
pub lux_timer_work_func_waits :
    (lib : RbLibrary) (c : LuxClock) (j rounds : ℕ)
    → IsQueue c
    → In j (queued c)
    → mgmt_readq c.f1 reg_timer_time < key_of c j
    → lux_timer_work_func lib (suc rounds) c ≡ returned (lux_reprogram_timer c)
unfolding lux_timer_work_func work_loop after_loop
lux_timer_work_func_waits lib c j rounds q m h =
    let (id, head, largest) = first-largest (key_of c) (queued c) j q.ordered m in
    let now = mgmt_readq c.f1 reg_timer_time in
    let again = work_loop lib rounds now in
    ap after_loop (
      ap (round lib again now c) (q.leftmost ∙ head)
      ∙ round_later lib now again c id (omega (arith, h, largest)))

pub reprogram_keeps :
    (c : LuxClock) (o : Option ℕ)
    → ((reprogram_for c o).subscribers_of ≡ c.subscribers_of)
      × ((reprogram_for c o).subscribers ≡ c.subscribers)
unfolding reprogram_for
reprogram_keeps c none = (refl, refl)
reprogram_keeps c (some id) = ground arith

-- When every queued subscriber is a one-shot alarm whose deadline has passed, the work ends after
-- as many rounds as there are subscribers, and one more. It serves each of them once, changes no
-- other, and leaves the queue empty.
pub lux_timer_work_func_oneshot :
    (lib : RbLibrary) (works : IsRbLibrary lib) (rounds : ℕ) (c : LuxClock)
    → IsQueue c
    → length (queued c) < rounds
    → All (Due (mgmt_readq c.f1 reg_timer_time) c) (queued c)
    → (c' : LuxClock) × (lux_timer_work_func lib rounds c ≡ returned c')
      × (queued c' ≡ [])
      × ((j : ℕ) → c'.subscribers_of j ≡ outcome c.subscribers_of (queued c) j)
unfolding lux_timer_work_func after_loop lux_reprogram_timer
lux_timer_work_func_oneshot lib works rounds c q h due =
    let now = mgmt_readq c.f1 reg_timer_time in
    let (c', eq, nil, all) = work_loop_oneshot lib works now rounds c q h due in
    let (subs, root) = reprogram_keeps c' c'.subscribers.rb_leftmost in
    (
      lux_reprogram_timer c',
      ap after_loop eq,
      ap (λ r. inorder (RbRoot.rb_root r)) root ∙ nil,
      λ j. ap (λ (f : ℕ → Subscriber). f j) subs ∙ all j,
    )

-- A periodic subscriber whose period is 0 and whose deadline has passed.
pub record Spins (now : ℕ) (sub : Subscriber) : Type 0 where
  pub is_periodic : sub.periodic ≡ true
  pub no_period : sub.periodic_delta ≡ 0
  pub deadline_fits : sub.deadline < 2 ^ 64
  pub physical : sub.phys_deadline ≡ sub64 sub.deadline sub.time_offset
  pub passed : sub.phys_deadline ≤ now

served-Spins : (now : ℕ) (sub : Subscriber) → Spins now sub → Spins now (served sub)
unfolding expire
served-Spins now sub s = ground arith

-- It is alone in the queue.
abbrev pub SpinsAlone : ℕ → LuxClock → ℕ → Type 0
SpinsAlone now c id = IsQueue c × (queued c ≡ id ∷ []) × Spins now (c.subscribers_of id)

module _ (lib : RbLibrary) (works : IsRbLibrary lib) (now : ℕ) where
  -- A round serves it, and queues it again with the same deadline.
  spins_on :
      (again : LuxClock → Result LuxClock) (c : LuxClock) (id : ℕ)
      → SpinsAlone now c id
      → (c' : LuxClock) × (round lib again now c c.subscribers.rb_leftmost ≡ again c')
        × SpinsAlone now c' id
  unfolding after_erase insert_descending lux_timer_enqueue
  spins_on again c id s =
      let m = first-In (queued c) id (ap first s.1) in
      let in_tree = In-All (λ j. in_tree_of c j ≡ true) id (queued c) s.0.marked m in
      let (erased, left, without) = erase_lem lib works c id s.0 in_tree in
      let c₁ = record c { subscribers = lib.erase_cached id c.subscribers } in
      let c₂ = notified lib c₁ id in
      let (list, q) =
        lux_timer_enqueue_lem lib works c₂ id (notified-IsQueueWithout lib c₁ id without) in
      (
        lux_timer_enqueue lib c₂ id,
        ap (round lib again now c) (s.0.leftmost ∙ ap first s.1)
            ∙ round_due lib now again c id s.2.passed
            ∙ ap (after_erase lib again id) erased
            ∙ ap again (serve_lem lib c₁ id true s.2.is_periodic),
        (
          q,
          list ∙ ap (insert_descending (key_of c₂) id) (empty left),
          subst (Spins now) (sym (enqueue_self lib c₂ id)) (
              linked-Spins _
                (subst (Spins now) (sym (notified_self lib c₁ id)) (served-Spins now _ s.2))),
        ),
      )
    where
      linked-Spins : (sub : Subscriber) → Spins now sub → Spins now (record sub { in_tree = true })
      linked-Spins sub s = ground arith

      remove_alone : remove id (id ∷ []) ≡ []
      remove_alone = ground arith

      empty :
          (let c₁ = record c { subscribers = lib.erase_cached id c.subscribers } in
            queued c₁ ≡ remove id (queued c) → queued (notified lib c₁ id) ≡ [])
      empty left =
          let c₁ = record c { subscribers = lib.erase_cached id c.subscribers } in
          ap (λ r. inorder (RbRoot.rb_root r)) (announce_keeps lib c₁ id (expired lib c₁ id)).1
          ∙ left
          ∙ ap (remove id) s.1
          ∙ remove_alone

  work_loop_spins :
      (rounds : ℕ) (c : LuxClock) (id : ℕ)
      → SpinsAlone now c id
      → work_loop lib rounds now c ≡ unfinished
  unfolding work_loop
  work_loop_spins zero c id s = refl
  work_loop_spins (suc rounds) c id s =
      let (c', eq, s') = spins_on (work_loop lib rounds now) c id s in
      eq ∙ work_loop_spins rounds c' id s'

-- A periodic subscriber with the period 0, alone in the queue and due, makes the work go round for
-- ever: no number of rounds is enough. (LUX_PIE_ON makes a subscriber periodic and sets no period.)
pub lux_timer_work_func_spins :
    (lib : RbLibrary) (works : IsRbLibrary lib) (rounds : ℕ) (c : LuxClock) (id : ℕ)
    → SpinsAlone (mgmt_readq c.f1 reg_timer_time) c id
    → lux_timer_work_func lib rounds c ≡ unfinished
unfolding lux_timer_work_func after_loop
lux_timer_work_func_spins lib works rounds c id s =
    ap after_loop (work_loop_spins lib works (mgmt_readq c.f1 reg_timer_time) rounds c id s)

-- Programming the device for a queue in order only queues the work, or it sets the comparator to the
-- latest deadline: that of no queued subscriber is after it.
lux_reprogram_timer-latest :
    (c : LuxClock) (j : ℕ)
    → IsQueue c
    → In j (queued c)
    → ((i : ℕ) → key_of c i < 2 ^ 64)
    → let c' = lux_reprogram_timer c in
      (c' ≡ record c { work_queued = true }) ⊎ (key_of c j ≤ c'.f1.timer_cmp)
unfolding lux_reprogram_timer reprogram_for
lux_reprogram_timer-latest c j q m fits =
    let (id, head, largest) = first-largest (key_of c) (queued c) j q.ordered m in
    subst
      (λ o.
        (reprogram_for c o ≡ record c { work_queued = true })
        ⊎ (key_of c j ≤ (reprogram_for c o).f1.timer_cmp))
      (sym (q.leftmost ∙ head)) (programmed id largest)
  where
    programmed :
        (id : ℕ)
        → key_of c j ≤ key_of c id
        → (reprogram_for c (some id) ≡ record c { work_queued = true })
          ⊎ (key_of c j ≤ (reprogram_for c (some id)).f1.timer_cmp)
    programmed id h =
        elim (Bool-cases (leb (c.subscribers_of id).deadline (lux_timer_read_virtual_time c id))) [
          | inl e ↦ inl (rw e refl)
          | inr e ↦ inr (
              rw (e, write_cmp_lem c.f1 (key_of c id), set_ctrl_lem _ 3)
                (omega (arith, h, fits id)))
        ]
