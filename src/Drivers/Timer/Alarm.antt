-- ===== src/Drivers/Timer/Alarm.antt =====
-- An alarm that a subscriber sets, from the ioctl to the interrupt line of the device.
use qemu_devices_and_drivers.Base.{
  ℕ, ◌+◌, ◌^◌, ◌<◌, ◌≤◌, ◌&&◌, Bool, true, false, not, leb, some, List, [], ◌≡◌, refl, sym, ◌∙◌, ap,
  subst, Bool-cases, inl, inr, arith, Outcome, done, if◌then◌else◌,
}
use qemu_devices_and_drivers.Words.{u64, sub64}
use qemu_devices_and_drivers.Words.Bits.{bit, bit-lt_two}
use qemu_devices_and_drivers.Lux.Device.{F1, reg_timer_cmp, reg_timer_time}
use qemu_devices_and_drivers.Lux.Mgmt.Timer.{ticks, last_time, AllFit}
use qemu_devices_and_drivers.Lux.Mgmt.Reach.{ticks_reach}
use qemu_devices_and_drivers.Mathaccel.Hw.{ok, failed}
use qemu_devices_and_drivers.Drivers.Clockevent.{mgmt_readq, mgmt_writeq, set_ctrl}
use qemu_devices_and_drivers.Drivers.Clockevent.Events.{
  write_cmp_lem, set_ctrl_lem, is_set-set, low_bits,
}
use qemu_devices_and_drivers.Drivers.Timer.{
  Subscriber, RbLibrary, IsRbLibrary, LuxClock, In, first, queued, key_of, store,
}
use qemu_devices_and_drivers.Drivers.Timer.Queue.{lux_timer_enqueue}
use qemu_devices_and_drivers.Drivers.Timer.Order.{insert_descending}
use qemu_devices_and_drivers.Drivers.Timer.Enqueue.{
  in_tree_of, IsQueue, enqueue_self, lux_timer_enqueue_lem, cleared-IsQueueWithout, store_self,
  store-IsQueueWithout,
}
use qemu_devices_and_drivers.Drivers.Timer.Fops.{
  enotty, efault, lux_timer_read_virtual_time, lux_reprogram_timer, reprogram_for, leave_tree,
}
use qemu_devices_and_drivers.Drivers.Timer.Ioctl.{
  alm_set, Command, has_magic, transfers, Caller, IoctlReply, ioctl_reply, too_soon,
  change_deadline, reinsert, set_deadline, ioctl_alm_set, with_argument, privileged, ioctl_command,
  lux_timer_ioctl,
}

-- The device armed for a time.
abbrev armed : F1 → ℕ → F1
armed f cmp = set_ctrl (mgmt_writeq f cmp reg_timer_cmp) 3

-- Armed for a time to come, the timer raises its line when the time is reached.
armed_reach :
    (f : F1) (cmp : ℕ) (times : List ℕ)
    → f.timer_val < cmp
    → cmp < 2 ^ 64
    → f.last_tick_ns < 2 ^ 64
    → AllFit times
    → cmp ≤ u64 (f.timer_val + sub64 (last_time f.last_tick_ns times) f.last_tick_ns)
    → bit (ticks (armed f cmp) times).irq_status 0 ≡ 1
armed_reach f cmp times v c l fit h =
    rw (write_cmp_lem f cmp, set_ctrl_lem _ 3)
      (ticks_reach times _
        (is_set-set f.timer_ctrl 3 0 (omega arith)
          ∙ ground (arith, low_bits, bit-lt_two f.timer_ctrl 0))
        (is_set-set f.timer_ctrl 3 1 (omega arith)
          ∙ ground (arith, low_bits, bit-lt_two f.timer_ctrl 1))
        (omega arith) (omega arith) l fit (omega arith))

reprogram_future :
    (c : LuxClock) (id : ℕ)
    → c.subscribers.rb_leftmost ≡ some id
    → lux_timer_read_virtual_time c id < (c.subscribers_of id).deadline
    → (lux_reprogram_timer c).f1 ≡ armed c.f1 (key_of c id)
unfolding lux_reprogram_timer reprogram_for
reprogram_future c id head h = ap (λ o. (reprogram_for c o).f1) head ∙ rw late refl
  where
    late : leb (c.subscribers_of id).deadline (lux_timer_read_virtual_time c id) ≡ false
    late = ground arith

-- A caller with the capability, whose argument can be read.
pub record Permits (caller : Caller) (value : ℕ) : Type 0 where
  pub may_set_time : caller.cap_sys_time ≡ true
  pub range_ok : caller.access_ok ≡ true
  pub argument : caller.get_user ≡ some value

-- Such a caller's command reaches its case of the `switch`.
module _ (lib : RbLibrary) (c : LuxClock) (id : ℕ) (caller : Caller) (value : ℕ) where
  argument_read :
      (f : ℕ → Outcome IoctlReply) → Permits caller value → with_argument c caller f ≡ f value
  unfolding with_argument privileged
  argument_read f may = rw (may.may_set_time, may.argument) refl

  pub ioctl_argument :
      (cmd : Command) (f : ℕ → Outcome IoctlReply)
      → has_magic cmd ≡ true
      → ioctl_command lib c id caller cmd ≡ with_argument c caller f
      → Permits caller value
      → lux_timer_ioctl lib c id caller cmd ≡ f value
  unfolding lux_timer_ioctl
  ioctl_argument cmd f magic case may =
      let rest = ioctl_command lib c id caller cmd in
      ap
        (λ b.
          if not b
          then done (ioctl_reply c (failed enotty))
          else if transfers cmd && not caller.access_ok
          then done (ioctl_reply c (failed efault))
          else rest)
        magic
      ∙ ap (λ b. if b then done (ioctl_reply c (failed efault)) else rest)
          (ap (λ b. transfers cmd && not b) may.range_ok ∙ and_false (transfers cmd))
      ∙ case
      ∙ argument_read f may
    where
      and_false : (b : Bool) → b && false ≡ false
      and_false true = refl
      and_false false = refl

-- A caller that may set the alarm, whose argument is the deadline.
pub record MaySet (c : LuxClock) (id : ℕ) (caller : Caller) (deadline : ℕ) : Type 0 where
  pub permitted : Permits caller deadline
  pub in_time : too_soon caller (sub64 deadline (lux_timer_read_virtual_time c id)) ≡ false
  pub fits : deadline < 2 ^ 64

module _ (lib : RbLibrary) (c : LuxClock) (id : ℕ) (caller : Caller) (deadline : ℕ) where
  abbrev delta : ℕ
  delta = (c.subscribers_of id).periodic_delta

  -- The clock after the alarm of a subscriber that was not queued.
  abbrev alarmed : LuxClock
  alarmed = reinsert lib c id deadline delta

  unwrap : (now : ℕ) → now < 2 ^ 64 → deadline < 2 ^ 64 → u64 (now + sub64 deadline now) ≡ deadline
  unwrap now h k = omega arith

  virtual_fits : lux_timer_read_virtual_time c id < 2 ^ 64
  unfolding lux_timer_read_virtual_time
  virtual_fits = omega arith

  alm_set_lem :
      MaySet c id caller deadline
      → in_tree_of c id ≡ false
      → lux_timer_ioctl lib c id caller alm_set ≡ done (ioctl_reply alarmed ok)
  unfolding ioctl_command ioctl_alm_set set_deadline leave_tree
  alm_set_lem may free =
      ioctl_argument lib c id caller deadline alm_set (ioctl_alm_set lib c id caller) refl refl
        may.permitted
      ∙ rw (may.in_time, free)
          (ap (λ d. done (ioctl_reply (reinsert lib c id d delta) ok))
            (unwrap (lux_timer_read_virtual_time c id) virtual_fits may.fits))

  idle : IsQueue c → queued c ≡ [] → in_tree_of c id ≡ false
  idle q nil = elim (Bool-cases (in_tree_of c id)) [
    | inl e ↦ absurd (subst (In id) nil (q.present id e))
    | inr e ↦ e
  ]

  alarmed_f1 :
      IsRbLibrary lib
      → IsQueue c
      → queued c ≡ []
      → lux_timer_read_virtual_time c id < deadline
      → alarmed.f1 ≡ armed c.f1 (sub64 deadline (c.subscribers_of id).time_offset)
  unfolding reinsert change_deadline lux_timer_read_virtual_time lux_timer_enqueue insert_descending
  alarmed_f1 works q nil h =
      let new = change_deadline (c.subscribers_of id) deadline delta in
      let c₁ = store c id new in
      let c₂ = lux_timer_enqueue lib c₁ id in
      let without = cleared-IsQueueWithout c id q (idle q nil) in
      let (list, q') =
        lux_timer_enqueue_lem lib works c₁ id (store-IsQueueWithout c id new without) in
      let sub =
        enqueue_self lib c₁ id
        ∙ ap (λ (s : Subscriber). record s { in_tree = true }) (store_self c id new) in
      reprogram_future c₂ id
        (q'.leftmost ∙ ap first (list ∙ ap (insert_descending (key_of c₁) id) nil))
        (subst (λ s. u64 (mgmt_readq c.f1 reg_timer_time + s.time_offset) < s.deadline) (sym sub) h)
      ∙ ap (armed c.f1) (ap (λ s. s.phys_deadline) sub)

-- An alarm set on an empty queue for a time that is still to come returns 0, and the device raises
-- the line of the timer once its ticks have brought its time to the deadline, whatever their times
-- are.
pub lux_timer_ioctl-raises :
    (lib : RbLibrary) (works : IsRbLibrary lib) (c : LuxClock) (id : ℕ) (caller : Caller)
    (deadline : ℕ) (times : List ℕ)
    → IsQueue c
    → queued c ≡ []
    → MaySet c id caller deadline
    → lux_timer_read_virtual_time c id < deadline
    → c.f1.timer_val < sub64 deadline (c.subscribers_of id).time_offset
    → c.f1.last_tick_ns < 2 ^ 64
    → AllFit times
    → sub64 deadline (c.subscribers_of id).time_offset
      ≤ u64 (c.f1.timer_val + sub64 (last_time c.f1.last_tick_ns times) c.f1.last_tick_ns)
    → (r : IoctlReply) × (lux_timer_ioctl lib c id caller alm_set ≡ done r)
      × (r.ret ≡ ok)
      × (bit (ticks r.clock.f1 times).irq_status 0 ≡ 1)
lux_timer_ioctl-raises lib works c id caller deadline times q nil may h v l fit reached =
    let phys = sub64 deadline (c.subscribers_of id).time_offset in
    (
      ioctl_reply (alarmed lib c id caller deadline) ok,
      alm_set_lem lib c id caller deadline may (idle lib c id caller deadline q nil),
      refl,
      subst (λ f. bit (ticks f times).irq_status 0 ≡ 1)
          (sym (alarmed_f1 lib c id caller deadline works q nil h))
          (armed_reach c.f1 phys times v (omega arith) l fit reached),
    )
