-- ===== src/Drivers/Timer/Valid.antt =====
-- The file operations of the timer keep the queue of deadlines in order.
use qemu_devices_and_drivers.Base.{
  ℕ, ◌+◌, bind, subst, Bool, true, false, not, ◌&&◌, Option, none, some, ◌≡◌, refl, sym, ap,
  Bool-cases, if_both, inl, inr, Outcome, done, fault, arith,
}
use qemu_devices_and_drivers.Words.{u64, sub64}
use qemu_devices_and_drivers.Mathaccel.Hw.{ok, failed}
use qemu_devices_and_drivers.Drivers.Timer.{
  RbLibrary, IsRbLibrary, LuxClock, store, clear_node, erase,
}
use qemu_devices_and_drivers.Drivers.Timer.Queue.{lux_timer_enqueue}
use qemu_devices_and_drivers.Drivers.Timer.Fops.{
  count_enabled, count_periodic, discount_enabled, discount_periodic, lux_timer_enable_bits,
  lux_timer_disable_bits, lux_timer_read_virtual_time, lux_timer_set_time, disable_async, eacces,
  efault, reprogram_for, lux_reprogram_timer, leave_tree,
}
use qemu_devices_and_drivers.Drivers.Timer.Ioctl.{
  Command, time_rd, time_set, alm_rd, alm_set, aie_on, aie_off, irqp_set, pie_on, pie_off,
  alm_async_on, alm_async_off, foreign, unknown, Caller, IoctlReply, ioctl_reply, put_user,
  privileged, with_argument, take_out, ioctl_time_set, retime, too_soon, change_deadline, reinsert,
  set_deadline, ioctl_alm_set, ioctl_irqp_set, ioctl_alm_async_on, ioctl_alm_async_off,
  ioctl_command, lux_timer_ioctl, all_bits, transfers, has_magic,
}
use qemu_devices_and_drivers.Drivers.Timer.Enqueue.{
  in_tree_of, IsQueue, IsQueueWithout, SameAt, Same-IsQueue, store_self, store-IsQueueWithout,
  cleared-IsQueueWithout, erase_lem, lux_timer_enqueue_lem,
}

module _ (c : LuxClock) (id : ℕ) where
  enable_bits-SameAt : (bits j : ℕ) → SameAt c (lux_timer_enable_bits c id bits) j
  unfolding lux_timer_enable_bits count_enabled count_periodic
  enable_bits-SameAt bits j = ground arith

  disable_bits-SameAt : (bits j : ℕ) → SameAt c (lux_timer_disable_bits c id bits) j
  unfolding lux_timer_disable_bits discount_enabled discount_periodic
  disable_bits-SameAt bits j = ground arith

  disable_async-SameAt :
      (capable : Bool) (current j : ℕ) → SameAt c (disable_async c id capable current).0 j
  unfolding disable_async
  disable_async-SameAt capable current j = ground arith

  async_on-SameAt : (caller : Caller) (j : ℕ) → SameAt c (ioctl_alm_async_on c id caller).clock j
  unfolding ioctl_alm_async_on
  async_on-SameAt caller j = ground arith

  async_off-SameAt : (caller : Caller) (j : ℕ) → SameAt c (ioctl_alm_async_off c id caller).clock j
  unfolding ioctl_alm_async_off disable_async
  async_off-SameAt caller j = ground arith

  set_time-SameAt : (t j : ℕ) → SameAt c (lux_timer_set_time c id t) j
  unfolding lux_timer_set_time
  set_time-SameAt t j = ground arith

reprogram_for-SameAt : (c : LuxClock) (o : Option ℕ) (j : ℕ) → SameAt c (reprogram_for c o) j
unfolding reprogram_for
reprogram_for-SameAt c none j = (refl, refl, refl)
reprogram_for-SameAt c (some i) j = ground arith

pub reprogram-IsQueue : (c : LuxClock) → IsQueue c → IsQueue (lux_reprogram_timer c)
unfolding lux_reprogram_timer
reprogram-IsQueue c =
    Same-IsQueue c (lux_reprogram_timer c) (reprogram_for-SameAt c c.subscribers.rb_leftmost)

module _ (lib : RbLibrary) (works : IsRbLibrary lib) (c : LuxClock) (id : ℕ) where
  pub leave_tree_lem :
      IsQueue c
      → (c' : LuxClock) × (leave_tree lib c id ≡ done c')
        × IsQueueWithout id c'
        × (in_tree_of c' id ≡ false)
  unfolding leave_tree
  leave_tree_lem q = elim (Bool-cases (in_tree_of c id)) [
    | inl h ↦
        let (erased, left, without) = erase_lem lib works c id q h in
        let c₁ = record c { subscribers = lib.erase_cached id c.subscribers } in
        let cleared = record (c.subscribers_of id) { in_tree = false } in
        (
          clear_node c₁ id,
          rw h (ap (λ o. bind o (λ c'. done (clear_node c' id))) erased),
          store-IsQueueWithout c₁ id cleared without,
          ap (λ s. s.in_tree) (store_self c₁ id cleared),
        )
    | inr h ↦ (c, rw h refl, cleared-IsQueueWithout c id q h, h)
  ]

  pub set_deadline_lem :
      (deadline delta : ℕ)
      → IsQueue c
      → (c' : LuxClock) × (set_deadline lib c id deadline delta ≡ done c') × IsQueue c'
  unfolding set_deadline reinsert
  set_deadline_lem deadline delta q =
      let (c₁, left, without, cleared) = leave_tree_lem q in
      let moved = store c₁ id (change_deadline (c₁.subscribers_of id) deadline delta) in
      (
        reinsert lib c₁ id deadline delta,
        ap (λ o. bind o (λ c₁. done (reinsert lib c₁ id deadline delta))) left,
        reprogram-IsQueue (lux_timer_enqueue lib moved id)
            (lux_timer_enqueue_lem lib works moved id (store-IsQueueWithout c₁ id _ without)).1,
      )

-- A command fails to complete only as `time_set` of a queued subscriber; otherwise the queue that it
-- leaves is in order.
abbrev pub AfterIoctl : Command → LuxClock → ℕ → Outcome IoctlReply → Type 0
AfterIoctl cmd c id (done r) = IsQueue r.clock
AfterIoctl cmd c id fault = (cmd ≡ time_set) × (in_tree_of c id ≡ true)

module _ (lib : RbLibrary) (works : IsRbLibrary lib) (c : LuxClock) (id : ℕ) (caller : Caller) where
  privileged_both :
      (P : Outcome IoctlReply → Type 0) (o : Outcome IoctlReply)
      → P (done (ioctl_reply c (failed eacces)))
      → P o
      → P (privileged c caller o)
  unfolding privileged
  privileged_both P o refused p = elim (Bool-cases caller.cap_sys_time) [
    | inl e ↦ rw e p
    | inr e ↦ rw e refused
  ]

  with_argument_both :
      (P : Outcome IoctlReply → Type 0) (f : ℕ → Outcome IoctlReply)
      → ((e : ℕ) → P (done (ioctl_reply c (failed e))))
      → ((value : ℕ) → P (f value))
      → P (with_argument c caller f)
  unfolding with_argument
  with_argument_both P f refused p =
      privileged_both P _ (refused eacces) (by_argument caller.get_user)
    where
      by_argument :
          (o : Option ℕ)
          → P (elim o [ none ↦ done (ioctl_reply c (failed efault)) | some value ↦ f value ])
      by_argument none = refused efault
      by_argument (some value) = p value

  take_out_queued : in_tree_of c id ≡ true → take_out lib c id ≡ fault
  unfolding take_out erase
  take_out_queued h = ground arith

  time_set-AfterIoctl : (t : ℕ) → IsQueue c → AfterIoctl time_set c id (ioctl_time_set lib c id t)
  unfolding ioctl_time_set take_out erase retime
  time_set-AfterIoctl t q = elim (Bool-cases (in_tree_of c id)) [
    | inl h ↦
        subst (AfterIoctl time_set c id)
          (sym (
            ap (λ o. bind o (λ c₁. done (retime lib c₁ id t (in_tree_of c id))))
              (take_out_queued h)))
          (refl, h)
    | inr h ↦ subst (AfterIoctl time_set c id) (sym (free h)) (
        reprogram-IsQueue _ (Same-IsQueue c (lux_timer_set_time c id t) (set_time-SameAt c id t) q))
  ]
    where
      free :
          in_tree_of c id ≡ false
          → ioctl_time_set lib c id t
            ≡ done (ioctl_reply (lux_reprogram_timer (lux_timer_set_time c id t)) ok)
      free h = rw h refl

  alm_set-AfterIoctl :
      (t : ℕ) → IsQueue c → AfterIoctl alm_set c id (ioctl_alm_set lib c id caller t)
  unfolding ioctl_alm_set
  alm_set-AfterIoctl t q =
      let now = lux_timer_read_virtual_time c id in
      let (c', set, q') =
        set_deadline_lem lib works c id (u64 (now + sub64 t now))
          (c.subscribers_of id).periodic_delta q in
      if_both (AfterIoctl alm_set c id) (too_soon caller (sub64 t now)) q (
        subst (λ o. AfterIoctl alm_set c id (bind o (λ c'. done (ioctl_reply c' ok)))) (sym set) q')

  irqp_set-AfterIoctl :
      (t : ℕ) → IsQueue c → AfterIoctl irqp_set c id (ioctl_irqp_set lib c id caller t)
  unfolding ioctl_irqp_set
  irqp_set-AfterIoctl t q =
      let now = lux_timer_read_virtual_time c id in
      let (c', set, q') = set_deadline_lem lib works c id (u64 (now + t)) t q in
      if_both (AfterIoctl irqp_set c id) (too_soon caller t) q (
        subst
          (λ o.
            AfterIoctl irqp_set c id
              (bind o (λ c'. done (ioctl_reply (lux_timer_enable_bits c' id all_bits) ok))))
          (sym set)
          (Same-IsQueue c' (lux_timer_enable_bits c' id all_bits)
            (enable_bits-SameAt c' id all_bits) q'))

  ioctl_command-AfterIoctl :
      (cmd : Command) → IsQueue c → AfterIoctl cmd c id (ioctl_command lib c id caller cmd)
  unfolding ioctl_command put_user
  ioctl_command-AfterIoctl time_rd q =
      if_both (λ r. IsQueue (IoctlReply.clock r)) caller.put_works q q
  ioctl_command-AfterIoctl time_set q =
      with_argument_both (AfterIoctl time_set c id) _ (λ e. q) (λ t. time_set-AfterIoctl t q)
  ioctl_command-AfterIoctl alm_rd q =
      if_both (λ r. IsQueue (IoctlReply.clock r)) caller.put_works q q
  ioctl_command-AfterIoctl alm_set q =
      with_argument_both (AfterIoctl alm_set c id) _ (λ e. q) (λ t. alm_set-AfterIoctl t q)
  ioctl_command-AfterIoctl aie_on q =
      privileged_both (AfterIoctl aie_on c id) _ q
        (Same-IsQueue c (lux_timer_enable_bits c id 3) (enable_bits-SameAt c id 3) q)
  ioctl_command-AfterIoctl aie_off q =
      privileged_both (AfterIoctl aie_off c id) _ q
        (Same-IsQueue c (lux_timer_disable_bits c id 3) (disable_bits-SameAt c id 3) q)
  ioctl_command-AfterIoctl irqp_set q =
      with_argument_both (AfterIoctl irqp_set c id) _ (λ e. q) (λ t. irqp_set-AfterIoctl t q)
  ioctl_command-AfterIoctl pie_on q =
      privileged_both (AfterIoctl pie_on c id) _ q
        (Same-IsQueue c (lux_timer_enable_bits c id 7) (enable_bits-SameAt c id 7) q)
  ioctl_command-AfterIoctl pie_off q =
      privileged_both (AfterIoctl pie_off c id) _ q
        (Same-IsQueue c (lux_timer_disable_bits c id 7) (disable_bits-SameAt c id 7) q)
  ioctl_command-AfterIoctl alm_async_on q =
      privileged_both (AfterIoctl alm_async_on c id) _ q
        (Same-IsQueue c (ioctl_alm_async_on c id caller).clock (async_on-SameAt c id caller) q)
  ioctl_command-AfterIoctl alm_async_off q =
      Same-IsQueue c (ioctl_alm_async_off c id caller).clock (async_off-SameAt c id caller) q
  ioctl_command-AfterIoctl foreign q = q
  ioctl_command-AfterIoctl (unknown b) q = q

  -- Every ioctl keeps the queue of deadlines in order, and reaches undefined behaviour only as
  -- LUX_TIME_SET on a subscriber that is queued.
  pub lux_timer_ioctl-IsQueue :
      (cmd : Command) → IsQueue c → AfterIoctl cmd c id (lux_timer_ioctl lib c id caller cmd)
  unfolding lux_timer_ioctl
  lux_timer_ioctl-IsQueue cmd q =
      let After = AfterIoctl cmd c id in
      if_both After (not (has_magic cmd)) q
        (if_both After (transfers cmd && not caller.access_ok) q (ioctl_command-AfterIoctl cmd q))
