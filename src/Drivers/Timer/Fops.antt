-- ===== src/Drivers/Timer/Fops.antt =====
-- qemu-drivers/led-gpio/lux-timer-fops.c: the helpers of the timer's file operations, and all of
-- these but `lux_timer_ioctl`. The locks and barriers order accesses and are left out: every
-- operation runs alone. `current` is the number of the calling process.
use qemu_devices_and_drivers.Base.{
  ℕ, suc, ◌+◌, bit_and, bit_or, bit_xor, Bool, true, false, not, ◌&&◌, ◌||◌, ◌==◌, leb, ltb,
  if◌then◌else◌, Option, none, some, Outcome, done, bind,
}
use qemu_devices_and_drivers.Words.{u32, u64, not64, sub64}
use qemu_devices_and_drivers.Lux.Device.{reg_timer_ctrl, reg_timer_time, reg_timer_cmp}
use qemu_devices_and_drivers.Lux.Mgmt.{is_set, timer_bit, irq_bit, reload_bit}
use qemu_devices_and_drivers.Mathaccel.Hw.{Ret, ok, failed}
use qemu_devices_and_drivers.Drivers.Irq.{readl, writel}
use qemu_devices_and_drivers.Drivers.Clockevent.{mgmt_readq, mgmt_writeq, set_ctrl, clear_ctrl}
use qemu_devices_and_drivers.Drivers.Timer.{
  fresh, RbLibrary, LuxClock, store, clear_node, atomic_inc, atomic_dec, erase,
}

abbrev pub eperm : ℕ
eperm = 1

abbrev pub eacces : ℕ
eacces = 13

abbrev pub efault : ℕ
efault = 14

abbrev pub ebusy : ℕ
ebusy = 16

abbrev pub enotty : ℕ
enotty = 25

abbrev pub enospc : ℕ
enospc = 28

abbrev pub enotsupp : ℕ
enotsupp = 524

-- `if (!sub->enabled) ...` and `if (!sub->periodic) ...` of `lux_timer_enable_bits`.
unfoldable pub count_enabled : LuxClock → ℕ → ℕ → LuxClock
count_enabled c id bits =
    if not (c.subscribers_of id).enabled && is_set bits (bit_or timer_bit irq_bit)
    then record (store c id (record (c.subscribers_of id) { enabled = true })) {
      enabled_users = atomic_inc c.enabled_users;
    }
    else c

unfoldable pub count_periodic : LuxClock → ℕ → ℕ → LuxClock
count_periodic c id bits =
    if not (c.subscribers_of id).periodic && is_set bits reload_bit
    then record (store c id (record (c.subscribers_of id) { periodic = true })) {
      periodic_users = atomic_inc c.periodic_users;
    }
    else c

unfoldable pub lux_timer_enable_bits : LuxClock → ℕ → ℕ → LuxClock
lux_timer_enable_bits c id bits =
    if bits == 0
    then c
    else let ctrl = readl c.f1 reg_timer_ctrl in
      let c' = count_periodic (count_enabled c id bits) id bits in
      record c' {
        f1 = writel c'.f1 (u32 (bit_or ctrl (bit_and bits (not64 reload_bit)))) reg_timer_ctrl;
      }

-- The two parts of `lux_timer_disable_bits`: the clock, and `ctrl` after them.
unfoldable pub discount_enabled : LuxClock → ℕ → ℕ → ℕ → LuxClock × ℕ
discount_enabled c id bits ctrl =
    if (c.subscribers_of id).enabled && is_set bits (bit_or timer_bit irq_bit)
    then (
      record (store c id (record (c.subscribers_of id) { enabled = false })) {
        enabled_users = atomic_dec c.enabled_users;
      },
      if atomic_dec c.enabled_users == 0
          then (let ctrl' =
                if is_set bits timer_bit then u32 (bit_and ctrl (not64 timer_bit)) else ctrl in
              if is_set bits irq_bit then u32 (bit_and ctrl' (not64 irq_bit)) else ctrl')
          else ctrl,
    )
    else (c, ctrl)

unfoldable pub discount_periodic : LuxClock → ℕ → ℕ → ℕ → LuxClock × ℕ
discount_periodic c id bits ctrl =
    if (c.subscribers_of id).periodic && is_set bits reload_bit
    then (
      record (store c id (record (c.subscribers_of id) { periodic = false })) {
        periodic_users = atomic_dec c.periodic_users;
      },
      if atomic_dec c.periodic_users == 0 then u32 (bit_and ctrl (not64 reload_bit)) else ctrl,
    )
    else (c, ctrl)

unfoldable pub lux_timer_disable_bits : LuxClock → ℕ → ℕ → LuxClock
lux_timer_disable_bits c id bits =
    if bits == 0
    then c
    else let init_ctrl = readl c.f1 reg_timer_ctrl in
      let enabled = discount_enabled c id bits init_ctrl in
      let periodic = discount_periodic enabled.0 id bits enabled.1 in
      if bit_xor periodic.1 init_ctrl == 0
      then periodic.0
      else record periodic.0 { f1 = writel c.f1 periodic.1 reg_timer_ctrl }

unfoldable pub lux_timer_read_virtual_time : LuxClock → ℕ → ℕ
lux_timer_read_virtual_time c id =
    u64 (mgmt_readq c.f1 reg_timer_time + (c.subscribers_of id).time_offset)

unfoldable pub lux_timer_set_time : LuxClock → ℕ → ℕ → LuxClock
lux_timer_set_time c id user_time =
    let physical_time = mgmt_readq c.f1 reg_timer_time in
    record (store c id
      (record (c.subscribers_of id) { time_offset = sub64 user_time physical_time })) {
        f1 = set_ctrl c.f1 timer_bit;
      }

abbrev pub is_task : Option ℕ → ℕ → Bool
is_task none current = false
is_task (some task) current = task == current

unfoldable pub disable_async : LuxClock → ℕ → Bool → ℕ → LuxClock × Ret
disable_async c id capable current =
    if not capable
    then (c, failed eacces)
    else if not (c.subscribers_of id).async
    then (c, ok)
    else if not (is_task (c.subscribers_of id).async_task current)
    then (c, failed eperm)
    else (
      store c id (record (c.subscribers_of id) { async = false; signo = 0; async_task = none }),
      ok,
    )

-- `lux_reprogram_timer` with the first node.
unfoldable pub reprogram_for : LuxClock → Option ℕ → LuxClock
reprogram_for c none = record c { f1 = clear_ctrl c.f1 (bit_or irq_bit reload_bit) }
reprogram_for c (some id) =
    if leb (c.subscribers_of id).deadline (lux_timer_read_virtual_time c id)
    then record c { work_queued = true }
    else record c {
      f1 =
          set_ctrl (mgmt_writeq c.f1 (c.subscribers_of id).phys_deadline reg_timer_cmp)
            (bit_or irq_bit timer_bit);
    }

unfoldable pub lux_reprogram_timer : LuxClock → LuxClock
lux_reprogram_timer c = reprogram_for c c.subscribers.rb_leftmost

-- The new subscriber's address is the next one; `kzalloc` is taken to succeed.
unfoldable pub lux_timer_open : LuxClock → LuxClock × ℕ
lux_timer_open c = (record (store c c.allocated fresh) { allocated = suc c.allocated }, c.allocated)

-- The end of `lux_timer_release`; `kfree` gives the address back, which is not used again.
unfoldable pub leave_tree : RbLibrary → LuxClock → ℕ → Outcome LuxClock
leave_tree lib c id =
    if (c.subscribers_of id).in_tree
    then bind (erase lib c id) (λ c'. done (clear_node c' id))
    else done c

unfoldable pub lux_timer_release : RbLibrary → LuxClock → ℕ → Bool → ℕ → Outcome LuxClock
lux_timer_release lib c id capable current =
    let sub = c.subscribers_of id in
    let c₁ =
      if sub.async && is_task sub.async_task current
      then (disable_async c id capable current).0
      else c in
    leave_tree lib (lux_timer_disable_bits c₁ id (bit_or (bit_or timer_bit irq_bit) reload_bit)) id

-- The result of a read: it sleeps on, or returns, with the number that reaches the user.
pub data ReadResult : Type 0 where
  sleeps : ReadResult
  returns : LuxClock → Ret → Option ℕ → ReadResult

-- The read from taking the data on; `put_fails` is whether `put_user` fails.
unfoldable pub take_data : LuxClock → ℕ → Bool → ReadResult
take_data c id put_fails =
    let sub = c.subscribers_of id in
    let c' = store c id (record sub { irq_data = 0 }) in
    if put_fails then returns c' (failed efault) none else returns c' ok (some sub.irq_data)

-- `signal` is the error of `wait_event_interruptible` when a signal ends the wait.
unfoldable pub lux_timer_read : LuxClock → ℕ → ℕ → Option ℕ → Bool → ReadResult
lux_timer_read c id len signal put_fails =
    let sub = c.subscribers_of id in
    if ltb len 8
    then returns c (failed enospc) none
    else if sub.async || not (sub.irq_data == 0)
    then take_data c id put_fails
    else (elim signal [ none ↦ sleeps | some e ↦ returns c (failed e) none ])

unfoldable pub lux_timer_write : LuxClock → LuxClock × Ret
lux_timer_write c = (c, failed enotsupp)

-- POLLIN and POLLRDNORM.
abbrev pub pollin : ℕ
pollin = 1

abbrev pub pollrdnorm : ℕ
pollrdnorm = 0x40

unfoldable pub lux_timer_poll : LuxClock → ℕ → ℕ
lux_timer_poll c id =
    if not ((c.subscribers_of id).irq_data == 0) then 0 else bit_or pollin pollrdnorm
