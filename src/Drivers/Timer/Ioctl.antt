-- ===== src/Drivers/Timer/Ioctl.antt =====
-- qemu-drivers/led-gpio/lux-timer-fops.c: `lux_timer_ioctl`, with the commands of
-- include/lux_ioctl.h.
use qemu_devices_and_drivers.Base.{
  ℕ, ◌+◌, bit_or, Bool, true, false, not, ◌&&◌, ltb, if◌then◌else◌, Option, none, some, Outcome,
  done, bind,
}
use qemu_devices_and_drivers.Words.{u64, sub64}
use qemu_devices_and_drivers.Lux.Device.{reg_timer_cmp}
use qemu_devices_and_drivers.Lux.Mgmt.{timer_bit, irq_bit, reload_bit}
use qemu_devices_and_drivers.Mathaccel.Hw.{Ret, ok, failed}
use qemu_devices_and_drivers.Drivers.Clockevent.{mgmt_readq}
use qemu_devices_and_drivers.Drivers.Timer.{
  Subscriber, RbLibrary, LuxClock, store, clear_node, erase,
}
use qemu_devices_and_drivers.Drivers.Timer.Queue.{lux_timer_enqueue}
use qemu_devices_and_drivers.Drivers.Timer.Fops.{
  eacces, efault, ebusy, enotty, lux_timer_enable_bits, lux_timer_disable_bits,
  lux_timer_read_virtual_time, lux_timer_set_time, disable_async, lux_reprogram_timer, leave_tree,
}

-- The commands. `foreign` has another magic number; `unknown` says whether the command transfers an
-- argument.
pub data Command : Type 0 where
  time_rd time_set alm_rd alm_set aie_on aie_off irqp_set pie_on pie_off : Command
  alm_async_on alm_async_off foreign : Command
  unknown : Bool → Command

-- `_IOC_DIR(cmd)` is not _IOC_NONE.
abbrev pub transfers : Command → Bool
transfers time_rd = true
transfers time_set = true
transfers alm_rd = true
transfers alm_set = true
transfers irqp_set = true
transfers alm_async_on = true
transfers (unknown b) = b
transfers _ = false

abbrev pub lux_timer_unpriv_min_delta : ℕ
lux_timer_unpriv_min_delta = 15625000

abbrev pub all_bits : ℕ
all_bits = bit_or (bit_or timer_bit irq_bit) reload_bit

-- The calling process: its number, its capabilities, and its argument: whether the range is the
-- user's, what `get_user` reads (`none` when it fails), and whether `put_user` works.
pub record Caller : Type 0 where
  pub current : ℕ
  pub cap_sys_time : Bool
  pub cap_sys_resource : Bool
  pub access_ok : Bool
  pub get_user : Option ℕ
  pub put_works : Bool

-- The clock afterwards, the result, and the number that `put_user` has written.
pub record IoctlReply : Type 0 where
  pub clock : LuxClock
  pub ret : Ret
  pub out : Option ℕ

abbrev pub ioctl_reply : LuxClock → Ret → IoctlReply
ioctl_reply c ret = record { clock = c; ret = ret; out = none }

unfoldable pub put_user : LuxClock → Caller → ℕ → IoctlReply
put_user c caller value =
    if caller.put_works
    then record { clock = c; ret = ok; out = some value }
    else ioctl_reply c (failed efault)

-- A command that needs CAP_SYS_TIME, and one that also reads its argument.
unfoldable pub privileged : LuxClock → Caller → Outcome IoctlReply → Outcome IoctlReply
privileged c caller then_do =
    if caller.cap_sys_time then then_do else done (ioctl_reply c (failed eacces))

unfoldable pub with_argument : LuxClock → Caller → (ℕ → Outcome IoctlReply) → Outcome IoctlReply
with_argument c caller then_do = privileged c caller (elim caller.get_user [
  | none ↦ done (ioctl_reply c (failed efault))
  | some value ↦ then_do value
])

-- LUX_TIME_SET, in which the node is cleared before it is erased.
unfoldable pub take_out : RbLibrary → LuxClock → ℕ → Outcome LuxClock
take_out lib c id = if (c.subscribers_of id).in_tree then erase lib (clear_node c id) id else done c

-- The rest of it: the time, and the node back in its place.
unfoldable pub retime : RbLibrary → LuxClock → ℕ → ℕ → Bool → IoctlReply
retime lib c id user_time was_in_tree =
    let c' = lux_timer_set_time c id user_time in
    ioctl_reply (lux_reprogram_timer (if was_in_tree then lux_timer_enqueue lib c' id else c')) ok

unfoldable pub ioctl_time_set : RbLibrary → LuxClock → ℕ → ℕ → Outcome IoctlReply
ioctl_time_set lib c id user_time =
    bind (take_out lib c id) (λ c₁. done (retime lib c₁ id user_time (c.subscribers_of id).in_tree))

-- The new deadline, from the removal of the old node to the programming of the device.
-- `delta` is the new `periodic_delta`.
unfoldable pub change_deadline : Subscriber → ℕ → ℕ → Subscriber
change_deadline sub deadline delta = record sub {
  deadline = deadline;
  phys_deadline = sub64 deadline sub.time_offset;
  periodic_delta = delta;
}

unfoldable pub reinsert : RbLibrary → LuxClock → ℕ → ℕ → ℕ → LuxClock
reinsert lib c id deadline delta =
    lux_reprogram_timer
      (lux_timer_enqueue lib (store c id (change_deadline (c.subscribers_of id) deadline delta)) id)

unfoldable pub set_deadline : RbLibrary → LuxClock → ℕ → ℕ → ℕ → Outcome LuxClock
set_deadline lib c id deadline delta =
    bind (leave_tree lib c id) (λ c₁. done (reinsert lib c₁ id deadline delta))

-- The limit on unprivileged users.
abbrev pub too_soon : Caller → ℕ → Bool
too_soon caller user_delta =
    ltb user_delta lux_timer_unpriv_min_delta && not caller.cap_sys_resource

unfoldable pub ioctl_alm_set : RbLibrary → LuxClock → ℕ → Caller → ℕ → Outcome IoctlReply
ioctl_alm_set lib c id caller reg_cmp =
    let time_now = lux_timer_read_virtual_time c id in
    let user_delta = sub64 reg_cmp time_now in
    if too_soon caller user_delta
    then done (ioctl_reply c (failed eacces))
    else bind
        (set_deadline lib c id (u64 (time_now + user_delta)) (c.subscribers_of id).periodic_delta)
        (λ c'. done (ioctl_reply c' ok))

unfoldable pub ioctl_irqp_set : RbLibrary → LuxClock → ℕ → Caller → ℕ → Outcome IoctlReply
ioctl_irqp_set lib c id caller user_delta =
    let time_now = lux_timer_read_virtual_time c id in
    if too_soon caller user_delta
    then done (ioctl_reply c (failed eacces))
    else bind (set_deadline lib c id (u64 (time_now + user_delta)) user_delta)
        (λ c'. done (ioctl_reply (lux_timer_enable_bits c' id all_bits) ok))

-- `get_user` stores 0 when it fails.
unfoldable pub ioctl_alm_async_on : LuxClock → ℕ → Caller → IoctlReply
ioctl_alm_async_on c id caller =
    let sub = c.subscribers_of id in
    if sub.async then ioctl_reply c ok else (elim sub.async_task [
      | some task ↦ ioctl_reply c (failed ebusy)
      | none ↦ elim caller.get_user [
        | none ↦ ioctl_reply (store c id (record sub { signo = 0 })) (failed efault)
        | some signo ↦
            ioctl_reply
              (store c id
                (record sub { signo = signo; async = true; async_task = some caller.current }))
              ok
      ]
    ])

unfoldable pub ioctl_alm_async_off : LuxClock → ℕ → Caller → IoctlReply
ioctl_alm_async_off c id caller =
    if (c.subscribers_of id).async
    then (let res = disable_async c id caller.cap_sys_time caller.current in
        ioctl_reply res.0 res.1)
    else ioctl_reply c ok

-- The `switch`.
unfoldable pub ioctl_command : RbLibrary → LuxClock → ℕ → Caller → Command → Outcome IoctlReply
ioctl_command lib c id caller time_rd = done (put_user c caller (lux_timer_read_virtual_time c id))
ioctl_command lib c id caller time_set = with_argument c caller (ioctl_time_set lib c id)
ioctl_command lib c id caller alm_rd =
    done
      (put_user c caller (u64 (mgmt_readq c.f1 reg_timer_cmp + (c.subscribers_of id).time_offset)))
ioctl_command lib c id caller alm_set = with_argument c caller (ioctl_alm_set lib c id caller)
ioctl_command lib c id caller aie_on =
    privileged c caller
      (done (ioctl_reply (lux_timer_enable_bits c id (bit_or timer_bit irq_bit)) ok))
ioctl_command lib c id caller aie_off =
    privileged c caller
      (done (ioctl_reply (lux_timer_disable_bits c id (bit_or timer_bit irq_bit)) ok))
ioctl_command lib c id caller irqp_set = with_argument c caller (ioctl_irqp_set lib c id caller)
ioctl_command lib c id caller pie_on =
    privileged c caller (done (ioctl_reply (lux_timer_enable_bits c id all_bits) ok))
ioctl_command lib c id caller pie_off =
    privileged c caller (done (ioctl_reply (lux_timer_disable_bits c id all_bits) ok))
ioctl_command lib c id caller alm_async_on =
    privileged c caller (done (ioctl_alm_async_on c id caller))
ioctl_command lib c id caller alm_async_off = done (ioctl_alm_async_off c id caller)
ioctl_command lib c id caller _ = done (ioctl_reply c (failed enotty))

-- `_IOC_TYPE(cmd)` is LUX_IOCTL_MAGIC.
abbrev pub has_magic : Command → Bool
has_magic foreign = false
has_magic _ = true

unfoldable pub lux_timer_ioctl : RbLibrary → LuxClock → ℕ → Caller → Command → Outcome IoctlReply
lux_timer_ioctl lib c id caller cmd =
    if not (has_magic cmd)
    then done (ioctl_reply c (failed enotty))
    else if transfers cmd && not caller.access_ok
    then done (ioctl_reply c (failed efault))
    else ioctl_command lib c id caller cmd
