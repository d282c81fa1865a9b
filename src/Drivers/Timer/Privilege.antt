-- ===== src/Drivers/Timer/Privilege.antt =====
-- The ioctls of a process without CAP_SYS_TIME.
use qemu_devices_and_drivers.Base.{
  ℕ, false, not, ◌&&◌, ◌≡◌, refl, ap, if_both, Outcome, done, fault,
}
use qemu_devices_and_drivers.Drivers.Timer.{RbLibrary, LuxClock}
use qemu_devices_and_drivers.Drivers.Timer.Fops.{disable_async}
use qemu_devices_and_drivers.Drivers.Timer.Ioctl.{
  Command, time_rd, time_set, alm_rd, alm_set, aie_on, aie_off, irqp_set, pie_on, pie_off,
  alm_async_on, alm_async_off, foreign, unknown, has_magic, transfers, Caller, IoctlReply, put_user,
  privileged, with_argument, ioctl_alm_async_off, ioctl_command, lux_timer_ioctl,
}

-- The ioctl completes and leaves the clock as it was.
abbrev pub LeavesAlone : LuxClock → Outcome IoctlReply → Type 0
LeavesAlone c (done r) = r.clock ≡ c
LeavesAlone c fault = ⊥

module _ (lib : RbLibrary) (c : LuxClock) (id : ℕ) (caller : Caller) where
  refused :
      (o : Outcome IoctlReply) → caller.cap_sys_time ≡ false → LeavesAlone c (privileged c caller o)
  unfolding privileged
  refused o h = rw h refl

  refused_argument :
      (f : ℕ → Outcome IoctlReply)
      → caller.cap_sys_time ≡ false
      → LeavesAlone c (with_argument c caller f)
  unfolding with_argument
  refused_argument f h = refused _ h

  refused_command :
      (cmd : Command)
      → caller.cap_sys_time ≡ false
      → LeavesAlone c (ioctl_command lib c id caller cmd)
  unfolding ioctl_command put_user ioctl_alm_async_off disable_async
  refused_command time_rd h = if_both (λ r. IoctlReply.clock r ≡ c) caller.put_works refl refl
  refused_command time_set h = refused_argument _ h
  refused_command alm_rd h = if_both (λ r. IoctlReply.clock r ≡ c) caller.put_works refl refl
  refused_command alm_set h = refused_argument _ h
  refused_command aie_on h = refused _ h
  refused_command aie_off h = refused _ h
  refused_command irqp_set h = refused_argument _ h
  refused_command pie_on h = refused _ h
  refused_command pie_off h = refused _ h
  refused_command alm_async_on h = refused _ h
  refused_command alm_async_off h =
      if_both (λ r. IoctlReply.clock r ≡ c) (c.subscribers_of id).async
        (ap (λ b. (disable_async c id b caller.current).0) h) refl
  refused_command foreign h = refl
  refused_command (unknown b) h = refl

  -- Without CAP_SYS_TIME no ioctl changes anything: not the queue, the device or a subscriber, and
  -- none runs into undefined behaviour.
  lux_timer_ioctl_unprivileged :
      (cmd : Command)
      → caller.cap_sys_time ≡ false
      → LeavesAlone c (lux_timer_ioctl lib c id caller cmd)
  unfolding lux_timer_ioctl
  lux_timer_ioctl_unprivileged cmd h =
      if_both (LeavesAlone c) (not (has_magic cmd)) refl (
        if_both (LeavesAlone c) (transfers cmd && not caller.access_ok) refl
          (refused_command cmd h))
