-- ===== src/Drivers/Timer/Time.antt =====
-- The virtual time of a subscriber, and what the file operations leave of the device's clock.
use qemu_devices_and_drivers.Base.{
  ℕ, ◌+◌, ◌^◌, ◌<◌, leb, true, false, Option, none, some, List, ◌≡◌, refl, sym, ◌∙◌, ap, ap₂,
  Bool-cases, inl, inr, arith, done,
}
use qemu_devices_and_drivers.Words.{u64, sub64}
use qemu_devices_and_drivers.Words.Bits.{bit, bit-lt_two, bit_and-shr_one}
use qemu_devices_and_drivers.Lux.Device.{F1, reg_timer_cmp}
use qemu_devices_and_drivers.Lux.Mgmt.{
  f1_bar0_access, f1_bar0_read, f1_bar0_write, is_set, timer_bit,
}
use qemu_devices_and_drivers.Lux.Mgmt.Timer.{ticks, last_time, AllFit, ticks_count, is_set-bit}
use qemu_devices_and_drivers.Mathaccel.Hw.{ok}
use qemu_devices_and_drivers.Drivers.Clockevent.{mgmt_readq, mgmt_writeq, set_ctrl}
use qemu_devices_and_drivers.Drivers.Clockevent.Events.{
  set_ctrl_lem, clear_ctrl_lem, is_set-set, is_set-clear, low_bits,
}
use qemu_devices_and_drivers.Drivers.Timer.{Subscriber, RbLibrary, LuxClock}
use qemu_devices_and_drivers.Drivers.Timer.Enqueue.{store_self, in_tree_of}
use qemu_devices_and_drivers.Drivers.Timer.Fops.{
  lux_timer_read_virtual_time, lux_timer_set_time, lux_reprogram_timer, reprogram_for,
}
use qemu_devices_and_drivers.Drivers.Timer.Latest.{reprogram_keeps}
use qemu_devices_and_drivers.Drivers.Timer.Ioctl.{
  time_set, Caller, IoctlReply, ioctl_reply, retime, take_out, ioctl_time_set, ioctl_command,
  lux_timer_ioctl,
}
use qemu_devices_and_drivers.Drivers.Timer.Alarm.{Permits, ioctl_argument}

-- The clock of the device runs on from `f` in `g`.
abbrev RunsOn : F1 → F1 → Type 0
RunsOn f g =
    (is_set g.timer_ctrl timer_bit ≡ true)
    × (g.timer_val ≡ f.timer_val)
    × (g.last_tick_ns ≡ f.last_tick_ns)

set_ctrl-RunsOn : (f : F1) (bits : ℕ) → bit bits 0 ≡ 1 → RunsOn f (set_ctrl f bits)
set_ctrl-RunsOn f bits h = rw (set_ctrl_lem f bits) (
  is_set-set f.timer_ctrl bits 0 (omega arith) ∙ ground (arith, bit-lt_two f.timer_ctrl 0),
  refl,
  refl,
)

reprogram_for-RunsOn :
    (c : LuxClock) (o : Option ℕ)
    → is_set c.f1.timer_ctrl timer_bit ≡ true
    → RunsOn c.f1 (reprogram_for c o).f1
unfolding reprogram_for mgmt_writeq f1_bar0_access f1_bar0_write
reprogram_for-RunsOn c none h = rw (clear_ctrl_lem c.f1 6) (
  is_set-clear c.f1.timer_ctrl 6 0 (omega arith) (omega arith)
      ∙ ground (arith, bit_and-shr_one 6 0, h, is_set-bit c.f1.timer_ctrl 0),
  refl,
  refl,
)
reprogram_for-RunsOn c (some id) h =
    elim (Bool-cases (leb (c.subscribers_of id).deadline (lux_timer_read_virtual_time c id))) [
      | inl e ↦ rw e (h, refl, refl)
      | inr e ↦ rw e (
          set_ctrl-RunsOn (mgmt_writeq c.f1 (c.subscribers_of id).phys_deadline reg_timer_cmp) 3
            low_bits.0)
    ]

module _ (lib : RbLibrary) (c : LuxClock) (id : ℕ) (caller : Caller) (t : ℕ) where
  -- The clock after the time of a subscriber that was not queued is set.
  abbrev set_clock : LuxClock
  set_clock = lux_reprogram_timer (lux_timer_set_time c id t)

  time_set_lem :
      Permits caller t
      → in_tree_of c id ≡ false
      → lux_timer_ioctl lib c id caller time_set ≡ done (ioctl_reply set_clock ok)
  unfolding ioctl_command ioctl_time_set take_out retime
  time_set_lem may free =
      ioctl_argument lib c id caller t time_set (ioctl_time_set lib c id) refl refl may
      ∙ rw free refl

  set_clock-RunsOn : RunsOn c.f1 set_clock.f1
  unfolding lux_timer_set_time lux_reprogram_timer
  set_clock-RunsOn =
      let start = set_ctrl-RunsOn c.f1 timer_bit (sym (bit_and-shr_one 1 0)) in
      let c' = lux_timer_set_time c id t in
      let (on, val, last) = reprogram_for-RunsOn c' c'.subscribers.rb_leftmost start.0 in
      (on, val ∙ start.1, last ∙ start.2)

  set_clock_offset : (set_clock.subscribers_of id).time_offset ≡ sub64 t c.f1.timer_val
  unfolding lux_timer_set_time lux_reprogram_timer mgmt_readq f1_bar0_access f1_bar0_read
  set_clock_offset =
      ap (λ (f : ℕ → Subscriber). (f id).time_offset)
        (reprogram_keeps (lux_timer_set_time c id t) c.subscribers.rb_leftmost).0
      ∙ ap (λ s. s.time_offset)
          (store_self c id (record (c.subscribers_of id) { time_offset = sub64 t c.f1.timer_val }))

  elapsed : (v e : ℕ) → v < 2 ^ 64 → u64 (u64 (v + e) + sub64 t v) ≡ u64 (t + e)
  elapsed v e h = omega arith

-- Setting a virtual time and reading it later gives the time that was set, plus the time that has
-- passed on the device since its tick before (modulo 2 ^ 64), for a subscriber that is not queued.
pub lux_timer_ioctl-time :
    (lib : RbLibrary) (c : LuxClock) (id : ℕ) (caller : Caller) (t : ℕ) (times : List ℕ)
    → Permits caller t
    → in_tree_of c id ≡ false
    → c.f1.timer_val < 2 ^ 64
    → c.f1.last_tick_ns < 2 ^ 64
    → AllFit times
    → (r : IoctlReply) × (lux_timer_ioctl lib c id caller time_set ≡ done r)
      × (r.ret ≡ ok)
      × (lux_timer_read_virtual_time
            (record (IoctlReply.clock r) { f1 = ticks r.clock.f1 times })
            id
          ≡ u64 (t + sub64 (last_time c.f1.last_tick_ns times) c.f1.last_tick_ns))
unfolding lux_timer_read_virtual_time mgmt_readq f1_bar0_access f1_bar0_read
lux_timer_ioctl-time lib c id caller t times may free v l fit =
    let c' = set_clock lib c id caller t in
    let (on, val, last) = set_clock-RunsOn lib c id caller t in
    let count = ticks_count times c'.f1 on (omega (arith, val)) (omega (arith, last)) fit in
    (
      ioctl_reply c' ok,
      time_set_lem lib c id caller t may free,
      refl,
      ap₂ (λ (now off : ℕ). u64 (now + off))
            (count.0
              ∙ ap₂ (λ (val last : ℕ). u64 (val + sub64 (last_time last times) last)) val last)
            (set_clock_offset lib c id caller t)
          ∙ elapsed lib c id caller t c.f1.timer_val _ v,
    )
