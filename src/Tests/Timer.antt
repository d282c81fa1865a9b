-- ===== src/Tests/Timer.antt =====
-- The theorems of the timer driver at concrete inputs.
use qemu_devices_and_drivers.Base.{
  ℕ, ◌+◌, ◌*◌, ◌^◌, ◌<◌, ◌==◌, true, false, false≢true, if◌then◌else◌, none, some, List, [], ◌∷◌,
  ◌≡◌, inl, inr, refl, ap, arith, done,
}
use qemu_devices_and_drivers.Words.{u64, sub64}
use qemu_devices_and_drivers.Words.Bits.{bit}
use qemu_devices_and_drivers.Lux.Device.{F1}
use qemu_devices_and_drivers.Lux.Mgmt.{f1_bar0_access, f1_bar0_read}
use qemu_devices_and_drivers.Lux.Mgmt.Timer.{ticks}
use qemu_devices_and_drivers.Mathaccel.Hw.{returned, unfinished, ok}
use qemu_devices_and_drivers.Drivers.Timer.{
  fresh, RbTree, leaf, node, RbLibrary, IsRbLibrary, LuxClock, In, inorder, first, remove, queued,
  key_of,
}
use qemu_devices_and_drivers.Drivers.Clockevent.{mgmt_readq}
use qemu_devices_and_drivers.Drivers.Timer.Queue.{link, lux_timer_enqueue}
use qemu_devices_and_drivers.Drivers.Timer.Order.{insert_descending}
use qemu_devices_and_drivers.Drivers.Timer.Enqueue.{
  IsQueue, cleared-IsQueueWithout, lux_timer_enqueue_lem,
}
use qemu_devices_and_drivers.Drivers.Timer.Fops.{lux_timer_read_virtual_time, lux_reprogram_timer}
use qemu_devices_and_drivers.Drivers.Timer.Ioctl.{
  alm_set, time_set, irqp_set, Caller, IoctlReply, lux_timer_ioctl,
}
use qemu_devices_and_drivers.Drivers.Timer.Work.{lux_timer_work_func}
use qemu_devices_and_drivers.Drivers.Timer.Valid.{AfterIoctl, lux_timer_ioctl-IsQueue}
use qemu_devices_and_drivers.Drivers.Timer.Loop.{outcome}
use qemu_devices_and_drivers.Drivers.Timer.Latest.{
  lux_timer_work_func_waits, lux_timer_work_func_oneshot, lux_timer_work_func_spins,
}
use qemu_devices_and_drivers.Drivers.Timer.Alarm.{Permits, lux_timer_ioctl-raises}
use qemu_devices_and_drivers.Drivers.Timer.Time.{lux_timer_ioctl-time}
use qemu_devices_and_drivers.Drivers.Timer.Users.{IsCounted}

-- A red-black tree that is only a spine.
abbrev spine : List ℕ → RbTree
spine [] = leaf
spine (j ∷ js) = node leaf j (spine js)

inorder-spine : (js : List ℕ) → inorder (spine js) ≡ js
inorder-spine [] = refl
inorder-spine (j ∷ js) = ap (λ ks. j ∷ ks) (inorder-spine js)

abbrev lib : RbLibrary
lib = record {
  insert_color_cached = λ id root leftmost. record {
    rb_root = root.rb_root;
    rb_leftmost = if leftmost then some id else root.rb_leftmost;
  };
  erase_cached = λ id root. record {
    rb_root = spine (remove id (inorder root.rb_root));
    rb_leftmost = first (remove id (inorder root.rb_root));
  };
}

lib-IsRbLibrary : IsRbLibrary lib
lib-IsRbLibrary = record {
  insert_color_keeps = λ id root leftmost. refl;
  insert_color_leftmost = λ id root leftmost. refl;
  erase_removes = λ id root m. inorder-spine (remove id (inorder root.rb_root));
  erase_leftmost = λ id root m h. refl;
}

-- The device at a time, its timer and interrupt enabled.
abbrev device : ℕ → F1
device now = record {
  irq_status = 0;
  irq_mask = 0;
  timer_ctrl = 3;
  timer_val = now;
  timer_cmp = 2000;
  last_tick_ns = 5000;
  last_delta_ns = 0;
  fired = 0;
}

-- Three open files and no alarm; the deadlines that will be queued are 100, 200 and 300.
abbrev empty : ℕ → LuxClock
empty now = record {
  f1 = device now;
  subscribers_of = λ j. record fresh {
    deadline = u64 (100 * (j + 1));
    phys_deadline = u64 (100 * (j + 1));
    enabled = j == 0;
  };
  allocated = 3;
  subscribers = record { rb_root = leaf; rb_leftmost = none };
  enabled_users = 1;
  periodic_users = 0;
  work_queued = false;
  signals = [];
  woken = [];
}

empty-IsQueue : (now : ℕ) → IsQueue (empty now)
empty-IsQueue now = record {
  ordered = tt;
  leftmost = refl;
  marked = tt;
  present = λ j h. absurd (false≢true h);
}

abbrev one : ℕ → LuxClock
one now = lux_timer_enqueue lib (empty now) 0

one-IsQueue : (now : ℕ) → IsQueue (one now)
one-IsQueue now =
    (lux_timer_enqueue_lem lib lib-IsRbLibrary (empty now) 0
      (cleared-IsQueueWithout (empty now) 0 (empty-IsQueue now) refl)).1

abbrev two : ℕ → LuxClock
two now = lux_timer_enqueue lib (one now) 1

two-IsQueue : (now : ℕ) → IsQueue (two now)
unfolding lux_timer_enqueue
two-IsQueue now =
    (lux_timer_enqueue_lem lib lib-IsRbLibrary (one now) 1
      (cleared-IsQueueWithout (one now) 1 (one-IsQueue now) refl)).1

In-two : (now : ℕ) → In 0 (queued (two now))
unfolding lux_timer_enqueue link
In-two now = inr (inl refl)

two_fits : (i : ℕ) → key_of (two 20) i < 2 ^ 64
unfolding lux_timer_enqueue link
two_fits i = ground arith

enqueue_example :
    (queued (lux_timer_enqueue lib (one 0) 1)
      ≡ insert_descending (key_of (one 0)) 1 (queued (one 0)))
    × IsQueue (lux_timer_enqueue lib (one 0) 1)
unfolding lux_timer_enqueue
enqueue_example =
    lux_timer_enqueue_lem lib lib-IsRbLibrary (one 0) 1
      (cleared-IsQueueWithout (one 0) 1 (one-IsQueue 0) refl)

abbrev root : Caller
root = record {
  current = 7;
  cap_sys_time = true;
  cap_sys_resource = true;
  access_ok = true;
  get_user = some 500;
  put_works = true;
}

abbrev guest : Caller
guest = record {
  current = 8;
  cap_sys_time = false;
  cap_sys_resource = false;
  access_ok = true;
  get_user = some 500;
  put_works = true;
}

ioctl_queue_example : AfterIoctl irqp_set (two 0) 2 (lux_timer_ioctl lib (two 0) 2 root irqp_set)
ioctl_queue_example =
    lux_timer_ioctl-IsQueue lib lib-IsRbLibrary (two 0) 2 root irqp_set (two-IsQueue 0)

-- The first deadline, 100, has passed; the second, 200, has not.
waits_example : lux_timer_work_func lib 1 (two 150) ≡ returned (lux_reprogram_timer (two 150))
unfolding lux_timer_enqueue link mgmt_readq f1_bar0_access f1_bar0_read
waits_example =
    lux_timer_work_func_waits lib (two 150) 1 0 (two-IsQueue 150) (inl refl) (omega arith)

alarms_example :
    (c' : LuxClock) × (lux_timer_work_func lib 3 (two 400) ≡ returned c')
    × (queued c' ≡ [])
    × ((j : ℕ) → c'.subscribers_of j ≡ outcome (two 400).subscribers_of (queued (two 400)) j)
unfolding lux_timer_enqueue link mgmt_readq f1_bar0_access f1_bar0_read
alarms_example =
    lux_timer_work_func_oneshot lib lib-IsRbLibrary 3 (two 400) (two-IsQueue 400) (omega arith)
      ((refl, omega arith), ((refl, omega arith), tt))

-- A subscriber that LUX_PIE_ON made periodic.
abbrev pie : LuxClock
pie = record (empty 60) {
  subscribers_of = λ j. record fresh { deadline = 50; phys_deadline = 50; periodic = true };
}

pie-IsQueue : IsQueue pie
pie-IsQueue = record {
  ordered = tt;
  leftmost = refl;
  marked = tt;
  present = λ j h. absurd (false≢true h);
}

spins_example : lux_timer_work_func lib 1000 (lux_timer_enqueue lib pie 0) ≡ unfinished
unfolding lux_timer_enqueue link mgmt_readq f1_bar0_access f1_bar0_read
spins_example = lux_timer_work_func_spins lib lib-IsRbLibrary 1000 (lux_timer_enqueue lib pie 0) 0 (
  (lux_timer_enqueue_lem lib lib-IsRbLibrary pie 0
      (cleared-IsQueueWithout pie 0 pie-IsQueue refl)).1,
  refl,
  record {
    is_periodic = refl;
    no_period = refl;
    deadline_fits = omega arith;
    physical = refl;
    passed = omega arith;
  },
)

permitted : Permits root 500
permitted = record { may_set_time = refl; range_ok = refl; argument = refl }

raises_example :
    (r : IoctlReply) × (lux_timer_ioctl lib (empty 0) 2 root alm_set ≡ done r)
    × (r.ret ≡ ok)
    × (bit (ticks r.clock.f1 (5200 ∷ 5600 ∷ [])).irq_status 0 ≡ 1)
unfolding lux_timer_read_virtual_time mgmt_readq f1_bar0_access f1_bar0_read
raises_example =
    lux_timer_ioctl-raises lib lib-IsRbLibrary (empty 0) 2 root 500 (5200 ∷ 5600 ∷ [])
      (empty-IsQueue 0) refl (record { permitted = permitted; in_time = refl; fits = omega arith })
      (omega arith) (omega arith) (omega arith) (omega arith, (omega arith, tt)) (omega arith)

time_example :
    (r : IoctlReply) × (lux_timer_ioctl lib (empty 30) 2 root time_set ≡ done r)
    × (r.ret ≡ ok)
    × (lux_timer_read_virtual_time
          (record (IoctlReply.clock r) { f1 = ticks r.clock.f1 (5200 ∷ []) })
          2
        ≡ u64 (500 + sub64 5200 5000))
time_example =
    lux_timer_ioctl-time lib (empty 30) 2 root 500 (5200 ∷ []) permitted refl (omega arith)
      (omega arith) (omega arith, tt)

counted : IsCounted (empty 0)
counted = record { enabled = refl; periodic = refl; room = omega arith }
