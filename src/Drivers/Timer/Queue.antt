-- ===== src/Drivers/Timer/Queue.antt =====
-- qemu-drivers/led-gpio/lux-timer-fops.c: `lux_timer_enqueue`, and the order of the queue that it
-- keeps.
use qemu_devices_and_drivers.Base.{ℕ, ltb, Bool, true, false, if◌then◌else◌}
use qemu_devices_and_drivers.Drivers.Timer.{RbTree, leaf, node, RbLibrary, LuxClock, store, key_of}

-- The walk from a link on: the new node goes below the place where it ends, which `rb_link_node`
-- fills, and the flag is true unless the walk turned right.
unfoldable pub link : (ℕ → ℕ) → ℕ → RbTree → RbTree × Bool
link key id leaf = (node leaf id leaf, true)
link key id (node l parent r) =
    if ltb (key parent) (key id)
    then (let walk = link key id l in (node walk.0 parent r, walk.1))
    else (let walk = link key id r in (node l parent walk.0, false))

unfoldable pub lux_timer_enqueue : RbLibrary → LuxClock → ℕ → LuxClock
lux_timer_enqueue lib c id =
    let walk = link (key_of c) id c.subscribers.rb_root in
    record (store c id (record (c.subscribers_of id) { in_tree = true })) {
      subscribers =
          lib.insert_color_cached id
            (record { rb_root = walk.0; rb_leftmost = c.subscribers.rb_leftmost }) walk.1;
    }
