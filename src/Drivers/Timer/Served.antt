-- ===== src/Drivers/Timer/Served.antt =====
-- What the timer's work does to one subscriber whose deadline has passed.
use qemu_devices_and_drivers.Base.{
  ℕ, Bool, false, if◌then◌else◌, ◌≡◌, ◌≢◌, sym, ◌∙◌, ap, subst, arith,
}
use qemu_devices_and_drivers.Drivers.Timer.{Subscriber, RbLibrary, LuxClock, store, clear_node}
use qemu_devices_and_drivers.Drivers.Timer.Queue.{lux_timer_enqueue}
use qemu_devices_and_drivers.Drivers.Timer.Work.{expire, announce, serve}
use qemu_devices_and_drivers.Drivers.Timer.Enqueue.{
  IsQueueOfWithout, IsQueueWithout, store_self, store_other, store-IsQueueWithout,
}

-- A subscriber that was queued, after it was served as a one-shot alarm.
abbrev pub served : Subscriber → Subscriber
served sub = expire (record sub { in_tree = false })

-- Serving a subscriber that was taken out of the tree.
module _ (lib : RbLibrary) (c : LuxClock) (id : ℕ) where
  abbrev cleared : LuxClock
  cleared = clear_node c id

  abbrev pub expired : LuxClock
  expired = store cleared id (expire (cleared.subscribers_of id))

  pub announce_keeps :
      (c : LuxClock)
      → ((announce c id).subscribers_of ≡ c.subscribers_of)
        × ((announce c id).subscribers ≡ c.subscribers)
  unfolding announce
  announce_keeps c = ground arith

  pub expire-in_tree : (sub : Subscriber) → (expire sub).in_tree ≡ sub.in_tree
  unfolding expire
  expire-in_tree sub = ground arith

  expire-periodic : (sub : Subscriber) → (expire sub).periodic ≡ sub.periodic
  unfolding expire
  expire-periodic sub = ground arith

  cleared_self : cleared.subscribers_of id ≡ record (c.subscribers_of id) { in_tree = false }
  cleared_self = store_self c id (record (c.subscribers_of id) { in_tree = false })

  expired_self : expired.subscribers_of id ≡ served (c.subscribers_of id)
  expired_self = store_self cleared id (expire (cleared.subscribers_of id)) ∙ ap expire cleared_self

  expired_other : (j : ℕ) → j ≢ id → expired.subscribers_of j ≡ c.subscribers_of j
  expired_other j n =
      store_other cleared id (expire (cleared.subscribers_of id)) j n
      ∙ store_other c id (record (c.subscribers_of id) { in_tree = false }) j n

  abbrev pub notified : LuxClock
  notified = announce expired id

  pub notified_self : notified.subscribers_of id ≡ served (c.subscribers_of id)
  notified_self = ap (λ (f : ℕ → Subscriber). f id) (announce_keeps expired).0 ∙ expired_self

  pub notified_other : (j : ℕ) → j ≢ id → notified.subscribers_of j ≡ c.subscribers_of j
  notified_other j n =
      ap (λ (f : ℕ → Subscriber). f j) (announce_keeps expired).0 ∙ expired_other j n

  pub serve_lem :
      (b : Bool)
      → (c.subscribers_of id).periodic ≡ b
      → serve lib c id ≡ (if b then lux_timer_enqueue lib notified id else notified)
  unfolding serve
  serve_lem b h =
      ap (λ (b : Bool). if b then lux_timer_enqueue lib notified id else notified)
        (ap (λ s. s.periodic) notified_self ∙ expire-periodic _ ∙ h)

  pub notified-IsQueueWithout : IsQueueWithout id c → IsQueueWithout id notified
  notified-IsQueueWithout q =
      subst (λ f. IsQueueOfWithout id f notified.subscribers) (sym (announce_keeps expired).0)
        (subst (IsQueueOfWithout id expired.subscribers_of) (sym (announce_keeps expired).1)
          (store-IsQueueWithout cleared id _ (store-IsQueueWithout c id _ q)))
