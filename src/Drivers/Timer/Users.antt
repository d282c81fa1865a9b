-- ===== src/Drivers/Timer/Users.antt =====
-- The reference counts of the timer: how many subscribers keep it enabled.
use native.Mathlib.Decide.{ℕ_discrete}
use qemu_devices_and_drivers.Base.{
  ℕ, zero, suc, ◌+◌, ◌^◌, ◌<◌, ◌≤◌, ◌==◌, Bool, true, false, not, ◌&&◌, ◌≡◌, ◌≢◌, refl, sym, ◌∙◌,
  ap, subst, arith, if_cases, if_both, bit_xor,
}
use qemu_devices_and_drivers.Lux.Device.{F1, reg_timer_ctrl}
use qemu_devices_and_drivers.Drivers.Irq.{readl}
use qemu_devices_and_drivers.Lux.Mgmt.{is_set, reload_bit}
use qemu_devices_and_drivers.Drivers.Timer.{
  Subscriber, fresh, LuxClock, store, atomic_inc, atomic_dec,
}
use qemu_devices_and_drivers.Drivers.Timer.Enqueue.{store_self, store_other}
use qemu_devices_and_drivers.Drivers.Timer.Fops.{
  count_enabled, count_periodic, discount_enabled, discount_periodic, lux_timer_enable_bits,
  lux_timer_disable_bits, lux_timer_open,
}

abbrev bit_of : Bool → ℕ
bit_of true = 1
bit_of false = 0

-- How many of the first `n` subscribers have a flag.
abbrev pub count : (ℕ → Bool) → ℕ → ℕ
count p zero = 0
count p (suc n) = bit_of (p n) + count p n

count-ext : (p q : ℕ → Bool) (n : ℕ) → ((j : ℕ) → j < n → q j ≡ p j) → count q n ≡ count p n
count-ext p q zero h = refl
count-ext p q (suc n) h =
    omega (arith, ap bit_of (h n (omega arith)), count-ext p q n (λ j l. h j (omega arith)))

-- One flag changes.
count-change :
    (p q : ℕ → Bool) (id n : ℕ)
    → id < n
    → ((j : ℕ) → j ≢ id → q j ≡ p j)
    → count q n + bit_of (p id) ≡ count p n + bit_of (q id)
count-change p q id zero l h = absurd (omega arith)
count-change p q id (suc n) l h = elim (ℕ_discrete n id) [
  | yes e ↦
      subst (λ i. bit_of (q n) + count q n + bit_of (p i) ≡ bit_of (p n) + count p n + bit_of (q i))
        e (omega (arith, count-ext p q n (λ j l. h j (λ e'. omega (arith, e, e', l)))))
  | no n≢ ↦ omega (arith, ap bit_of (h n n≢), count-change p q id n (omega (arith, l, n≢)) h)
]

count-le : (p : ℕ → Bool) (n : ℕ) → count p n ≤ n
count-le p zero = omega arith
count-le p (suc n) = ground (arith, count-le p n)

abbrev enabled_flag : LuxClock → ℕ → Bool
enabled_flag c j = (c.subscribers_of j).enabled

abbrev periodic_flag : LuxClock → ℕ → Bool
periodic_flag c j = (c.subscribers_of j).periodic

-- The counters are the numbers of open subscribers with the flags.
pub record IsCounted (c : LuxClock) : Type 0 where
  pub enabled : c.enabled_users ≡ count (enabled_flag c) c.allocated
  pub periodic : c.periodic_users ≡ count (periodic_flag c) c.allocated
  pub room : c.allocated < 2 ^ 32

module _ (c : LuxClock) (id bits : ℕ) (known : id < c.allocated) (n : IsCounted c) where
  fewer : (p : ℕ → Bool) → count p c.allocated < 2 ^ 32
  fewer p = omega (arith, count-le p c.allocated, n.room)

  others :
      (sub : Subscriber) (j : ℕ) → j ≢ id → (store c id sub).subscribers_of j ≡ c.subscribers_of j
  others sub j d = store_other c id sub j d

  -- The count of a flag after subscriber `id` was replaced.
  count_store :
      (flag : Subscriber → Bool) (sub : Subscriber)
      → count (λ j. flag ((store c id sub).subscribers_of j)) c.allocated
          + bit_of (flag (c.subscribers_of id))
        ≡ count (λ j. flag (c.subscribers_of j)) c.allocated + bit_of (flag sub)
  count_store flag sub = omega (
    arith,
    count-change (λ j. flag (c.subscribers_of j)) (λ j. flag ((store c id sub).subscribers_of j)) id
        c.allocated known (λ j d. ap flag (others sub j d)),
    ap (λ s. bit_of (flag s)) (store_self c id sub),
  )

  and_left : (a b : Bool) → a && b ≡ true → a ≡ true
  and_left a b h = ground arith

  is_false : (a b : Bool) → not a && b ≡ true → a ≡ false
  is_false a b h = ground arith

  abbrev flagged_enabled : Bool → Subscriber
  flagged_enabled b = record (c.subscribers_of id) { enabled = b }

  abbrev flagged_periodic : Bool → Subscriber
  flagged_periodic b = record (c.subscribers_of id) { periodic = b }

  one_more_enabled :
      enabled_flag c id ≡ false
      → IsCounted (record (store c id (flagged_enabled true)) {
        enabled_users = atomic_inc c.enabled_users;
      })
  one_more_enabled off = record {
    enabled = omega (
      arith,
      count_store (λ s. s.enabled) (flagged_enabled true),
      ap bit_of off,
      n.enabled,
      fewer (enabled_flag (store c id (flagged_enabled true))),
    );
    periodic = omega (arith, count_store (λ s. s.periodic) (flagged_enabled true), n.periodic);
    room = n.room;
  }

  one_more_periodic :
      periodic_flag c id ≡ false
      → IsCounted (record (store c id (flagged_periodic true)) {
        periodic_users = atomic_inc c.periodic_users;
      })
  one_more_periodic off = record {
    enabled = omega (arith, count_store (λ s. s.enabled) (flagged_periodic true), n.enabled);
    periodic = omega (
      arith,
      count_store (λ s. s.periodic) (flagged_periodic true),
      ap bit_of off,
      n.periodic,
      fewer (periodic_flag (store c id (flagged_periodic true))),
    );
    room = n.room;
  }

  one_less_enabled :
      enabled_flag c id ≡ true
      → IsCounted (record (store c id (flagged_enabled false)) {
        enabled_users = atomic_dec c.enabled_users;
      })
  one_less_enabled on = record {
    enabled = omega (
      arith,
      count_store (λ s. s.enabled) (flagged_enabled false),
      ap bit_of on,
      n.enabled,
      fewer (enabled_flag c),
    );
    periodic = omega (arith, count_store (λ s. s.periodic) (flagged_enabled false), n.periodic);
    room = n.room;
  }

  one_less_periodic :
      periodic_flag c id ≡ true
      → IsCounted (record (store c id (flagged_periodic false)) {
        periodic_users = atomic_dec c.periodic_users;
      })
  one_less_periodic on = record {
    enabled = omega (arith, count_store (λ s. s.enabled) (flagged_periodic false), n.enabled);
    periodic = omega (
      arith,
      count_store (λ s. s.periodic) (flagged_periodic false),
      ap bit_of on,
      n.periodic,
      fewer (periodic_flag c),
    );
    room = n.room;
  }

  count_enabled-IsCounted : IsCounted (count_enabled c id bits)
  unfolding count_enabled
  count_enabled-IsCounted =
      if_cases IsCounted (not (enabled_flag c id) && is_set bits 3)
        (λ h. one_more_enabled (is_false (enabled_flag c id) (is_set bits 3) h)) (λ h. n)

  count_periodic-IsCounted : IsCounted (count_periodic c id bits)
  unfolding count_periodic
  count_periodic-IsCounted =
      if_cases IsCounted (not (periodic_flag c id) && is_set bits reload_bit)
        (λ h. one_more_periodic (is_false (periodic_flag c id) (is_set bits reload_bit) h)) (λ h. n)

  discount_enabled-IsCounted : (ctrl : ℕ) → IsCounted (discount_enabled c id bits ctrl).0
  unfolding discount_enabled
  discount_enabled-IsCounted ctrl =
      if_cases {A = LuxClock × ℕ} (λ res. IsCounted res.0) (enabled_flag c id && is_set bits 3)
        (λ h. one_less_enabled (and_left (enabled_flag c id) (is_set bits 3) h)) (λ h. n)

  discount_periodic-IsCounted : (ctrl : ℕ) → IsCounted (discount_periodic c id bits ctrl).0
  unfolding discount_periodic
  discount_periodic-IsCounted ctrl =
      if_cases {A = LuxClock × ℕ} (λ res. IsCounted res.0)
        (periodic_flag c id && is_set bits reload_bit)
        (λ h. one_less_periodic (and_left (periodic_flag c id) (is_set bits reload_bit) h)) (λ h. n)

-- The device is not counted.
rewired-IsCounted : (c : LuxClock) (f : F1) → IsCounted c → IsCounted (record c { f1 = f })
rewired-IsCounted c f n = record { enabled = n.enabled; periodic = n.periodic; room = n.room }

module _ (c : LuxClock) (id bits : ℕ) where
  kept_allocated :
      ((count_enabled c id bits).allocated ≡ c.allocated)
      × ((ctrl : ℕ) → (discount_enabled c id bits ctrl).0.allocated ≡ c.allocated)
  unfolding count_enabled discount_enabled
  kept_allocated = (ground arith, λ ctrl. ground arith)

  enable_bits-IsCounted :
      id < c.allocated → IsCounted c → IsCounted (lux_timer_enable_bits c id bits)
  unfolding lux_timer_enable_bits
  enable_bits-IsCounted known n =
      let c' = count_enabled c id bits in
      if_both IsCounted (bits == 0) n (
        rewired-IsCounted _ _ (
          count_periodic-IsCounted c' id bits (omega (arith, known, kept_allocated.0))
            (count_enabled-IsCounted c id bits known n)))

  disable_bits-IsCounted :
      id < c.allocated → IsCounted c → IsCounted (lux_timer_disable_bits c id bits)
  unfolding lux_timer_disable_bits
  disable_bits-IsCounted known n =
      let ctrl = readl c.f1 reg_timer_ctrl in
      let enabled = discount_enabled c id bits ctrl in
      let counted =
        discount_periodic-IsCounted enabled.0 id bits (omega (arith, known, kept_allocated.1 ctrl))
          (discount_enabled-IsCounted c id bits known n ctrl) enabled.1 in
      if_both IsCounted (bits == 0) n (
        if_both IsCounted (bit_xor (discount_periodic enabled.0 id bits enabled.1).1 ctrl == 0)
          counted (rewired-IsCounted _ _ counted))

module _ (c : LuxClock) where
  -- The new subscriber has no flag set.
  count-fresh :
      (flag : Subscriber → Bool)
      → flag fresh ≡ false
      → count (λ j. flag ((store c c.allocated fresh).subscribers_of j)) (suc c.allocated)
        ≡ count (λ j. flag (c.subscribers_of j)) c.allocated
  count-fresh flag off = omega (
    arith,
    ap (λ s. bit_of (flag s)) (store_self c c.allocated fresh) ∙ ap bit_of off,
    count-ext (λ j. flag (c.subscribers_of j))
        (λ j. flag ((store c c.allocated fresh).subscribers_of j)) c.allocated
        (λ j l. ap flag (store_other c c.allocated fresh j (λ e. omega (arith, e, l)))),
  )

  open-IsCounted : suc c.allocated < 2 ^ 32 → IsCounted c → IsCounted (lux_timer_open c).0
  unfolding lux_timer_open
  open-IsCounted room n = record {
    enabled = n.enabled ∙ sym (count-fresh (λ s. s.enabled) refl);
    periodic = n.periodic ∙ sym (count-fresh (λ s. s.periodic) refl);
    room = room;
  }

-- Opening a file, and switching the bits of a subscriber on and off, keep the two counters at the
-- numbers of subscribers that are enabled and that are periodic, without an overflow.
lux_timer-IsCounted :
    (c : LuxClock) (id bits : ℕ)
    → id < c.allocated
    → suc c.allocated < 2 ^ 32
    → IsCounted c
    → IsCounted (lux_timer_enable_bits c id bits)
      × IsCounted (lux_timer_disable_bits c id bits)
      × IsCounted (lux_timer_open c).0
lux_timer-IsCounted c id bits known room n = (
  enable_bits-IsCounted c id bits known n,
  disable_bits-IsCounted c id bits known n,
  open-IsCounted c room n,
)
