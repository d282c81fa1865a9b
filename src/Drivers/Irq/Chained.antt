-- ===== src/Drivers/Irq/Chained.antt =====
-- The chained handler of qemu-drivers/led-gpio/lux-irq.c: which lines it dispatches, and in which
-- order.
use qemu_devices_and_drivers.Base.{
  ℕ, zero, suc, ◌+◌, ◌^◌, ◌≤◌, ◌<◌, bit_and, Bool, ◌==◌, if◌then◌else◌, some, ◌≡◌, ◌≢◌, ◌⊎◌, inl,
  inr, refl, sym, ap, ◌∙◌, arith, ==_ne,
}
use native.Mathlib.Decide.{ℕ_discrete}
use qemu_devices_and_drivers.Words.{u32, not32, ◌<<<◌}
use qemu_devices_and_drivers.Words.Bits.{
  bit, bit_ext, bit_zero, bit-bit_and, bit-lt_two, bit-complement, bit_and-lt,
}
use qemu_devices_and_drivers.Lux.Device.{F1, IsMgmtValid}
use qemu_devices_and_drivers.Lux.Mgmt.{f1_bar0_access, f1_bar0_read}
use qemu_devices_and_drivers.Lux.Mgmt.Irq.{pending}
use qemu_devices_and_drivers.Drivers.Irq.{readl, handle_pending, lux_irq_chained_handler}
use qemu_devices_and_drivers.Drivers.Irq.Lines.{bit-not_line}

-- The number of the lowest bit that is set, of a 32-bit word that is not 0.
pub record IsFfs (ffs : ℕ → ℕ) : Type 0 where
  pub at_set : (w : ℕ) → w ≢ 0 → w < 2 ^ 32 → bit w (ffs w) ≡ 1
  pub first : (w j : ℕ) → w ≢ 0 → w < 2 ^ 32 → j < ffs w → bit w j ≡ 0

-- The word after the bit of line `i` was cleared.
abbrev cleared : ℕ → ℕ → ℕ
cleared p i = bit_and p (not32 (u32 (1 <<< i)))

bit-cleared : (p i k : ℕ) → k < 32 → bit (cleared p i) k ≡ (if i == k then 0 else bit p k)
bit-cleared p i k l =
    ground (arith, bit-bit_and p (not32 (u32 (1 <<< i))) k, bit-not_line i k l, bit-lt_two p k)

module _ {S : Type 0} (device : S → F1) (ffs : ℕ → ℕ) (dispatch : ℕ → S → S) where
  -- The lines from `i` to `i + n - 1` that pass the test are dispatched in ascending order, each once.
  pub dispatched : (ℕ → Bool) → (n i : ℕ) → S → S
  dispatched test zero i s = s
  dispatched test (suc n) i s =
      let next = if test i then dispatch i s else s in dispatched test n (i + 1) next

  dispatched_same :
      (a b : ℕ → Bool) (n i : ℕ) (s : S)
      → ((k : ℕ) → i ≤ k → k < i + n → a k ≡ b k)
      → dispatched a n i s ≡ dispatched b n i s
  unfolding dispatched
  dispatched_same a b zero i s same = refl
  dispatched_same a b (suc n) i s same =
      rw (same i (omega arith) (omega arith))
        (dispatched_same a b n (i + 1) _ (λ k l u. same k (omega arith) (omega arith)))

  module _ (is_ffs : IsFfs ffs) where
    lowest :
        (p i : ℕ)
        → p < 2 ^ 32
        → ((j : ℕ) → j < i → bit p j ≡ 0)
        → bit p i ≡ 1
        → (p ≢ 0) × (ffs p ≡ i)
    lowest p i fits below set = (
      differs,
      elim (order (ffs p) i) [
        | inl e ↦ e
        | inr (inl l) ↦ absurd (omega (arith, below (ffs p) l, is_ffs.at_set p differs fits))
        | inr (inr l) ↦ absurd (omega (arith, set, is_ffs.first p i differs fits l))
      ],
    )
      where
        differs : p ≢ 0
        differs e = absurd (omega (arith, set, ap (λ q. bit q i) e, bit_zero i))

        order : (a b : ℕ) → (a ≡ b) ⊎ ((a < b) ⊎ (b < a))
        order a b = omega arith

    nothing_pending : (rounds : ℕ) (s : S) → handle_pending device ffs dispatch rounds 0 s ≡ some s
    unfolding handle_pending
    nothing_pending zero s = refl
    nothing_pending (suc rounds) s = refl

    -- With a line set, a round dispatches it and clears its bit.
    handle_pending-set :
        (i rounds p : ℕ) (s : S)
        → p < 2 ^ 32
        → ((j : ℕ) → j < i → bit p j ≡ 0)
        → bit p i ≡ 1
        → handle_pending device ffs dispatch (suc rounds) p s
          ≡ handle_pending device ffs dispatch rounds (cleared p i) (dispatch i s)
    unfolding handle_pending
    handle_pending-set i rounds p s fits below set =
        let (differs, at) = lowest p i fits below set in rw (at, ==_ne p 0 differs) refl

    handle_pending_lem :
        (n i rounds p : ℕ) (s : S)
        → p < 2 ^ 32
        → i + n ≡ 32
        → n ≤ rounds
        → ((j : ℕ) → j < i → bit p j ≡ 0)
        → handle_pending device ffs dispatch rounds p s
          ≡ some (dispatched (λ k. bit p k == 1) n i s)
    unfolding dispatched
    handle_pending_lem zero i rounds p s fits range enough below =
        let none_left : p ≡ 0 =
          bit_ext 32 p 0 fits (omega arith)
            (λ j l. below j (omega (arith, l)) ∙ sym (bit_zero j)) in
        rw none_left (nothing_pending rounds s)
    handle_pending_lem (suc n) i zero p s fits range enough below = absurd (omega arith)
    handle_pending_lem (suc n) i (suc rounds) p s fits range enough below =
        elim (ℕ_discrete (bit p i) 1) [
          | no clear ↦ rw (==_ne (bit p i) 1 clear) (
              handle_pending_lem n (i + 1) (suc rounds) p s fits (omega arith) (omega arith)
                (λ j l. by-order j (omega (arith, l)) clear))
          | yes set ↦ rw set (
              handle_pending-set i rounds p s fits below set
              ∙ handle_pending_lem n (i + 1) rounds (cleared p i) (dispatch i s)
                  (bit_and-lt 32 p (not32 (u32 (1 <<< i))) fits) (omega arith) (omega arith)
                  (λ j l. ground (arith, bit-cleared p i j (omega (arith, l)), below j))
              ∙ ap some (
                  dispatched_same _ _ n (i + 1) (dispatch i s) (λ k l u.
                    rw (bit-cleared p i k (omega (arith, u)), ==_ne i k (omega (arith, l))) refl)))
        ]
      where
        by-order : (j : ℕ) → (j < i) ⊎ (j ≡ i) → bit p i ≢ 1 → bit p j ≡ 0
        by-order j (inl l) clear = below j l
        by-order j (inr e) clear = rw e (omega (arith, bit-lt_two p i, clear))

    -- With at least 32 rounds, the handler comes to an end and dispatches exactly the lines that were
    -- pending when it was entered, each once and in ascending order.
    pub lux_irq_chained_handler_lem :
        (rounds : ℕ) (s : S)
        → IsMgmtValid (device s)
        → 32 ≤ rounds
        → lux_irq_chained_handler device ffs dispatch rounds s
          ≡ some (dispatched (λ k. pending (device s) k == 1) 32 0 s)
    unfolding lux_irq_chained_handler readl f1_bar0_access f1_bar0_read
    lux_irq_chained_handler_lem rounds s v enough =
        handle_pending_lem 32 0 rounds (bit_and f.irq_status (not32 f.irq_mask)) s
          (bit_and-lt 32 f.irq_status (not32 f.irq_mask) v.irq_status_fits) refl enough
          (λ j l. absurd (omega (arith, l)))
        ∙ ap some
            (dispatched_same _ _ 32 0 s (λ k l u. ap (λ b. b == 1) (same k (omega (arith, u)))))
      where
        f : F1
        f = device s

        same : (k : ℕ) → k < 32 → bit (bit_and f.irq_status (not32 f.irq_mask)) k ≡ pending f k
        same k l = ground (
          arith,
          bit-bit_and f.irq_status (not32 f.irq_mask) k,
          bit-complement 32 f.irq_mask k v.irq_mask_fits l,
          bit-lt_two f.irq_status k,
          bit-lt_two f.irq_mask k,
        )
