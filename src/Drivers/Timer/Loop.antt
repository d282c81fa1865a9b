-- ===== src/Drivers/Timer/Loop.antt =====
-- The loop of the timer's work: whom it serves, and when it ends.
use native.Mathlib.Decide.{ℕ_discrete}
use qemu_devices_and_drivers.Base.{
  ℕ, zero, suc, ◌≤◌, ◌<◌, ltb, true, false, if◌then◌else◌, some, List, [], length, ◌≡◌, ◌≢◌, inl,
  inr, refl, sym, ◌∙◌, ap, subst, arith, Option-cases, lt→ltb,
}
use qemu_devices_and_drivers.Mathaccel.Hw.{Result, returned}
use qemu_devices_and_drivers.Drivers.Timer.{
  Subscriber, RbLibrary, IsRbLibrary, LuxClock, RbRoot, In, inorder, remove, erase, queued, key_of,
  first,
}
use qemu_devices_and_drivers.Drivers.Timer.Work.{after_erase, round, work_loop}
use qemu_devices_and_drivers.Drivers.Timer.Order.{All, All-imp}
use qemu_devices_and_drivers.Drivers.Timer.Enqueue.{in_tree_of, IsQueue, cleared-IsQueue, erase_lem}
use qemu_devices_and_drivers.Drivers.Timer.Members.{
  mem, mem-remove, mem-removed, first-In, first-none, length-remove-first, In-mem, In-All,
  All-remove, remove-All, All-both,
}
use qemu_devices_and_drivers.Drivers.Timer.Served.{
  served, notified, notified_self, notified_other, serve_lem, notified-IsQueueWithout,
  announce_keeps, expired, expire-in_tree,
}

module _ (lib : RbLibrary) (now : ℕ) (again : LuxClock → Result LuxClock) (c : LuxClock)
    (id : ℕ) where
  pub round_later : now < key_of c id → round lib again now c (some id) ≡ returned c
  unfolding round
  round_later h = rw (lt→ltb now (key_of c id) h) refl

  pub round_due :
      key_of c id ≤ now
      → round lib again now c (some id) ≡ after_erase lib again id (erase lib c id)
  unfolding round
  round_due h = rw not_later refl
    where
      not_later : ltb now (key_of c id) ≡ false
      not_later = ground arith

-- A queued one-shot subscriber whose deadline has passed.
abbrev pub Due : ℕ → LuxClock → ℕ → Type 0
Due now c j = ((c.subscribers_of j).periodic ≡ false) × (key_of c j ≤ now)

-- What a subscriber is after the first of the queue was served, and then the rest.
abbrev pub outcome : (ℕ → Subscriber) → List ℕ → ℕ → Subscriber
outcome subs js j = if mem j js then served (subs j) else subs j

outcome-remove :
    (subs subs' : ℕ → Subscriber) (js : List ℕ) (id j : ℕ)
    → In id js
    → subs' id ≡ served (subs id)
    → ((i : ℕ) → i ≢ id → subs' i ≡ subs i)
    → outcome subs' (remove id js) j ≡ outcome subs js j
outcome-remove subs subs' js id j m self other = elim (ℕ_discrete j id) [
  | yes e ↦
      subst (λ i. outcome subs' (remove id js) i ≡ outcome subs js i) (sym e)
        (rw (mem-removed id js, In-mem id js m) self)
  | no n ↦ rw (mem-remove j id js n, other j n) refl
]

module _ (lib : RbLibrary) (works : IsRbLibrary lib) (now : ℕ) where
  -- A round that serves the first of the queue.
  round_oneshot :
      (again : LuxClock → Result LuxClock) (c : LuxClock) (id : ℕ)
      → IsQueue c
      → first (queued c) ≡ some id
      → Due now c id
      → let c' = notified lib (record c { subscribers = lib.erase_cached id c.subscribers }) id in
        (round lib again now c c.subscribers.rb_leftmost ≡ again c')
        × (queued c' ≡ remove id (queued c))
        × IsQueue c'
  unfolding after_erase
  round_oneshot again c id q head due =
      let in_tree =
        In-All (λ j. in_tree_of c j ≡ true) id (queued c) q.marked (first-In _ id head) in
      let (erased, left, without) = erase_lem lib works c id q in_tree in
      let c₁ = record c { subscribers = lib.erase_cached id c.subscribers } in
      (
        ap (round lib again now c) (q.leftmost ∙ head)
            ∙ round_due lib now again c id due.1
            ∙ ap (after_erase lib again id) erased
            ∙ ap again (serve_lem lib c₁ id false due.0),
        ap (λ root. inorder (RbRoot.rb_root root)) (announce_keeps lib c₁ id (expired lib c₁ id)).1
            ∙ left,
        cleared-IsQueue (notified lib c₁ id) id (notified-IsQueueWithout lib c₁ id without)
            (ap (λ s. s.in_tree) (notified_self lib c₁ id) ∙ expire-in_tree lib c₁ id _),
      )

  -- The loop over one-shot subscribers whose deadlines have passed.
  pub work_loop_oneshot :
      (rounds : ℕ) (c : LuxClock)
      → IsQueue c
      → length (queued c) < rounds
      → All (Due now c) (queued c)
      → (c' : LuxClock) × (work_loop lib rounds now c ≡ returned c')
        × (queued c' ≡ [])
        × ((j : ℕ) → c'.subscribers_of j ≡ outcome c.subscribers_of (queued c) j)
  unfolding work_loop round
  work_loop_oneshot zero c q h due = absurd (omega arith)
  work_loop_oneshot (suc rounds) c q h due = elim (Option-cases (first (queued c))) [
    | inl e ↦
        let nil = first-none (queued c) e in
        (
          c,
          ap (round lib again now c) (q.leftmost ∙ e),
          nil,
          λ j. sym (ap (λ js. outcome c.subscribers_of js j) nil),
        )
    | inr (id, e) ↦
        let m = first-In (queued c) id e in
        let c₁ = record c { subscribers = lib.erase_cached id c.subscribers } in
        let c' = notified lib c₁ id in
        let (eq, left, q') =
          round_oneshot again c id q e (In-All (Due now c) id (queued c) due m) in
        let other = notified_other lib c₁ id in
        let rest =
          All-imp (λ j. (j ≢ id) × Due now c j) (Due now c') (remove id (queued c))
            (λ j d.
              subst (λ sub. ((sub.periodic) ≡ false) × (sub.phys_deadline ≤ now))
                (sym (other j d.0)) d.1)
            (All-both _ _ _ (remove-All (λ j. j ≢ id) id (queued c) (λ j n. n))
              (All-remove (Due now c) id (queued c) due)) in
        let (c'', eq', nil, all) =
          work_loop_oneshot rounds c' q'
            (omega
              (arith, ap (λ (js : List ℕ). length js) left, length-remove-first id (queued c) e, h))
            (subst (All (Due now c')) (sym left) rest) in
        (
          c'',
          eq ∙ eq',
          nil,
          λ j.
              all j
              ∙ ap (λ js. outcome c'.subscribers_of js j) left
              ∙ outcome-remove c.subscribers_of c'.subscribers_of (queued c) id j m
                  (notified_self lib c₁ id) other,
        )
  ]
    where
      again : LuxClock → Result LuxClock
      again = work_loop lib rounds now
