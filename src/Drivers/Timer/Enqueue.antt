-- ===== src/Drivers/Timer/Enqueue.antt =====
-- The queue of deadlines: what `lux_timer_enqueue` and `rb_erase_cached` do to it.
use native.Mathlib.Decide.{ℕ_discrete}
use qemu_devices_and_drivers.Base.{
  ℕ, Bool, true, false, false≢true, if◌then◌else◌, some, ◌≡◌, ◌≢◌, refl, sym, ◌∙◌, ap, ap₂, subst,
  ==_iff, ==_ne, inl, inr, arith, done, if◌then◌else◌,
}
use qemu_devices_and_drivers.Drivers.Timer.{
  Subscriber, RbRoot, RbLibrary, IsRbLibrary, LuxClock, In, inorder, RbTree, first, remove, queued,
  key_of, store, erase,
}
use qemu_devices_and_drivers.Drivers.Timer.Queue.{link, lux_timer_enqueue}
use qemu_devices_and_drivers.Drivers.Timer.Members.{
  All-const, All-both, Descending-keys, All-remove, remove-All, Descending-remove, In-remove,
  In-insert,
}
use qemu_devices_and_drivers.Drivers.Timer.Order.{
  All, All-imp, All-insert_descending, Descending, insert_descending, link_lem,
  first-insert_descending, insert_descending-Descending,
}

abbrev pub in_tree_of : LuxClock → ℕ → Bool
in_tree_of c j = (c.subscribers_of j).in_tree

-- The queue is in order, the cached node is its first, and the nodes that are not cleared are those
-- of the queue.
pub record IsQueueOf (subs : ℕ → Subscriber) (root : RbRoot) : Type 0 where
  pub ordered : Descending (λ j. (subs j).phys_deadline) (inorder root.rb_root)
  pub leftmost : root.rb_leftmost ≡ first (inorder root.rb_root)
  pub marked : All (λ j. (subs j).in_tree ≡ true) (inorder root.rb_root)
  pub present : (j : ℕ) → (subs j).in_tree ≡ true → In j (inorder root.rb_root)

abbrev pub IsQueue : LuxClock → Type 0
IsQueue c = IsQueueOf c.subscribers_of c.subscribers

-- The same for all but one subscriber, which is not in the queue.
pub record IsQueueOfWithout (id : ℕ) (subs : ℕ → Subscriber) (root : RbRoot) : Type 0 where
  pub ordered : Descending (λ j. (subs j).phys_deadline) (inorder root.rb_root)
  pub leftmost : root.rb_leftmost ≡ first (inorder root.rb_root)
  pub marked : All (λ j. (subs j).in_tree ≡ true) (inorder root.rb_root)
  pub out : All (λ j. j ≢ id) (inorder root.rb_root)
  pub present : (j : ℕ) → j ≢ id → (subs j).in_tree ≡ true → In j (inorder root.rb_root)

abbrev pub IsQueueWithout : ℕ → LuxClock → Type 0
IsQueueWithout id c = IsQueueOfWithout id c.subscribers_of c.subscribers

module _ (c : LuxClock) (id : ℕ) (sub : Subscriber) where
  pub store_self : (store c id sub).subscribers_of id ≡ sub
  store_self = rw ((==_iff id id).1 refl) refl

  pub store_other : (j : ℕ) → j ≢ id → (store c id sub).subscribers_of j ≡ c.subscribers_of j
  store_other j n = rw (==_ne j id n) refl

  -- A subscriber that is not queued can be changed freely.
  pub store-IsQueueWithout : IsQueueWithout id c → IsQueueWithout id (store c id sub)
  store-IsQueueWithout q = record {
    ordered =
        Descending-keys (key_of c) _ (queued c)
          (All-imp (λ j. j ≢ id) _ (queued c) (λ j n. ap (λ s. s.phys_deadline) (store_other j n))
            q.out)
          q.ordered;
    leftmost = q.leftmost;
    marked =
        All-imp (λ j. (j ≢ id) × (in_tree_of c j ≡ true)) _ (queued c)
          (λ j h. ap (λ s. s.in_tree) (store_other j h.0) ∙ h.1)
          (All-both _ _ (queued c) q.out q.marked);
    out = q.out;
    present = λ j n h. q.present j n (ap (λ s. s.in_tree) (sym (store_other j n)) ∙ h);
  }

-- The queues of two clocks are the same: the tree, and what the queue reads of each subscriber.
abbrev pub SameAt : LuxClock → LuxClock → ℕ → Type 0
SameAt c c' j =
    (key_of c' j ≡ key_of c j)
    × (in_tree_of c' j ≡ in_tree_of c j)
    × (c'.subscribers ≡ c.subscribers)

pub Same-IsQueue : (c c' : LuxClock) → ((j : ℕ) → SameAt c c' j) → IsQueue c → IsQueue c'
Same-IsQueue c c' same q = subst (IsQueueOf c'.subscribers_of) (sym (same 0).2) (record {
  ordered =
      Descending-keys (key_of c) _ (queued c) (All-const _ (queued c) (λ j. (same j).0)) q.ordered;
  leftmost = q.leftmost;
  marked = All-imp (λ j. in_tree_of c j ≡ true) _ (queued c) (λ j m. (same j).1 ∙ m) q.marked;
  present = λ j m. q.present j (sym (same j).1 ∙ m);
})

module _ (c : LuxClock) (id : ℕ) where
  pub cleared-IsQueue : IsQueueWithout id c → in_tree_of c id ≡ false → IsQueue c
  cleared-IsQueue q cleared = record {
    ordered = q.ordered;
    leftmost = q.leftmost;
    marked = q.marked;
    present = λ j h. elim (ℕ_discrete j id) [
      | yes e ↦ absurd (false≢true (sym cleared ∙ subst (λ k. in_tree_of c k ≡ true) e h))
      | no n ↦ q.present j n h
    ];
  }

  pub cleared-IsQueueWithout : IsQueue c → in_tree_of c id ≡ false → IsQueueWithout id c
  cleared-IsQueueWithout q cleared = record {
    ordered = q.ordered;
    leftmost = q.leftmost;
    marked = q.marked;
    out =
        All-imp (λ j. in_tree_of c j ≡ true) _ (queued c)
          (λ j h e. false≢true (sym cleared ∙ subst (λ k. in_tree_of c k ≡ true) e h)) q.marked;
    present = λ j n h. q.present j h;
  }

pub enqueue_self :
    (lib : RbLibrary) (c : LuxClock) (id : ℕ)
    → (lux_timer_enqueue lib c id).subscribers_of id
      ≡ record (c.subscribers_of id) { in_tree = true }
unfolding lux_timer_enqueue
enqueue_self lib c id = store_self c id (record (c.subscribers_of id) { in_tree = true })

module _ (lib : RbLibrary) (works : IsRbLibrary lib) (c : LuxClock) (id : ℕ) where
  -- Taking a queued node out of the tree.
  pub erase_lem :
      IsQueue c
      → in_tree_of c id ≡ true
      → let c' = record c { subscribers = lib.erase_cached id c.subscribers } in
        (erase lib c id ≡ done c') × (queued c' ≡ remove id (queued c)) × IsQueueWithout id c'
  unfolding erase
  erase_lem q h = (
    rw h refl,
    left,
    record {
      ordered =
          subst (Descending (key_of c)) (sym left)
            (Descending-remove (key_of c) id (queued c) q.ordered);
      leftmost =
          works.erase_leftmost id c.subscribers (q.present id h) q.leftmost ∙ ap first (sym left);
      marked =
          subst (All (λ j. in_tree_of c j ≡ true)) (sym left) (All-remove _ id (queued c) q.marked);
      out =
          subst (All (λ j. j ≢ id)) (sym left) (remove-All (λ j. j ≢ id) id (queued c) (λ j n. n));
      present = λ j n h.
          subst (In j) (sym left) (In-remove id j (queued c) (==_ne j id n) (q.present j h));
    },
  )
    where
      left : inorder (lib.erase_cached id c.subscribers).rb_root ≡ remove id (queued c)
      left = works.erase_removes id c.subscribers (q.present id h)

  abbrev marked_sub : Subscriber
  marked_sub = record (c.subscribers_of id) { in_tree = true }

  same_keys : (j : ℕ) → key_of (store c id marked_sub) j ≡ key_of c j
  same_keys j = ground arith

  mark_keeps : (j : ℕ) → in_tree_of c j ≡ true → in_tree_of (store c id marked_sub) j ≡ true
  mark_keeps j h = ground arith

  -- `lux_timer_enqueue` inserts into the descending list.
  pub lux_timer_enqueue_lem :
      IsQueueWithout id c
      → let c' = lux_timer_enqueue lib c id in
        (queued c' ≡ insert_descending (key_of c) id (queued c)) × IsQueue c'
  unfolding lux_timer_enqueue
  lux_timer_enqueue_lem q = (
    list,
    record {
      ordered = subst (Descending _) (sym list) (
          Descending-keys (key_of c) _ _ (All-const _ _ same_keys)
            (insert_descending-Descending (key_of c) id (queued c) q.ordered));
      leftmost =
          works.insert_color_leftmost id _ walked.1
          ∙ ap₂ (λ (b : Bool) o. if b then some id else o)
              (link_lem (key_of c) id c.subscribers.rb_root q.ordered).1 q.leftmost
          ∙ sym (first-insert_descending (key_of c) id (queued c))
          ∙ ap first (sym list);
      marked = subst (All _) (sym list) (
          All-insert_descending _ (key_of c) id (queued c)
            (ap (λ s. s.in_tree) (store_self c id marked_sub))
            (All-imp _ _ (queued c) mark_keeps q.marked));
      present = λ j h. subst (In j) (sym list) (
          In-insert (key_of c) id (queued c) j (elim (ℕ_discrete j id) [
            | yes e ↦ inl e
            | no n ↦
                inr
                  (q.present j n (ap (λ s. s.in_tree) (sym (store_other c id marked_sub j n)) ∙ h))
          ]));
    },
  )
    where
      walked : RbTree × Bool
      walked = link (key_of c) id c.subscribers.rb_root

      list :
          inorder
            (lib.insert_color_cached id
              (record { rb_root = walked.0; rb_leftmost = c.subscribers.rb_leftmost })
              walked.1).rb_root
          ≡ insert_descending (key_of c) id (queued c)
      list =
          works.insert_color_keeps id _ walked.1
          ∙ (link_lem (key_of c) id c.subscribers.rb_root q.ordered).0
