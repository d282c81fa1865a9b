-- ===== src/Drivers/Timer.antt =====
-- qemu-drivers/led-gpio/include/lux.h: the timer driver's clock and its subscribers, one for each
-- open file. A subscriber is known by a number, its address, and `subscribers_of` is the memory
-- they lie in. `f1` is the device behind `base`. The red-black tree of the kernel is a parameter:
-- its nodes are subscribers, and what rebalancing does to its shape is the kernel's.
pub mod Queue
pub mod Fops
pub mod Ioctl
pub mod Work
pub mod Order
pub mod Members
pub mod Enqueue
pub mod Valid
pub mod Served
pub mod Loop
pub mod Latest
pub mod Alarm
pub mod Users
pub mod Last
pub mod Privilege
pub mod Time
use qemu_devices_and_drivers.Base.{
  ℕ, ◌+◌, ◌-◌, ◌^◌, Bool, true, false, not, ◌==◌, if◌then◌else◌, Option, none, some, List, [], ◌∷◌,
  ◌++◌, ◌≡◌, ◌⊎◌, Outcome, done, fault,
}
use qemu_devices_and_drivers.Words.{u32}
use qemu_devices_and_drivers.Lux.Device.{F1}

-- `struct lux_clock_subscriber`. The signed `time_offset` is kept as its 64-bit word, `in_tree` is
-- whether the node is not cleared, and `async_task` is a process number.
pub record Subscriber : Type 0 where
  pub in_tree : Bool
  pub time_offset : ℕ
  pub irq_data : ℕ
  pub periodic_delta : ℕ
  pub deadline : ℕ
  pub phys_deadline : ℕ
  pub enabled : Bool
  pub periodic : Bool
  pub async : Bool
  pub signo : ℕ
  pub async_task : Option ℕ

-- `kzalloc` and RB_CLEAR_NODE.
abbrev pub fresh : Subscriber
fresh = record {
  in_tree = false;
  time_offset = 0;
  irq_data = 0;
  periodic_delta = 0;
  deadline = 0;
  phys_deadline = 0;
  enabled = false;
  periodic = false;
  async = false;
  signo = 0;
  async_task = none;
}

pub data RbTree : Type 0 where
  leaf : RbTree
  node : RbTree → ℕ → RbTree → RbTree

-- `struct rb_root_cached`.
pub record RbRoot : Type 0 where
  pub rb_root : RbTree
  pub rb_leftmost : Option ℕ

-- The nodes of a tree, from left to right.
abbrev pub inorder : RbTree → List ℕ
inorder leaf = []
inorder (node l id r) = inorder l ++ (id ∷ inorder r)

abbrev pub first : List ℕ → Option ℕ
first [] = none
first (id ∷ ids) = some id

abbrev pub remove : ℕ → List ℕ → List ℕ
remove id [] = []
remove id (j ∷ ids) = if j == id then remove id ids else j ∷ remove id ids

abbrev pub In : ℕ → List ℕ → Type 0
In id [] = ⊥
In id (j ∷ ids) = (j ≡ id) ⊎ In id ids

-- The kernel's `rb_insert_color_cached` and `rb_erase_cached`.
pub record RbLibrary : Type 0 where
  pub insert_color_cached : ℕ → RbRoot → Bool → RbRoot
  pub erase_cached : ℕ → RbRoot → RbRoot

-- What the kernel documents of them: rebalancing keeps the order of the nodes, erasing a node of
-- the tree takes out the one node, and the cached node is the given one, or stays the first.
pub record IsRbLibrary (lib : RbLibrary) : Type 0 where
  pub insert_color_keeps :
      (id : ℕ) (root : RbRoot) (leftmost : Bool)
      → inorder (lib.insert_color_cached id root leftmost).rb_root ≡ inorder root.rb_root
  pub insert_color_leftmost :
      (id : ℕ) (root : RbRoot) (leftmost : Bool)
      → (lib.insert_color_cached id root leftmost).rb_leftmost
        ≡ (if leftmost then some id else root.rb_leftmost)
  pub erase_removes :
      (id : ℕ) (root : RbRoot)
      → In id (inorder root.rb_root)
      → inorder (lib.erase_cached id root).rb_root ≡ remove id (inorder root.rb_root)
  pub erase_leftmost :
      (id : ℕ) (root : RbRoot)
      → In id (inorder root.rb_root)
      → root.rb_leftmost ≡ first (inorder root.rb_root)
      → (lib.erase_cached id root).rb_leftmost ≡ first (remove id (inorder root.rb_root))

-- `struct lux_clock`, and what the driver does to the rest of the kernel: the addresses given out,
-- whether the work is queued, the signals sent (number and process) and the subscribers woken up,
-- the latest first. The two counters are 32-bit words.
pub record LuxClock : Type 0 where
  pub f1 : F1
  pub subscribers_of : ℕ → Subscriber
  pub allocated : ℕ
  pub subscribers : RbRoot
  pub enabled_users : ℕ
  pub periodic_users : ℕ
  pub work_queued : Bool
  pub signals : List (ℕ × ℕ)
  pub woken : List ℕ

-- A write to the subscriber at an address.
abbrev pub store : LuxClock → ℕ → Subscriber → LuxClock
store c id sub = record c { subscribers_of = λ j. if j == id then sub else c.subscribers_of j }

abbrev pub queued : LuxClock → List ℕ
queued c = inorder c.subscribers.rb_root

abbrev pub key_of : LuxClock → ℕ → ℕ
key_of c j = (c.subscribers_of j).phys_deadline

-- `atomic_inc`, and the value that `atomic_dec_and_test` leaves.
abbrev pub atomic_inc : ℕ → ℕ
atomic_inc n = u32 (n + 1)

abbrev pub atomic_dec : ℕ → ℕ
atomic_dec n = u32 (n + 2 ^ 32 - 1)

-- RB_CLEAR_NODE.
abbrev pub clear_node : LuxClock → ℕ → LuxClock
clear_node c id = store c id (record (c.subscribers_of id) { in_tree = false })

-- `rb_erase_cached`, which is undefined on a cleared node.
unfoldable pub erase : RbLibrary → LuxClock → ℕ → Outcome LuxClock
erase lib c id =
    if (c.subscribers_of id).in_tree
    then done (record c { subscribers = lib.erase_cached id c.subscribers })
    else fault
