-- ===== src/Board/Census.antt =====
-- How many events of each kind the queue of src/devices.c holds: the alarm's, those of each disk,
-- and any others. `schedule_int` adds one, and `dispatch_int` takes one away.
use usloss.Base.{
  ℕ, ◌+◌, ◌<◌, ◌≤◌, ◌≡◌, refl, ◌&&◌, List, [], ◌∷◌, some, length, ◌==◌, if◌then◌else◌, arith, tally,
  tally-Perm, tally-find, tally-replicate, perm-set,
}
use usloss.EventQueue.{
  Slot, Queue, slot_at, free_slot, u8, alarm_dev, disk_dev, low_pri_dev, schedule_int, next_event,
  init_queue,
}
use usloss.EventQueue.Schedule.{set-IsQueue}
use usloss.EventQueue.Delivery.{IsValid, event, schedule_int-perm}

-- The kinds of a slot: free, an event of the alarm, of disk 0, of disk 1, and any other event.
unfoldable pub kind : Slot → ℕ
kind s =
    if s.device == low_pri_dev
    then 0
    else if s.device == alarm_dev
    then 1
    else if (s.device == disk_dev) && (s.arg == 0)
    then 2
    else if (s.device == disk_dev) && (s.arg == 1)
    then 3
    else 4

abbrev pub weight : ℕ → Slot → ℕ
weight k s = if kind s == k then 1 else 0

-- The number of slots of a kind.
abbrev pub census : ℕ → List Slot → ℕ
census k slots = tally (weight k) slots

kind-le : (s : Slot) → kind s ≤ 4
unfolding kind
kind-le s = ground arith

one_kind : (s : Slot) → weight 0 s + weight 1 s + weight 2 s + weight 3 s + weight 4 s ≡ 1
one_kind s = let h = kind-le s in ground arith

pub census-total :
    (slots : List Slot)
    → census 0 slots + census 1 slots + census 2 slots + census 3 slots + census 4 slots
      ≡ length slots
census-total [] = refl
census-total (s ∷ slots) = omega (arith, one_kind s, census-total slots)

free_kind : (s : Slot) → 1 ≤ weight 0 s → s.device ≡ low_pri_dev
unfolding kind
free_kind s h = ground arith

pub kind-free : (s : Slot) (k : ℕ) → s.device ≡ low_pri_dev → 1 ≤ k → weight k s ≡ 0
unfolding kind
kind-free s k e h = ground arith

-- A queue that does not hold 256 events has a free slot.
pub census-free :
    (slots : List Slot)
    → length slots ≡ 256
    → 1 ≤ census 0 slots
    → (j : ℕ) × (j < 256) × ((slot_at slots j).device ≡ low_pri_dev)
census-free slots full some_free =
    let (j, lt, e) = tally-find (weight 0) slots free_slot some_free in
    (j, omega (arith, full), free_kind (slot_at slots j) e)

-- `schedule_int` adds its event.
pub census-schedule_int :
    (q q' : Queue) (device arg t k : ℕ)
    → IsValid q
    → device ≤ low_pri_dev
    → schedule_int q device arg t ≡ some q'
    → 1 ≤ k
    → census k q'.slots ≡ weight k (event device arg) + census k q.slots
census-schedule_int q q' device arg t k v le e h =
    let (freed, low, p) = schedule_int-perm q device arg t v le e in
    omega (arith, tally-Perm (weight k) p, kind-free freed k low h)

-- `dispatch_int` takes its event away.
pub census-next_event :
    (q : Queue) (k : ℕ)
    → IsValid q
    → 1 ≤ k
    → weight k (next_event q).0 + census k (next_event q).1.slots ≡ census k q.slots
unfolding next_event
census-next_event q k v h =
    let i = u8 (q.ptr + 1) in
    let s = record (slot_at q.slots i) { device = low_pri_dev } in
    omega (
      arith,
      tally-Perm (weight k) (perm-set q.slots i s free_slot (omega (arith, v.queue.full))),
      kind-free s k refl h,
    )

pub next_event-IsValid : (q : Queue) → IsValid q → IsValid (next_event q).1
unfolding next_event
next_event-IsValid q v = record {
  queue = set-IsQueue q.slots (u8 (q.ptr + 1)) _ (omega arith) (omega arith) v.queue;
  ptr_in = omega arith;
}

pub census-init_queue : (k : ℕ) → 1 ≤ k → census k init_queue.slots ≡ 0
unfolding init_queue
census-init_queue k h = tally-replicate (weight k) 256 free_slot (kind-free free_slot k refl h)
