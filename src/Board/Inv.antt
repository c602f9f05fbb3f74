-- ===== src/Board/Inv.antt =====
-- The invariant of the devices together: every pending request of src/dev_alarm.c and
-- src/dev_disk.c has exactly one event in the queue of src/devices.c, and the queue holds no other
-- event.
use usloss.Base.{
  ℕ, zero, suc, ◌+◌, ◌*◌, ◌<◌, ◌≤◌, ◌≡◌, Bool, true, false, List, [], ◌∷◌, length, set, arith,
}
use usloss.EventQueue.{alarm_dev, disk_dev, low_pri_dev, slot_at}
use usloss.EventQueue.Delivery.{IsValid, event}
use usloss.Devices.Alarm.{Alarm}
use usloss.Devices.Disk.{Memory, Disk, disk_at, is_busy}
use usloss.Board.{Board}
use usloss.Board.Census.{kind, weight, census, census-total, census-free}

abbrev pub one : Bool → ℕ
one true = 1
one false = 0

module _ (memory : Memory) where
  abbrev pub busy_at : List (Disk memory) → ℕ → Bool
  busy_at disks u = is_busy (disk_at memory disks u).status

  -- How many requests of a kind are pending.
  abbrev pub pending : Alarm → List (Disk memory) → ℕ → ℕ
  pending armed disks (suc zero) = one armed
  pending armed disks (suc (suc zero)) = one (busy_at disks 0)
  pending armed disks (suc (suc (suc zero))) = one (busy_at disks 1)
  pending armed disks _ = 0

  pub record Consistent (b : Board memory) : Type 0 where
    pub queue : IsValid b.queue
    pub two : length b.disks ≡ 2
    pub counted : (k : ℕ) → 1 ≤ k → census k b.queue.slots ≡ pending b.armed b.disks k

  -- A change that leaves the queue, the alarm and which disks are busy.
  pub same-Consistent :
      (b b' : Board memory)
      → Consistent b
      → b'.queue ≡ b.queue
      → b'.armed ≡ b.armed
      → length b'.disks ≡ length b.disks
      → ((k : ℕ) → pending b'.armed b'.disks k ≡ pending b'.armed b.disks k)
      → Consistent b'
  same-Consistent b b' c eq ea el ep = record {
    queue = rw eq c.queue;
    two = omega (arith, el, c.two);
    counted = λ k h. rw (eq, ep k, ea) (c.counted k h);
  }

  -- At most three events are pending, so a slot is free.
  one-le : (x : Bool) → one x ≤ 1
  one-le true = omega arith
  one-le false = omega arith

  pub Consistent-free :
      (b : Board memory)
      → Consistent b
      → (j : ℕ) × (j < 256) × ((slot_at b.queue.slots j).device ≡ low_pri_dev)
  Consistent-free b c = census-free b.queue.slots c.queue.queue.full (
      omega (
        arith,
        census-total b.queue.slots,
        c.queue.queue.full,
        c.counted 1 (omega arith),
        c.counted 2 (omega arith),
        c.counted 3 (omega arith),
        c.counted 4 (omega arith),
        one-le b.armed,
        one-le (busy_at b.disks 0),
        one-le (busy_at b.disks 1),
      ))

  -- A disk that changes its status changes the number of its requests alone.
  pub pending-set :
      (armed : Alarm) (disks : List (Disk memory)) (u : ℕ) (d : Disk memory) (k : ℕ)
      → length disks ≡ 2
      → u < 2
      → pending armed (set disks u d) k + weight k (event disk_dev u) * one (busy_at disks u)
        ≡ pending armed disks k + weight k (event disk_dev u) * one (is_busy d.status)
  unfolding kind
  pending-set armed [] u d k e h = absurd (omega arith)
  pending-set armed (_ ∷ []) u d k e h = absurd (omega arith)
  pending-set armed (_ ∷ _ ∷ _ ∷ _) u d k e h = absurd (omega arith)
  pending-set armed (_ ∷ _ ∷ []) (suc (suc u)) d k e h = absurd (omega arith)
  pending-set armed (d0 ∷ d1 ∷ []) zero d zero e h = omega arith
  pending-set armed (d0 ∷ d1 ∷ []) zero d (suc zero) e h = omega arith
  pending-set armed (d0 ∷ d1 ∷ []) zero d (suc (suc zero)) e h = omega arith
  pending-set armed (d0 ∷ d1 ∷ []) zero d (suc (suc (suc zero))) e h = omega arith
  pending-set armed (d0 ∷ d1 ∷ []) zero d (suc (suc (suc (suc k)))) e h = ground arith
  pending-set armed (d0 ∷ d1 ∷ []) (suc zero) d zero e h = omega arith
  pending-set armed (d0 ∷ d1 ∷ []) (suc zero) d (suc zero) e h = omega arith
  pending-set armed (d0 ∷ d1 ∷ []) (suc zero) d (suc (suc zero)) e h = omega arith
  pending-set armed (d0 ∷ d1 ∷ []) (suc zero) d (suc (suc (suc zero))) e h = omega arith
  pending-set armed (d0 ∷ d1 ∷ []) (suc zero) d (suc (suc (suc (suc k)))) e h = ground arith

  -- An alarm counts once.
  pub pending-armed :
      (disks : List (Disk memory)) (k arg : ℕ)
      → pending true disks k ≡ weight k (event alarm_dev arg) + pending false disks k
  unfolding kind
  pending-armed disks zero arg = omega arith
  pending-armed disks (suc zero) arg = omega arith
  pending-armed disks (suc (suc zero)) arg = omega arith
  pending-armed disks (suc (suc (suc zero))) arg = omega arith
  pending-armed disks (suc (suc (suc (suc k)))) arg = ground arith
