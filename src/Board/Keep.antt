-- ===== src/Board/Keep.antt =====
-- What an event that `dispatch_int` of src/devices.c takes out of the queue says of the devices.
use usloss.Base.{
  ℕ, zero, suc, ◌+◌, ◌<◌, ◌≤◌, ◌≡◌, refl, ◌∙◌, Bool, true, false, length, length-set, set, arith,
  Bool-cases, inl, inr,
}
use usloss.EventQueue.{Slot, Queue, alarm_dev, disk_dev, next_event}
use usloss.EventQueue.Delivery.{IsValid, event}
use usloss.Devices.Disk.{Memory, Disk, is_busy}
use usloss.Board.{Board}
use usloss.Board.Census.{kind, weight, census, census-next_event, next_event-IsValid}
use usloss.Board.Inv.{one, busy_at, pending, Consistent, pending-set, pending-armed}

one-true : (x : Bool) → 1 ≤ one x → x ≡ true
one-true true h = refl
one-true false h = absurd (omega arith)

module _ (memory : Memory) where
  open memory use {Mem}

  -- Of an event that has been taken out of the queue, the other requests are still counted.
  pub record Taken (b : Board memory) (e : Slot) (q : Queue) : Type 0 where
    pub valid : IsValid q
    pub two : length b.disks ≡ 2
    pub left : (k : ℕ) → 1 ≤ k → weight k e + census k q.slots ≡ pending memory b.armed b.disks k

  pub next_event-Taken :
      (b : Board memory)
      → Consistent memory b
      → Taken b (next_event b.queue).0 (next_event b.queue).1
  next_event-Taken b c = record {
    valid = next_event-IsValid b.queue c.queue;
    two = c.two;
    left = λ k h. census-next_event b.queue k c.queue h ∙ c.counted k h;
  }

  -- The alarm's event is there only while the alarm is armed.
  pub Taken-alarm :
      (b : Board memory) (arg : ℕ) (q : Queue)
      → Taken b (event alarm_dev arg) q
      → Consistent memory (record b { queue = q; armed = false })
  unfolding kind
  Taken-alarm b arg q t = record {
    queue = t.valid;
    two = t.two;
    counted = λ k h. elim (Bool-cases b.armed) [
      | inl on ↦ omega (arith, rw on at (t.left k h), pending-armed memory b.disks k arg)
      | inr off ↦ let none_left = rw off at (t.left 1 (omega arith)) in absurd (omega arith)
    ];
  }

  pub busy :
      (b : Board memory) (u : ℕ) (q : Queue)
      → u < 2
      → Taken b (event disk_dev u) q
      → busy_at memory b.disks u ≡ true
  unfolding kind
  busy b zero q h t = one-true (busy_at memory b.disks 0) (omega (arith, t.left 2 (omega arith)))
  busy b (suc zero) q h t =
      one-true (busy_at memory b.disks 1) (omega (arith, t.left 3 (omega arith)))
  busy b (suc (suc u)) q h t = absurd (omega arith)

  -- A disk's event is there only while the disk is busy, and its action leaves it idle.
  pub Taken-disk :
      (b : Board memory) (u : ℕ) (q : Queue) (d : Disk memory) (mem : Mem)
      → u < 2
      → Taken b (event disk_dev u) q
      → is_busy d.status ≡ false
      → Consistent memory (record b { queue = q; disks = set b.disks u d; mem = mem })
  Taken-disk b u q d mem h t idle = record {
    queue = t.valid;
    two = length-set b.disks u d ∙ t.two;
    counted = λ k hk.
        let change =
          rw (busy b u q h t, idle) at (pending-set memory b.armed b.disks u d k t.two h) in
        omega (arith, change, t.left k hk);
  }
