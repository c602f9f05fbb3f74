-- ===== src/EventQueue/Delivery.antt =====
-- What src/devices.c promises of the event queue: `schedule_int` returns while a slot is free, no
-- event is lost or moved for one of a lower priority, and the event is delivered by `dispatch_int`
-- in the tick that its slot stands for.
use mathlib.Core.List.{Perm}
use usloss.Base.{
  ℕ, zero, suc, ◌+◌, ◌%◌, ◌<◌, ◌≤◌, ◌≡◌, ◌∙◌, ap, sym, refl, inl, inr, some, ◌∷◌, List,
  Option-cases, some_inj, none≢some, get_or-set_ne, get_or-replicate, length-replicate, arith,
}
use usloss.EventQueue.{
  Slot, Queue, slot_at, free_slot, u8, queue_size, low_pri_dev, place, schedule_int, next_event,
  init_queue,
}
use usloss.EventQueue.Loop.{Found}
use usloss.EventQueue.Schedule.{
  IsQueue, place-total, place-perm, place-keeps, place-at, place-IsQueue,
}

pub record IsValid (q : Queue) : Type 0 where
  pub queue : IsQueue q.slots
  pub ptr_in : q.ptr < 256

abbrev pub event : ℕ → ℕ → Slot
event device arg = record { device = device; arg = arg }

-- The slot that the requested time stands for.
abbrev pub start : Queue → ℕ → ℕ
start q future_time = u8 (u8 future_time + q.ptr)

-- The queue of `devices_init` is valid.
pub init_queue-IsValid : IsValid init_queue
unfolding init_queue
init_queue-IsValid = record {
  queue = record {
    full = length-replicate 256 free_slot;
    devices = λ i. rw (get_or-replicate 256 i free_slot) (omega arith);
  };
  ptr_in = omega arith;
}

schedule_step :
    (q : Queue) (device arg t : ℕ) {slots' : List Slot}
    → place low_pri_dev q.slots (event device arg) (start q t) ≡ some slots'
    → schedule_int q device arg t ≡ some (record q { slots = slots' })
unfolding schedule_int
schedule_step q device arg t e = rw (e, schedule_int)

-- `schedule_int` changes the slots alone, to what the loop leaves.
pub record Placed (q : Queue) (device arg t : ℕ) (q' : Queue) : Type 0 where
  pub placed : place low_pri_dev q.slots (event device arg) (start q t) ≡ some q'.slots
  pub same : q'.ptr ≡ q.ptr

pub schedule_int-Placed :
    (q : Queue) (device arg t : ℕ) {q' : Queue}
    → schedule_int q device arg t ≡ some q'
    → Placed q device arg t q'
unfolding schedule_int
schedule_int-Placed q device arg t {q'} h =
    elim (Option-cases (place low_pri_dev q.slots (event device arg) (start q t))) [
      | inl e ↦ none≢some (rw (e, schedule_int) at h)
      | inr (slots', e) ↦
          let r : record q { slots = slots' } ≡ q' =
            some_inj (sym (schedule_step q device arg t e) ∙ h) in
          record {
            placed = e ∙ ap (λ (x : Queue). some x.slots) r;
            same = sym (ap (λ (x : Queue). x.ptr) r);
          }
    ]

-- If a slot is free and the device has not the lowest priority, `schedule_int` returns, and the
-- queue stays valid.
pub schedule_int-total :
    (q : Queue) (device arg t j : ℕ)
    → IsValid q
    → device < low_pri_dev
    → j < 256
    → (slot_at q.slots j).device ≡ low_pri_dev
    → (q' : Queue) × (schedule_int q device arg t ≡ some q') × IsValid q'
schedule_int-total q device arg t j v lt hj free =
    let (slots', e) =
      place-total low_pri_dev (start q t) q.slots (event device arg) j v.queue (omega arith) hj free
        lt (omega arith) in
    (
      record q { slots = slots' },
      schedule_step q device arg t e,
      record {
        queue =
            place-IsQueue low_pri_dev (start q t) q.slots (event device arg) v.queue (omega arith)
              (omega arith) e;
        ptr_in = v.ptr_in;
      },
    )

-- `schedule_int` adds the event and takes one free slot: the slots afterwards are those before with
-- one free slot exchanged for the event, in some order.
pub schedule_int-perm :
    (q : Queue) (device arg t : ℕ) {q' : Queue}
    → IsValid q
    → device ≤ low_pri_dev
    → schedule_int q device arg t ≡ some q'
    → (freed : Slot) × (freed.device ≡ low_pri_dev)
      × Perm (event device arg ∷ q.slots) (freed ∷ q'.slots)
schedule_int-perm q device arg t v le h =
    place-perm low_pri_dev (start q t) q.slots (event device arg) v.queue (omega arith) le
      (schedule_int-Placed q device arg t h).placed

-- `schedule_int` leaves every event of the same or a higher priority in its slot.
schedule_int-keeps :
    (q : Queue) (device arg t : ℕ) {q' : Queue} (k : ℕ)
    → (slot_at q.slots k).device ≤ device
    → schedule_int q device arg t ≡ some q'
    → slot_at q'.slots k ≡ slot_at q.slots k
schedule_int-keeps q device arg t k le h =
    place-keeps low_pri_dev (start q t) q.slots (event device arg) k (omega arith) le
      (schedule_int-Placed q device arg t h).placed

-- The queue after a number of device ticks in which nothing is scheduled.
pub advance : ℕ → Queue → Queue
advance zero q = q
advance (suc n) q = advance n (next_event q).1

ptr-next_event : (q : Queue) → (next_event q).1.ptr ≡ u8 (q.ptr + 1)
unfolding next_event
ptr-next_event q = refl

-- The slots that the next tick does not reach stay as they are.
slot-next_event :
    (q : Queue) (m : ℕ)
    → 1 < m
    → m ≤ 256
    → slot_at (next_event q).1.slots (u8 (q.ptr + m)) ≡ slot_at q.slots (u8 (q.ptr + m))
unfolding next_event
slot-next_event q m lo hi =
    get_or-set_ne q.slots (u8 (q.ptr + 1)) (u8 (q.ptr + m)) _ free_slot (omega arith)

next_event_slot : (q : Queue) → (next_event q).0 ≡ slot_at q.slots (u8 (q.ptr + 1))
unfolding next_event
next_event_slot q = refl

next_event-advance :
    (n : ℕ) (q : Queue)
    → n < 256
    → q.ptr < 256
    → (next_event (advance n q)).0 ≡ slot_at q.slots (u8 (q.ptr + suc n))
unfolding advance
next_event-advance zero q h hp = next_event_slot q
next_event-advance (suc n) q h hp =
    next_event-advance n (next_event q).1 (omega arith) (omega (arith, ptr-next_event q))
    ∙ (ap (slot_at (next_event q).1.slots) (omega (arith, ptr-next_event q))
        ∙ slot-next_event q (suc (suc n)) (omega arith) (omega arith))

-- The event that `schedule_int` adds is taken out by `dispatch_int` in the tick of the first slot,
-- from the requested tick on, that holds an event of a lower priority or none, counted round the
-- queue: `t` ticks and `steps` more, if nothing else is scheduled in between.
schedule_int-delivers :
    (q : Queue) (device arg t : ℕ) {q' : Queue}
    → IsValid q
    → schedule_int q device arg t ≡ some q'
    → (i : ℕ) × (found : Found q.slots device queue_size (start q t) i) × ((next_event
          (advance ((t + found.steps + 255) % 256) q')).0
        ≡ event device arg)
schedule_int-delivers q device arg t {q'} v h =
    let p = schedule_int-Placed q device arg t h in
    let (i, hi, f, e) =
      place-at low_pri_dev (start q t) q.slots (event device arg) v.queue (omega arith) p.placed in
    let n = (t + f.steps + 255) % 256 in
    (
      i,
      f,
      next_event-advance n q' (omega arith) (omega (arith, p.same, v.ptr_in))
          ∙ (ap (slot_at q'.slots) (omega (arith, p.same, f.at, v.ptr_in)) ∙ e),
    )
