-- ===== src/EventQueue/Due.antt =====
-- What `dispatch_int` of src/devices.c delivers in the ticks to come, and what `schedule_int` makes
-- of it.
use usloss.Base.{
  ℕ, zero, suc, ◌+◌, ◌-◌, ◌<◌, ◌≤◌, ◌≡◌, ◌∙◌, refl, ap, sym, some, List, [], ◌∷◌, ◌++◌, length,
  arith,
}
use usloss.EventQueue.{Slot, Queue, slot_at, u8, low_pri_dev, schedule_int, next_event}
use usloss.EventQueue.Window.{window, window-add, window-set_after}
use usloss.EventQueue.Agenda.{insert, place-insert}
use usloss.EventQueue.Delivery.{IsValid, schedule_int-Placed, schedule_int-total, event, start}

-- The events that `dispatch_int` takes out in the next `n` ticks, if nothing is scheduled.
pub due : ℕ → Queue → List Slot
due zero q = []
due (suc n) q = (next_event q).0 ∷ due n (next_event q).1

due-window :
    (n : ℕ) (q : Queue) → n ≤ 256 → q.ptr < 256 → due n q ≡ window q.slots (u8 (q.ptr + 1)) n
unfolding due next_event window
due-window zero q hn hp = refl
due-window (suc n) q hn hp =
    ap (λ x. slot_at q.slots (u8 (q.ptr + 1)) ∷ x)
      (due-window n (next_event q).1 (omega arith) (omega arith)
        ∙ window-set_after q.slots _ n (u8 (q.ptr + 1)) (omega arith) (omega arith))

length-window : (n i : ℕ) (slots : List Slot) → length (window slots i n) ≡ n
unfolding window
length-window zero i slots = refl
length-window (suc n) i slots = ap suc (length-window n (u8 (i + 1)) slots)

-- The ticks before a time and those from it on.
due_split :
    (q : Queue) (t : ℕ)
    → 1 ≤ t
    → t ≤ 256
    → q.ptr < 256
    → due 256 q ≡ window q.slots (u8 (q.ptr + 1)) (t - 1) ++ window q.slots (start q t) (257 - t)
due_split q t lo hi hp =
    let e : t - 1 + (257 - t) ≡ 256 = omega arith in
    let s : u8 (u8 (q.ptr + 1) + (t - 1)) ≡ start q t = omega arith in
    due-window 256 q (omega arith) hp
    ∙ rw (e, s) at (window-add (t - 1) (257 - t) (u8 (q.ptr + 1)) q.slots (omega arith))

-- The same, from that time on.
start_split :
    (q : Queue) (t : ℕ)
    → 1 ≤ t
    → t ≤ 256
    → q.ptr < 256
    → window q.slots (start q t) 256
      ≡ window q.slots (start q t) (257 - t) ++ window q.slots (u8 (q.ptr + 1)) (t - 1)
start_split q t lo hi hp =
    let e : 257 - t + (t - 1) ≡ 256 = omega arith in
    let s : u8 (start q t + (257 - t)) ≡ u8 (q.ptr + 1) = omega arith in
    rw (e, s) at (window-add (257 - t) (t - 1) (start q t) q.slots (omega arith))

-- The event queue behaves like a list of what is due in the next 256 ticks. With a free slot
-- `schedule_int` returns, for a time of 1 to 256 ticks and a device above the lowest priority; of
-- what was due, the part before that time and the part from it on are then, taken in the order in
-- which the search goes round, one pass of `insert` over the old ones: the event goes before the
-- first one of a lower priority, which moves on in the same way, up to the first free slot.
pub due-schedule_int :
    (q : Queue) (device arg t j : ℕ)
    → IsValid q
    → device < low_pri_dev
    → j < 256
    → (slot_at q.slots j).device ≡ low_pri_dev
    → 1 ≤ t
    → t ≤ 256
    → (q' : Queue) × (before : List Slot) × (onward : List Slot) × (before' : List Slot)
      × (onward' : List Slot) × (schedule_int q device arg t ≡ some q')
      × (due 256 q ≡ before ++ onward)
      × (due 256 q' ≡ before' ++ onward')
      × (length before ≡ t - 1)
      × (length before' ≡ t - 1)
      × (onward' ++ before' ≡ insert (event device arg) (onward ++ before))
due-schedule_int q device arg t j v lt hj free lo hi =
    let (q', h, v') = schedule_int-total q device arg t j v lt hj free in
    let p = schedule_int-Placed q device arg t h in
    let pass =
      place-insert low_pri_dev (start q t) 256 q.slots (event device arg) v.queue (omega arith)
        (omega arith) (omega arith) (λ m l u. absurd (omega arith)) p.placed in
    let first : start q' t ≡ start q t = rw p.same refl in
    (
      q',
      window q.slots (u8 (q.ptr + 1)) (t - 1),
      window q.slots (start q t) (257 - t),
      window q'.slots (u8 (q'.ptr + 1)) (t - 1),
      window q'.slots (start q' t) (257 - t),
      h,
      due_split q t lo hi v.ptr_in,
      due_split q' t lo hi v'.ptr_in,
      length-window (t - 1) (u8 (q.ptr + 1)) q.slots,
      length-window (t - 1) (u8 (q'.ptr + 1)) q'.slots,
      sym (start_split q' t lo hi v'.ptr_in)
          ∙ (ap (λ i. window q'.slots i 256) first ∙ pass)
          ∙ ap (insert (event device arg)) (start_split q t lo hi v.ptr_in),
    )
