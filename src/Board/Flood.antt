-- ===== src/Board/Flood.antt =====
-- `alarm_request` of src/dev_alarm.c does not look at `armed`: what a series of requests does to
-- the queue.
use mathlib.Core.Path.{subst}
use usloss.Base.{
  ℕ, suc, ◌+◌, ◌<◌, ◌≤◌, ◌≡◌, refl, ◌∙◌, ap, true, false, Option, none, some, List, [], ◌∷◌, length,
  arith, pos, tally-full,
}
use usloss.EventQueue.{
  Queue, slot_at, free_slot, Slot, alarm_dev, schedule_int, init_queue, find_lower,
}
use usloss.EventQueue.Loop.{find_lower-diverges}
use usloss.EventQueue.Delivery.{IsValid, event, start, schedule_int-total, init_queue-IsValid}
use usloss.Devices.Codes.{Code, ok}
use usloss.Devices.Alarm.{Alarm, alarm_request}
use usloss.Board.Census.{
  kind, weight, census, census-total, census-free, census-schedule_int, census-init_queue,
}

abbrev after :
    (Alarm → Queue → Option (Alarm × Queue))
    → Option (Code × Alarm × Queue)
    → Option (Alarm × Queue)
after k none = none
after k (some r) = k r.1 r.2

-- Requests for alarms at some times, one after the other.
unfoldable pub alarms : List ℕ → Alarm → Queue → Option (Alarm × Queue)
alarms [] armed q = some (armed, q)
alarms (t ∷ ts) armed q = after (alarms ts) (alarm_request (pos 0) t armed q)

-- A queue that holds n events of the alarm and no other.
record Alarms (q : Queue) (n : ℕ) : Type 0 where
  valid : IsValid q
  mine : census 1 q.slots ≡ n
  disk0 : census 2 q.slots ≡ 0
  disk1 : census 3 q.slots ≡ 0
  others : census 4 q.slots ≡ 0

one_more :
    (q : Queue) (n t : ℕ)
    → Alarms q n
    → n < 256
    → (q' : Queue) × (schedule_int q alarm_dev 0 t ≡ some q') × Alarms q' (suc n)
unfolding kind
one_more q n t a lt =
    let (j, hj, free) = census-free q.slots a.valid.queue.full (
      omega
        (arith, census-total q.slots, a.valid.queue.full, a.mine, a.disk0, a.disk1, a.others)) in
    let (q', e, v) = schedule_int-total q alarm_dev 0 t j a.valid (omega arith) hj free in
    let more : (k : ℕ)
        → 1 ≤ k
        → census k q'.slots ≡ weight k (event alarm_dev 0) + census k q.slots =
      λ k h. census-schedule_int q q' alarm_dev 0 t k a.valid (omega arith) e h in
    (
      q',
      e,
      record {
        valid = v;
        mine = omega (arith, more 1 (omega arith), a.mine);
        disk0 = omega (arith, more 2 (omega arith), a.disk0);
        disk1 = omega (arith, more 3 (omega arith), a.disk1);
        others = omega (arith, more 4 (omega arith), a.others);
      },
    )

step_on :
    (ts : List ℕ) (t : ℕ) (armed : Alarm) (q : Queue) {q' : Queue}
    → schedule_int q alarm_dev 0 t ≡ some q'
    → alarms (t ∷ ts) armed q ≡ alarms ts true q'
unfolding alarms alarm_request
step_on ts t armed q {q'} e =
    let returns : alarm_request (pos 0) t armed q ≡ some (ok, true, q') = rw e refl in
    ap (after (alarms ts)) returns

fill :
    (ts : List ℕ) (armed : Alarm) (q : Queue) (n : ℕ)
    → Alarms q n
    → n + length ts ≤ 256
    → (armed' : Alarm) × (q' : Queue) × (alarms ts armed q ≡ some (armed', q'))
      × Alarms q' (n + length ts)
unfolding alarms alarm_request
fill [] armed q n a le = (armed, q, refl, subst (Alarms q) (omega arith) a)
fill (t ∷ ts) armed q n a le =
    let (q', e, a') = one_more q n t a (omega arith) in
    let (armed', q'', e', a'') = fill ts true q' (suc n) a' (omega arith) in
    (armed', q'', step_on ts t armed q e ∙ e', subst (Alarms q'') (omega arith) a'')

weight-le : (k : ℕ) (s : Slot) → weight k s ≤ 1
weight-le k s = ground arith

alarm_slot : (s : Slot) → weight 1 s ≡ 1 → s.device ≡ alarm_dev
unfolding kind
alarm_slot s h = ground arith

-- Of 256 requests for alarms that are made with no tick between them, from the queue of
-- `devices_init` on, each returns, whatever their times. The next one does not: the loop of
-- `schedule_int` on the queue that they leave does not stop after any number of rounds.
pub alarms-flood :
    (ts : List ℕ)
    → length ts ≡ 256
    → (q : Queue) × (armed : Alarm) × (alarms ts false init_queue ≡ some (armed, q))
      × ((time fuel : ℕ) → find_lower fuel q.slots alarm_dev (start q time) ≡ none)
alarms-flood ts full =
    let none_yet : Alarms init_queue 0 = record {
      valid = init_queue-IsValid;
      mine = census-init_queue 1 (omega arith);
      disk0 = census-init_queue 2 (omega arith);
      disk1 = census-init_queue 3 (omega arith);
      others = census-init_queue 4 (omega arith);
    } in
    let (armed, q, e, a) = fill ts false init_queue 0 none_yet (omega arith) in
    (
      q,
      armed,
      e,
      λ time fuel. find_lower-diverges q.slots alarm_dev fuel (start q time) (omega arith) (λ k h.
          let w =
            tally-full (weight 1) q.slots free_slot k (weight-le 1)
              (omega (arith, a.mine, a.valid.queue.full)) (omega (arith, a.valid.queue.full)) in
          omega (arith, alarm_slot (slot_at q.slots k) w)),
    )
