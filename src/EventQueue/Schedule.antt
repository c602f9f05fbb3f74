-- ===== src/EventQueue/Schedule.antt =====
-- `schedule_int` of src/devices.c: it returns when the queue has a free slot, loses no event, and
-- moves no event of the same or a higher priority.
use mathlib.Core.List.{Perm}
use mathlib.Core.List.Perm
use usloss.Base.{
  ℕ, zero, suc, ◌+◌, ◌<◌, ◌≤◌, ◌≡◌, ◌≢◌, ◌∙◌, sym, inl, inr, some, none, List, ◌∷◌, Bool-cases,
  Option-cases, some_inj, none≢some, bool_clash, false, length, length-set, set, get_or-set_self,
  get_or-set_ne, perm-set, arith, ◌==◌, ==_iff, if◌then◌else◌,
}
use native.Mathlib.Decide.{ℕ_discrete}
use usloss.EventQueue.{Slot, slot_at, free_slot, queue_size, low_pri_dev, find_lower, place}
use usloss.EventQueue.Loop.{Found, find_lower-Found, find_lower-total}

-- The array has its 256 slots, and no device is above the lowest priority.
pub record IsQueue (slots : List Slot) : Type 0 where
  pub full : length slots ≡ 256
  pub devices : (i : ℕ) → (slot_at slots i).device ≤ low_pri_dev

pub set-IsQueue :
    (slots : List Slot) (i : ℕ) (event : Slot)
    → i < 256
    → event.device ≤ low_pri_dev
    → IsQueue slots
    → IsQueue (set slots i event)
set-IsQueue slots i event lt low q = record {
  full = omega (arith, length-set slots i event, q.full);
  devices = λ j. elim (ℕ_discrete i j) [
    | yes e ↦ rw (← e, get_or-set_self slots i event free_slot (omega (arith, q.full))) low
    | no ne ↦ rw (get_or-set_ne slots i j event free_slot ne) (q.devices j)
  ];
}

-- One round of the outer loop, once the inner loop has stopped.
place_step :
    (fuel index : ℕ) (slots : List Slot) (event : Slot) {i : ℕ}
    → find_lower queue_size slots event.device index ≡ some i
    → place (suc fuel) slots event index ≡ (
        if (slot_at slots i).device == low_pri_dev
        then some (set slots i event)
        else place fuel (set slots i event) (slot_at slots i) i)
unfolding place
place_step fuel index slots event e = rw (e, place)

-- The round taken apart: it places the last event, or hands on what the slot held.
pub data Round (fuel : ℕ) (slots : List Slot) (event : Slot) (index : ℕ) (out : List Slot)
    : Type 0 where
  last :
      (i : ℕ)
      → i < 256
      → Found slots event.device queue_size index i
      → (slot_at slots i).device ≡ low_pri_dev
      → out ≡ set slots i event
      → Round fuel slots event index out
  more :
      (i : ℕ)
      → i < 256
      → Found slots event.device queue_size index i
      → (slot_at slots i).device ≢ low_pri_dev
      → place fuel (set slots i event) (slot_at slots i) i ≡ some out
      → Round fuel slots event index out

place_stuck :
    (fuel index : ℕ) (slots : List Slot) (event : Slot)
    → find_lower queue_size slots event.device index ≡ none
    → place (suc fuel) slots event index ≡ none
unfolding place
place_stuck fuel index slots event e = rw (e, place)

pub place_zero {κ} :
    {C : Type κ} (index : ℕ) (slots : List Slot) (event : Slot) {out : List Slot}
    → place zero slots event index ≡ some out
    → C
unfolding place
place_zero index slots event h = none≢some h

pub place-Round :
    (fuel index : ℕ) (slots : List Slot) (event : Slot) {out : List Slot}
    → index < 256
    → place (suc fuel) slots event index ≡ some out
    → Round fuel slots event index out
place-Round fuel index slots event {out} hi h =
    elim (Option-cases (find_lower queue_size slots event.device index)) [
      | inl e ↦ none≢some (rw (place_stuck fuel index slots event e) at h)
      | inr (i, e) ↦ found i e (find_lower-Found slots event.device queue_size index hi e)
    ]
  where
    found :
        (i : ℕ)
        → find_lower queue_size slots event.device index ≡ some i
        → Found slots event.device queue_size index i
        → Round fuel slots event index out
    found i e f = elim (Bool-cases ((slot_at slots i).device == low_pri_dev)) [
      | inl t ↦
          last i (omega (arith, f.at)) f ((==_iff _ _).0 t)
            (sym (some_inj (rw (place_step fuel index slots event e, t) at h)))
      | inr t ↦
          more i (omega (arith, f.at)) f (λ u. bool_clash ((==_iff _ _).1 u) t)
            (rw (place_step fuel index slots event e, t) at h)
    ]

lower_of_ne : (d : ℕ) → d ≤ low_pri_dev → (d == low_pri_dev) ≡ false → d < low_pri_dev
lower_of_ne d le h = ground arith

-- Enough fuel: every round places an event of a lower priority than the one before, so from a
-- device below the lowest priority the loop ends within `low_pri_dev` rounds.
pub place-total :
    (fuel index : ℕ) (slots : List Slot) (event : Slot) (j : ℕ)
    → IsQueue slots
    → index < 256
    → j < 256
    → (slot_at slots j).device ≡ low_pri_dev
    → event.device < low_pri_dev
    → low_pri_dev ≤ fuel + event.device
    → (out : List Slot) × (place fuel slots event index ≡ some out)
place-total zero index slots event j q hi hj free lt le = absurd (omega arith)
place-total (suc fuel) index slots event j q hi hj free lt le =
    let (i, e) =
      find_lower-total slots event.device queue_size index j hi hj (omega arith) (omega arith) in
    let f = find_lower-Found slots event.device queue_size index hi e in
    let hi' : i < 256 = omega (arith, f.at) in
    elim (Bool-cases ((slot_at slots i).device == low_pri_dev)) [
      | inl t ↦ (set slots i event, rw (place_step fuel index slots event e, t))
      | inr t ↦
          let ne : i ≢ j = λ p. bool_clash ((==_iff _ _).1 (rw p free)) t in
          let (out, r) =
            place-total fuel i (set slots i event) (slot_at slots i) j
              (set-IsQueue slots i event hi' (omega arith) q) hi' hj
              (rw (get_or-set_ne slots i j event free_slot ne) free) (lower_of_ne _ (q.devices i) t)
              (omega (arith, f.lower)) in
          (out, rw (place_step fuel index slots event e, t) r)
    ]

pub place-perm :
    (fuel index : ℕ) (slots : List Slot) (event : Slot) {out : List Slot}
    → IsQueue slots
    → index < 256
    → event.device ≤ low_pri_dev
    → place fuel slots event index ≡ some out
    → (freed : Slot) × (freed.device ≡ low_pri_dev) × Perm (event ∷ slots) (freed ∷ out)
place-perm zero index slots event q hi le h = place_zero index slots event h
place-perm (suc fuel) index slots event {out} q hi le h =
    elim (place-Round fuel index slots event hi h) [
      | last i hi' f free e ↦
          (slot_at slots i, free, rw e (perm-set slots i event free_slot (omega (arith, q.full))))
      | more i hi' f ne r ↦
          let (freed, low, p) =
            place-perm fuel i (set slots i event) (slot_at slots i)
              (set-IsQueue slots i event hi' le q) hi' (q.devices i) r in
          (freed, low, Perm.trans (perm-set slots i event free_slot (omega (arith, q.full))) p)
    ]

set_keeps :
    (slots : List Slot) (event : Slot) (i k : ℕ)
    → event.device < (slot_at slots i).device
    → (slot_at slots k).device ≤ event.device
    → slot_at (set slots i event) k ≡ slot_at slots k
set_keeps slots event i k low le =
    get_or-set_ne slots i k event free_slot
      (λ e. let le' : (slot_at slots i).device ≤ event.device = rw e le in omega arith)

-- The slots of events of the same or a higher priority are left alone.
pub place-keeps :
    (fuel index : ℕ) (slots : List Slot) (event : Slot) {out : List Slot} (k : ℕ)
    → index < 256
    → (slot_at slots k).device ≤ event.device
    → place fuel slots event index ≡ some out
    → slot_at out k ≡ slot_at slots k
place-keeps zero index slots event k hi le h = place_zero index slots event h
place-keeps (suc fuel) index slots event {out} k hi le h =
    elim (place-Round fuel index slots event hi h) [
      | last i hi' f free e ↦ rw e (set_keeps slots event i k f.lower le)
      | more i hi' f ne r ↦
          place-keeps fuel i (set slots i event) (slot_at slots i) k hi'
            (rw (set_keeps slots event i k f.lower le) (omega (arith, f.lower))) r
          ∙ set_keeps slots event i k f.lower le
    ]

-- The event ends in the slot where the inner loop first stopped.
pub place-at :
    (fuel index : ℕ) (slots : List Slot) (event : Slot) {out : List Slot}
    → IsQueue slots
    → index < 256
    → place fuel slots event index ≡ some out
    → (i : ℕ) × (i < 256) × Found slots event.device queue_size index i × (slot_at out i ≡ event)
place-at zero index slots event q hi h = place_zero index slots event h
place-at (suc fuel) index slots event {out} q hi h =
    elim (place-Round fuel index slots event hi h) [
      | last i hi' f free e ↦
          (i, hi', f, rw e (get_or-set_self slots i event free_slot (omega (arith, q.full))))
      | more i hi' f ne r ↦
          let here : slot_at (set slots i event) i ≡ event =
            get_or-set_self slots i event free_slot (omega (arith, q.full)) in
          (
            i,
            hi',
            f,
            place-keeps fuel i (set slots i event) (slot_at slots i) i hi'
                  (rw here (omega (arith, f.lower))) r
                ∙ here,
          )
    ]

pub place-IsQueue :
    (fuel index : ℕ) (slots : List Slot) (event : Slot) {out : List Slot}
    → IsQueue slots
    → index < 256
    → event.device ≤ low_pri_dev
    → place fuel slots event index ≡ some out
    → IsQueue out
place-IsQueue zero index slots event q hi le h = place_zero index slots event h
place-IsQueue (suc fuel) index slots event q hi le h =
    elim (place-Round fuel index slots event hi h) [
      | last i hi' f free e ↦ rw e (set-IsQueue slots i event hi' le q)
      | more i hi' f ne r ↦
          place-IsQueue fuel i (set slots i event) (slot_at slots i)
            (set-IsQueue slots i event hi' le q) hi' (q.devices i) r
    ]
