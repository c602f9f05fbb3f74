-- ===== src/EventQueue.antt =====
-- The queue of pending device events of src/devices.c: `dev_event_queue`, `dev_event_ptr`,
-- `schedule_int` and the part of `dispatch_int` that takes the next event out.
pub mod Loop
pub mod Schedule
pub mod Delivery
pub mod Window
pub mod Agenda
pub mod Due
use usloss.Base.{
  ℕ, zero, suc, ◌+◌, ◌%◌, Option, none, some, List, leb, ◌==◌, if◌then◌else◌, get_or, set,
  replicate,
}

-- The device codes of usloss.h.
abbrev pub clock_dev : ℕ
clock_dev = 0

abbrev pub alarm_dev : ℕ
alarm_dev = 1

abbrev pub disk_dev : ℕ
disk_dev = 2

abbrev pub term_dev : ℕ
term_dev = 3

-- The lowest priority: a slot that holds this device is free, and polls the terminals.
abbrev pub low_pri_dev : ℕ
low_pri_dev = term_dev

abbrev pub queue_size : ℕ
queue_size = 256

-- An entry of `dev_event_queue`.
pub record Slot : Type 0 where
  pub device : ℕ
  pub arg : ℕ

-- What a read outside the array would give; `IsQueue` rules such reads out.
abbrev pub free_slot : Slot
free_slot = record { device = low_pri_dev; arg = 0 }

abbrev pub slot_at : List Slot → ℕ → Slot
slot_at slots i = get_or slots i free_slot

pub record Queue : Type 0 where
  pub slots : List Slot
  pub ptr : ℕ

-- The index is an `unsigned char`, so it goes round the 256 slots.
abbrev pub u8 : ℕ → ℕ
u8 n = n % 256

-- The first loop of `devices_init` and the reset of the pointer.
unfoldable pub init_queue : Queue
init_queue = record { slots = replicate queue_size free_slot; ptr = 0 }

-- `while (dev_event_queue[index].device <= device) index++;` with fuel.
unfoldable pub find_lower : ℕ → List Slot → ℕ → ℕ → Option ℕ
find_lower zero slots device index = none
find_lower (suc fuel) slots device index =
    let rest = find_lower fuel slots device (u8 (index + 1)) in
    if leb (slot_at slots index).device device then rest else some index

-- The `do` loop of `schedule_int` with fuel: the event takes the slot that is found, and what was
-- there is placed in turn, from that slot on.
unfoldable pub place : ℕ → List Slot → Slot → ℕ → Option (List Slot)
unfolding find_lower
place zero slots event index = none
place (suc fuel) slots event index = elim (find_lower queue_size slots event.device index) [
  | none ↦ none
  | some i ↦
      let low = slot_at slots i in
      let slots' = set slots i event in
      let rest = place fuel slots' low i in if low.device == low_pri_dev then some slots' else rest
]

-- Every round places an event of a lower priority, so `low_pri_dev` rounds suffice (`Schedule`).
unfoldable pub schedule_int : Queue → ℕ → ℕ → ℕ → Option Queue
unfolding place
schedule_int q device arg future_time =
    elim (place low_pri_dev q.slots (record { device = device; arg = arg })
      (u8 (u8 future_time + q.ptr))) [
        | none ↦ none
        | some slots' ↦ some (record q { slots = slots' })
      ]

-- The part of `dispatch_int` that moves on to the next slot, reads it and frees it. The argument
-- stays in the slot.
unfoldable pub next_event : Queue → Slot × Queue
next_event q =
    let i = u8 (q.ptr + 1) in
    let event = slot_at q.slots i in
    (event, record { slots = set q.slots i (record event { device = low_pri_dev }); ptr = i })
