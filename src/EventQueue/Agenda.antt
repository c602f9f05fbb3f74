-- ===== src/EventQueue/Agenda.antt =====
-- `schedule_int` of src/devices.c as one pass over the events that are due.
use usloss.Base.{
  ℕ, zero, suc, ◌+◌, ◌-◌, ◌<◌, ◌≤◌, ◌≡◌, ◌≢◌, ◌∙◌, refl, ap, inl, inr, some, true, Bool-cases, List,
  [], ◌∷◌, ◌++◌, leb, leb→le, leb→lt, ◌==◌, if◌then◌else◌, set, get_or-set_self, get_or-set_ne,
  arith,
}
use usloss.EventQueue.{Slot, slot_at, free_slot, u8, queue_size, low_pri_dev, place}
use usloss.EventQueue.Loop.{Found}
use usloss.EventQueue.Schedule.{IsQueue, set-IsQueue, Round, place-Round, place_zero, place-keeps}
use usloss.EventQueue.Window.{
  window, window-eq, window-add, window_at, window-set_before, window-set_after,
}

-- One pass: the event goes before the first one of a lower priority, which is carried on in its
-- place, up to the first free slot.
pub insert : Slot → List Slot → List Slot
insert e [] = []
insert e (s ∷ rest) =
    let carried = insert s rest in
    let passed = insert e rest in
    if leb s.device e.device
    then s ∷ passed
    else if s.device == low_pri_dev
    then e ∷ rest
    else e ∷ carried

-- A pass goes over slots of the same or a higher priority.
insert_passes :
    (n i : ℕ) (e : Slot) (slots rest : List Slot)
    → i < 256
    → ((m : ℕ) → m < n → (slot_at slots (u8 (i + m))).device ≤ e.device)
    → insert e (window slots i n ++ rest) ≡ window slots i n ++ insert e rest
unfolding window insert
insert_passes zero i e slots rest hi le = refl
insert_passes (suc n) i e slots rest hi le =
    let here : u8 (i + 0) ≡ i = omega arith in
    let head : (slot_at slots i).device ≤ e.device = rw here at (le 0 (omega arith)) in
    let t : leb (slot_at slots i).device e.device ≡ true = ground arith in
    let ih = insert_passes n (u8 (i + 1)) e slots rest (omega arith) (λ m h.
      let p : u8 (u8 (i + 1) + m) ≡ u8 (i + suc m) = omega arith in
      rw p (le (suc m) (omega arith))) in
    rw t (ap (λ x. slot_at slots i ∷ x) ih)

insert-last :
    (e s : Slot) (rest : List Slot)
    → e.device < s.device
    → s.device ≡ low_pri_dev
    → insert e (s ∷ rest) ≡ e ∷ rest
unfolding insert
insert-last e s rest lt low = ground arith

insert-more :
    (e s : Slot) (rest : List Slot)
    → e.device < s.device
    → s.device ≢ low_pri_dev
    → insert e (s ∷ rest) ≡ e ∷ insert s rest
unfolding insert
insert-more e s rest lt low = ground arith

insert-passed :
    (e s : Slot) (rest : List Slot) → s.device ≤ e.device → insert e (s ∷ rest) ≡ s ∷ insert e rest
unfolding insert
insert-passed e s rest le = ground arith

-- What the pass makes of the window, split where the inner loop stopped.
insert_at :
    (slots : List Slot) (event : Slot) (index r i : ℕ)
    → index < 256
    → (f : Found slots event.device queue_size index i)
    → insert event (window slots index (f.steps + suc r))
      ≡ window slots index f.steps ++ insert event (slot_at slots i ∷ window slots (u8 (i + 1)) r)
insert_at slots event index r i hi f =
    ap (insert event) (window_at slots index f.steps r i hi f.at)
    ∙ insert_passes f.steps index event slots (slot_at slots i ∷ window slots (u8 (i + 1)) r) hi
        f.passed

-- The inner loop stops within the window if the rest of the array holds nothing of a lower
-- priority.
within :
    (slots : List Slot) (event : Slot) (index n i : ℕ)
    → (f : Found slots event.device queue_size index i)
    → ((m : ℕ) → n ≤ m → m < 256 → (slot_at slots (u8 (index + m))).device ≤ event.device)
    → f.steps < n
within slots event index n i f rest = elim (Bool-cases (leb n f.steps)) [
  | inl e ↦
      let le : (slot_at slots i).device ≤ event.device =
        rw f.at (rest f.steps (leb→le _ _ e) f.few) in
      absurd (omega (arith, f.lower))
  | inr e ↦ leb→lt _ _ e
]

module _ (slots : List Slot) (event : Slot) (index i r : ℕ) (q : IsQueue slots) (hi : index < 256)
    (hi' : i < 256) (f : Found slots event.device queue_size index i)
    (hr : f.steps + suc r ≤ 256) where
  here : slot_at (set slots i event) i ≡ event
  here = get_or-set_self slots i event free_slot (omega (arith, q.full))

  -- The last round, which takes a free slot.
  window_last :
      (slot_at slots i).device ≡ low_pri_dev
      → window (set slots i event) index (f.steps + suc r)
        ≡ insert event (window slots index (f.steps + suc r))
  window_last free =
      window_at (set slots i event) index f.steps r i hi f.at
      ∙ rw
          (
            window-set_before slots event index f.steps i hi f.few f.at,
            here,
            window-set_after slots event r i hi' (omega arith),
            insert_at slots event index r i hi f,
            insert-last event (slot_at slots i) (window slots (u8 (i + 1)) r) f.lower free,
          )
          refl

  -- Any other round, which hands on what the slot held.
  window_more :
      (out : List Slot)
      → (slot_at slots i).device ≢ low_pri_dev
      → window out index f.steps ≡ window slots index f.steps
      → window out i (suc r) ≡ insert (slot_at slots i) (window (set slots i event) i (suc r))
      → window out index (f.steps + suc r) ≡ insert event (window slots index (f.steps + suc r))
  unfolding window
  window_more out ne before after =
      let split : window out index (f.steps + suc r)
          ≡ window out index f.steps ++ window out i (suc r) =
        rw f.at (window-add f.steps (suc r) index out hi) in
      let pass : insert (slot_at slots i) (window (set slots i event) i (suc r))
          ≡ event ∷ insert (slot_at slots i) (window slots (u8 (i + 1)) r) =
        rw (here, window-set_after slots event r i hi' (omega arith))
          (insert-passed (slot_at slots i) event (window slots (u8 (i + 1)) r)
            (omega (arith, f.lower))) in
      split
      ∙ rw
          (
            before,
            after,
            pass,
            insert_at slots event index r i hi f,
            insert-more event (slot_at slots i) (window slots (u8 (i + 1)) r) f.lower ne,
          )
          refl

-- The slots that were passed stay as they are in all later rounds.
kept :
    (slots : List Slot) (event : Slot) (index i fuel : ℕ) {out : List Slot}
    → (f : Found slots event.device queue_size index i) → i < 256
    → (m : ℕ) → m < f.steps
    → place fuel (set slots i event) (slot_at slots i) i ≡ some out
    → slot_at out (u8 (index + m)) ≡ slot_at slots (u8 (index + m))
kept slots event index i fuel f hi' m h next =
    let same : slot_at (set slots i event) (u8 (index + m)) ≡ slot_at slots (u8 (index + m)) =
      get_or-set_ne slots i (u8 (index + m)) event free_slot (omega (arith, f.at, f.few)) in
    place-keeps fuel i (set slots i event) (slot_at slots i) (u8 (index + m)) hi'
      (rw same (omega (arith, f.passed m h, f.lower))) next
    ∙ same

-- What lies behind the window for the next round: the rest of the array, and what was passed.
behind :
    (slots : List Slot) (event : Slot) (index n i r : ℕ)
    → (f : Found slots event.device queue_size index i) → i < 256
    → n ≡ f.steps + suc r
    → ((m : ℕ) → n ≤ m → m < 256 → (slot_at slots (u8 (index + m))).device ≤ event.device)
    → (m : ℕ) → suc r ≤ m
    → m < 256
    → (slot_at (set slots i event) (u8 (i + m))).device ≤ (slot_at slots i).device
behind slots event index n i r f hi' split rest m lo high =
    let same : slot_at (set slots i event) (u8 (i + m)) ≡ slot_at slots (u8 (i + m)) =
      get_or-set_ne slots i (u8 (i + m)) event free_slot (omega arith) in
    rw same (elim (Bool-cases (leb 256 (f.steps + m))) [
      | inl e ↦
          let far = leb→le 256 (f.steps + m) e in
          let back : u8 (i + m) ≡ u8 (index + (f.steps + m - 256)) = omega (arith, f.at) in
          rw back (omega (arith, f.passed (f.steps + m - 256) (omega arith), f.lower))
      | inr e ↦
          let near = leb→lt 256 (f.steps + m) e in
          let on : u8 (i + m) ≡ u8 (index + (f.steps + m)) = omega (arith, f.at) in
          rw on (omega (arith, rest (f.steps + m) (omega arith) (omega arith), f.lower))
    ])

-- The `do` loop is one pass over the `n` slots from `index` on, if the rest of the array holds
-- nothing of a lower priority.
pub place-insert :
    (fuel index n : ℕ) (slots : List Slot) (event : Slot) {out : List Slot}
    → IsQueue slots
    → index < 256
    → n ≤ 256
    → event.device ≤ low_pri_dev
    → ((m : ℕ) → n ≤ m → m < 256 → (slot_at slots (u8 (index + m))).device ≤ event.device)
    → place fuel slots event index ≡ some out
    → window out index n ≡ insert event (window slots index n)
unfolding window
place-insert zero index n slots event q hi hn le rest h = place_zero index slots event h
place-insert (suc fuel) index n slots event {out} q hi hn le rest h =
    elim (place-Round fuel index slots event hi h) [
      | Round.last i hi' f free e ↦
          let few = within slots event index n i f rest in
          let r = n - f.steps - 1 in
          let split : n ≡ f.steps + suc r = omega arith in
          rw (e, split) (window_last slots event index i r q hi hi' f (omega arith) free)
      | Round.more i hi' f ne next ↦
          let few = within slots event index n i f rest in
          let r = n - f.steps - 1 in
          let split : n ≡ f.steps + suc r = omega arith in
          let slots' = set slots i event in
          let keeps = λ (m : ℕ) (h : m < f.steps). kept slots event index i fuel f hi' m h next in
          let same = window-eq f.steps index out slots hi keeps in
          let ih =
            place-insert fuel i (suc r) slots' (slot_at slots i)
              (set-IsQueue slots i event hi' le q) hi' (omega arith) (q.devices i)
              (behind slots event index n i r f hi' split rest) next in
          rw split (window_more slots event index i r q hi hi' f (omega arith) out ne same ih)
    ]
