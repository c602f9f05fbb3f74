-- ===== src/EventQueue/Window.antt =====
-- The slots of the event queue of src/devices.c in the order in which the ticks reach them.
use usloss.Base.{ℕ, zero, suc, ◌+◌, ◌<◌, ◌≡◌, refl, List, [], ◌∷◌, ◌++◌, set, get_or-set_ne, arith}
use usloss.EventQueue.{Slot, slot_at, free_slot, u8}

-- The next `n` slots from `i` on, round the array.
unfoldable pub window : List Slot → ℕ → ℕ → List Slot
window slots i zero = []
window slots i (suc n) = slot_at slots i ∷ window slots (u8 (i + 1)) n

pub window-eq :
    (n i : ℕ) (xs ys : List Slot)
    → i < 256
    → ((m : ℕ) → m < n → slot_at xs (u8 (i + m)) ≡ slot_at ys (u8 (i + m)))
    → window xs i n ≡ window ys i n
unfolding window
window-eq zero i xs ys hi same = refl
window-eq (suc n) i xs ys hi same =
    let here : u8 (i + 0) ≡ i = omega arith in
    let head : slot_at xs i ≡ slot_at ys i = rw here at (same 0 (omega arith)) in
    let tail = window-eq n (u8 (i + 1)) xs ys (omega arith) (λ m h.
      let e : u8 (u8 (i + 1) + m) ≡ u8 (i + suc m) = omega arith in
      rw e (same (suc m) (omega arith))) in
    cc (head, tail)

pub window-add :
    (a b i : ℕ) (slots : List Slot)
    → i < 256
    → window slots i (a + b) ≡ window slots i a ++ window slots (u8 (i + a)) b
unfolding window
window-add zero b i slots hi =
    let e : u8 (i + 0) ≡ i = omega arith in let z : 0 + b ≡ b = omega arith in rw (e, z) refl
window-add (suc a) b i slots hi =
    let e : u8 (u8 (i + 1) + a) ≡ u8 (i + suc a) = omega arith in
    let z : suc a + b ≡ suc (a + b) = omega arith in
    let ih = window-add a b (u8 (i + 1)) slots (omega arith) in rw (z, ih, e) refl

-- The window split at the slot where the inner loop stopped.
pub window_at :
    (slots : List Slot) (index s r i : ℕ)
    → index < 256
    → i ≡ u8 (index + s)
    → window slots index (s + suc r)
      ≡ window slots index s ++ slot_at slots i ∷ window slots (u8 (i + 1)) r
unfolding window
window_at slots index s r i hi e = rw e (window-add s (suc r) index slots hi)

-- A write changes one slot of a window.
pub window-set_before :
    (slots : List Slot) (event : Slot) (index s i : ℕ)
    → index < 256
    → s < 256
    → i ≡ u8 (index + s)
    → window (set slots i event) index s ≡ window slots index s
window-set_before slots event index s i hi hs e =
    window-eq s index (set slots i event) slots hi
      (λ m h. get_or-set_ne slots i (u8 (index + m)) event free_slot (omega arith))

pub window-set_after :
    (slots : List Slot) (event : Slot) (r i : ℕ)
    → i < 256
    → r < 256
    → window (set slots i event) (u8 (i + 1)) r ≡ window slots (u8 (i + 1)) r
window-set_after slots event r i hi hr =
    window-eq r (u8 (i + 1)) (set slots i event) slots (omega arith)
      (λ m h. get_or-set_ne slots i (u8 (u8 (i + 1) + m)) event free_slot (omega arith))
