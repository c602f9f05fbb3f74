-- ===== src/EventQueue/Loop.antt =====
-- The inner loop of `schedule_int` in src/devices.c: where it stops, and that it does.
use usloss.Base.{
  ℕ, zero, suc, ◌+◌, ◌-◌, ◌%◌, ◌<◌, ◌≤◌, ◌≡◌, ◌≢◌, inl, inr, refl, some, none, le→leb, List, leb,
  Bool-cases, leb→le, leb→lt, some_inj, arith,
}
use usloss.EventQueue.{Slot, slot_at, u8, find_lower}

-- What the loop has found when it stops at `j`: `steps` slots were passed, all of a device of the
-- same or a higher priority.
pub record Found (slots : List Slot) (device fuel i j : ℕ) : Type 0 where
  pub steps : ℕ
  pub few : steps < fuel
  pub at : j ≡ u8 (i + steps)
  pub lower : device < (slot_at slots j).device
  pub passed : (m : ℕ) → m < steps → (slot_at slots (u8 (i + m))).device ≤ device

closer :
    (i j fuel : ℕ)
    → i < 256
    → j < 256
    → i ≢ j
    → (j + 256 - i) % 256 < suc fuel
    → (j + 256 - u8 (i + 1)) % 256 < fuel
closer i j fuel hi hj ne h = omega arith

module _ (slots : List Slot) (device : ℕ) where
  passed_suc :
      (i k : ℕ)
      → i < 256
      → (slot_at slots i).device ≤ device
      → ((m : ℕ) → m < k → (slot_at slots (u8 (u8 (i + 1) + m))).device ≤ device)
      → (m : ℕ) → m < suc k
      → (slot_at slots (u8 (i + m))).device ≤ device
  passed_suc i k hi h all zero lt = let e : u8 (i + zero) ≡ i = omega arith in rw e h
  passed_suc i k hi h all (suc m) lt =
      let e : u8 (i + suc m) ≡ u8 (u8 (i + 1) + m) = omega arith in rw e (all m (omega arith))

  Found-later :
      (fuel i : ℕ) {j : ℕ}
      → i < 256
      → (slot_at slots i).device ≤ device
      → Found slots device fuel (u8 (i + 1)) j
      → Found slots device (suc fuel) i j
  Found-later fuel i hi h f = record {
    steps = suc f.steps;
    few = omega (arith, f.few);
    at = omega (arith, f.at);
    lower = f.lower;
    passed = passed_suc i f.steps hi h f.passed;
  }

  Found-here :
      (fuel i : ℕ) {j : ℕ}
      → i < 256
      → device < (slot_at slots i).device
      → i ≡ j
      → Found slots device (suc fuel) i j
  Found-here fuel i hi h e = record {
    steps = 0;
    few = omega arith;
    at = omega arith;
    lower = rw (← e) h;
    passed = λ m lt. absurd (omega arith);
  }

  pub find_lower-Found :
      (fuel i : ℕ) {j : ℕ}
      → i < 256
      → find_lower fuel slots device i ≡ some j
      → Found slots device fuel i j
  unfolding find_lower
  find_lower-Found zero i hi h = cc
  find_lower-Found (suc fuel) i {j} hi h = elim (Bool-cases (leb (slot_at slots i).device device)) [
    | inl e ↦
        Found-later fuel i hi (leb→le _ _ e)
          (find_lower-Found fuel (u8 (i + 1)) (omega arith) (rw e at h))
    | inr e ↦ Found-here fuel i hi (leb→lt _ _ e) (some_inj (rw e at h))
  ]

  ne_of_lower :
      (i j : ℕ) → (slot_at slots i).device ≤ device → device < (slot_at slots j).device → i ≢ j
  ne_of_lower i j h low e = let low' : device < (slot_at slots i).device = rw e low in omega arith

  -- A lower device within `fuel` steps is enough for the loop to stop.
  pub find_lower-total :
      (fuel i j : ℕ)
      → i < 256
      → j < 256
      → device < (slot_at slots j).device
      → (j + 256 - i) % 256 < fuel
      → (r : ℕ) × (find_lower fuel slots device i ≡ some r)
  unfolding find_lower
  find_lower-total zero i j hi hj low h = absurd (omega arith)
  find_lower-total (suc fuel) i j hi hj low h =
      elim (Bool-cases (leb (slot_at slots i).device device)) [
        | inl e ↦ rw e (
            find_lower-total fuel (u8 (i + 1)) j (omega arith) hj low
              (closer i j fuel hi hj (ne_of_lower i j (leb→le _ _ e) low) h))
        | inr e ↦ (i, rw e)
      ]

  -- With no lower device in the array the loop never stops, whatever the number of rounds.
  pub find_lower-diverges :
      (fuel i : ℕ)
      → i < 256
      → ((k : ℕ) → k < 256 → (slot_at slots k).device ≤ device)
      → find_lower fuel slots device i ≡ none
  unfolding find_lower
  find_lower-diverges zero i hi all = refl
  find_lower-diverges (suc fuel) i hi all =
      rw (le→leb (slot_at slots i).device device (all i hi))
        (find_lower-diverges fuel (u8 (i + 1)) (omega arith) all)
