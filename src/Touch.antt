-- ===== src/Touch.antt =====
-- `USLOSS_MmuTouch` of src/mmu.c with the signals that it waits for: `sighandler` of src/sig_ints.c
-- jumps back into it at its end, whatever signal it has served. The MMU is on.
use usloss.Base.{
  ℕ, Bool, true, false, not, ◌&&◌, ◌≡◌, refl, if◌then◌else◌, Bool-cases, inl, inr, Result, done,
  fault, Fault, ◌>>=◌, arith,
}
use usloss.Psr.{Cpu, is_valid, enter_handler, leave_handler}
use usloss.Devices.Disk.{Memory, disk_at, perform}
use usloss.Board.{Board}
use usloss.Board.Inv.{Consistent, busy_at}
use usloss.Signals.{Vector, Machine, sighandler}
use usloss.Signals.Served.{Handles, Alarmed, sighandler-Alarmed}
use usloss.Traps.Served.{entered}
use usloss.Mmu.Types.{Vm}
use usloss.Mmu.Pages.{Mmu, readable, mmu_touch}

module _ (memory : Memory) (vm : Vm) (Os : Type 0) where
  open vm use {at}

  -- The operating system has the MMU.
  abbrev pub Touching : Type 0
  Touching = Machine memory (Mmu vm × Os)

  -- A touch of a page; `alarm` says whether the timer raises SIG_ALARM meanwhile. `sigsetjmp` has
  -- saved the signal mask.
  unfoldable pub touch :
      Vector memory (Mmu vm × Os) → Bool → ℕ → Touching → Result (Bool × Touching)
  touch vector alarm a (c, b, (m, os)) =
      if alarm && not c.alarm_blocked
      then (sighandler memory (Mmu vm × Os) vector false (c, b, (m, os)) >>= λ s. done (false, s))
      else if readable (at m.view a).prot
      then done (true, (c, b, (m, os)))
      else (enter_handler c >>= λ k. leave_handler c k >>= λ c'. done (false, (c', b, (m, os))))

  -- How a touch ends.
  pub data Touched (alarm : Bool) (a : ℕ) (c : Cpu) (b : Board memory) (m : Mmu vm) (os : Os)
      (out : Result (Bool × Touching)) : Type 0 where
    answered :
        (alarm && not c.alarm_blocked) ≡ false
        → out ≡ done (mmu_touch vm m.view a, (c, b, (m, os)))
        → Touched alarm a c b m os out
    lost :
        (alarm && not c.alarm_blocked) ≡ true
        → (b' : Board memory) (s' : Mmu vm × Os) → out ≡ done (false, (c, b', s'))
        → Consistent memory b'
        → Touched alarm a c b m os out
    failed :
        (alarm && not c.alarm_blocked) ≡ true
        → (u : ℕ) (f : Fault) → busy_at memory b.disks u ≡ true
        → perform memory (disk_at memory b.disks u) b.mem ≡ fault f
        → out ≡ fault f
        → Touched alarm a c b m os out

  entered_valid : (c : Cpu) → is_valid (entered c).psr ≡ true
  entered_valid c = ground arith

  touch-quiet :
      (vector : Vector memory (Mmu vm × Os)) (alarm : Bool) (a : ℕ) (c : Cpu) (b : Board memory)
      (m : Mmu vm) (os : Os)
      → is_valid c.psr ≡ true
      → (alarm && not c.alarm_blocked) ≡ false
      → touch vector alarm a (c, b, (m, os)) ≡ done (mmu_touch vm m.view a, (c, b, (m, os)))
  unfolding touch mmu_touch enter_handler leave_handler
  touch-quiet vector alarm a c b m os v q = elim (Bool-cases (readable (at m.view a).prot)) [
    | inl open_page ↦ rw (q, open_page) refl
    | inr closed ↦ rw (q, closed, v, entered_valid c) refl
  ]

  touch-alarm :
      (vector : Vector memory (Mmu vm × Os)) (alarm : Bool) (a : ℕ) (c : Cpu) (b : Board memory)
      (m : Mmu vm) (os : Os)
      → (alarm && not c.alarm_blocked) ≡ true
      → touch vector alarm a (c, b, (m, os))
        ≡ (sighandler memory (Mmu vm × Os) vector false (c, b, (m, os)) >>= λ s. done (false, s))
  unfolding touch
  touch-alarm vector alarm a c b m os q = rw q refl

  -- `USLOSS_MmuTouch` with a valid register, devices in agreement with the queue and an operating
  -- system that handles its interrupts. If no alarm signal is delivered meanwhile, it answers
  -- whether the page can be read, and leaves the registers and the signal mask as they are, also
  -- where the page cannot be read and the fault is taken back. If one is delivered, it answers
  -- FALSE, whatever the page, once the signal is served; or the action of a disk ends the
  -- simulator.
  pub touch-Touched :
      (vector : Vector memory (Mmu vm × Os)) (alarm : Bool) (a : ℕ) (c : Cpu) (b : Board memory)
      (m : Mmu vm) (os : Os)
      → Handles memory (Mmu vm × Os) vector
      → Consistent memory b
      → is_valid c.psr ≡ true
      → Touched alarm a c b m os (touch vector alarm a (c, b, (m, os)))
  touch-Touched vector alarm a c b m os hs co v = elim (Bool-cases (alarm && not c.alarm_blocked)) [
    | inr q ↦ Touched.answered q (touch-quiet vector alarm a c b m os v q)
    | inl q ↦ elim (sighandler-Alarmed memory (Mmu vm × Os) vector false c b (m, os) hs co v) [
      | Alarmed.postponed e _ _ ↦ absurd (cc)
      | Alarmed.served _ b' s' e co' _ ↦
          Touched.lost q b' s' (rw (touch-alarm vector alarm a c b m os q, e) refl) co'
      | Alarmed.failed _ u f _ busy p e ↦
          Touched.failed q u f busy p (rw (touch-alarm vector alarm a c b m os q, e) refl)
    ]
  ]
