-- ===== src/Board/Runs.antt =====
-- The runs of the devices of src/devices.c: the calls of the operating system and the alarm
-- signals, in any order.
use mathlib.Core.Path.{subst}
use usloss.Base.{
  ℕ, zero, suc, done_inj, ◌≡◌, refl, sym, ◌∙◌, ap, false, Option, none, some, some_inj, List, [],
  ◌∷◌, ℤ, done, done_snd,
}
use usloss.EventQueue.{alarm_dev}
use usloss.EventQueue.Delivery.{init_queue-IsValid}
use usloss.Devices.Codes.{Code}
use usloss.Devices.Disk.{Memory, Disk, disk_open, is_busy}
use usloss.Devices.Term.{Terminal}
use usloss.Board.{Board, init_board, device_input, device_output, next_interrupt, alarm_signal}
use usloss.Board.Census.{census-init_queue}
use usloss.Board.Inv.{pending, Consistent, same-Consistent}
use usloss.Board.Dispatch.{Ticked, next_interrupt-Ticked}
use usloss.Board.Requests.{device_output-Answered}
use usloss.Board.Questions.{device_input-returns}

module _ (memory : Memory) where
  open memory use {Mem, Sector}

  -- A step: a call of `USLOSS_DeviceInput`, one of `USLOSS_DeviceOutput` that requests no alarm
  -- while one is pending, an alarm signal up to the call of the handler, or a write to the memory.
  pub data Step (b : Board memory) : Board memory → Type 0 where
    input :
        (dev : ℕ) (unit : ℤ) (random : ℕ) (code : Code) (status : Option ℕ) (b' : Board memory)
        → device_input memory dev unit random b ≡ done (code, status, b')
        → Step b b'
    output :
        (dev : ℕ) (unit : ℤ) (arg : ℕ) (code : Code) (b' : Board memory)
        → (dev ≡ alarm_dev → b.armed ≡ false)
        → device_output memory dev unit arg b ≡ some (code, b')
        → Step b b'
    signal :
        (call : Option (ℕ × ℤ)) (b' : Board memory)
        → next_interrupt memory (alarm_signal memory b) ≡ done (call, b')
        → Step b b'
    compute : (mem : Mem) → Step b (record b { mem = mem })

  -- The boards that can be reached from the start, with the files of the two disks.
  pub data Reach (f0 f1 : Option (ℕ × List Sector)) (terms : List Terminal) (mem : Mem)
      : Board memory → Type 0 where
    start :
        Reach f0 f1 terms mem
          (init_board memory (disk_open memory f0 ∷ disk_open memory f1 ∷ []) terms mem)
    step : {b b' : Board memory} → Reach f0 f1 terms mem b → Step b b' → Reach f0 f1 terms mem b'

  disk_open-idle : (f : Option (ℕ × List Sector)) → is_busy (disk_open memory f).status ≡ false
  unfolding disk_open
  disk_open-idle none = refl
  disk_open-idle (some (size, sectors)) = refl

  idle_pending :
      (d0 d1 : Disk memory) (k : ℕ)
      → is_busy d0.status ≡ false
      → is_busy d1.status ≡ false
      → pending memory false (d0 ∷ d1 ∷ []) k ≡ 0
  idle_pending d0 d1 zero h0 h1 = refl
  idle_pending d0 d1 (suc zero) h0 h1 = refl
  idle_pending d0 d1 (suc (suc zero)) h0 h1 = rw h0 refl
  idle_pending d0 d1 (suc (suc (suc zero))) h0 h1 = rw h1 refl
  idle_pending d0 d1 (suc (suc (suc (suc k)))) h0 h1 = refl

  init_board-Consistent :
      (f0 f1 : Option (ℕ × List Sector)) (terms : List Terminal) (mem : Mem)
      → Consistent memory
          (init_board memory (disk_open memory f0 ∷ disk_open memory f1 ∷ []) terms mem)
  init_board-Consistent f0 f1 terms mem = record {
    queue = init_queue-IsValid;
    two = refl;
    counted = λ k h.
        census-init_queue k h
        ∙ sym (
            idle_pending (disk_open memory f0) (disk_open memory f1) k (disk_open-idle f0)
              (disk_open-idle f1));
  }

  pub alarm_signal-Consistent :
      (b : Board memory) → Consistent memory b → Consistent memory (alarm_signal memory b)
  unfolding alarm_signal
  alarm_signal-Consistent b c = same-Consistent memory b _ c refl refl refl (λ k. refl)

  pub Step-Consistent :
      {b b' : Board memory} → Consistent memory b → Step b b' → Consistent memory b'
  Step-Consistent {b} c (input dev unit random code status b' e) =
      let (code', status', b'', e', c') = device_input-returns memory dev unit random b c in
      let same : (code', status', b'') ≡ (code, status, b') = done_inj (sym e' ∙ e) in
      subst (Consistent memory) (ap (λ x. x.2) same) c'
  Step-Consistent {b} c (output dev unit arg code b' off e) =
      let a = device_output-Answered memory dev unit arg b c off in
      subst (Consistent memory) (ap (λ x. x.1) (some_inj (sym a.returns ∙ e))) a.consistent
  Step-Consistent {b} c (signal call b' e) =
      elim (next_interrupt-Ticked memory (alarm_signal memory b) (alarm_signal-Consistent b c)) [
        | Ticked.ticked call' b'' e' c' ↦ subst (Consistent memory) (done_snd (sym e' ∙ e)) c'
        | Ticked.failed u f h busy p e' ↦ absurd (cc)
      ]
  Step-Consistent {b} c (compute mem) = same-Consistent memory b _ c refl refl refl (λ k. refl)

  -- In every board that the simulator can reach the requests that are pending agree with the queue:
  -- the queue is valid and holds one event for the alarm where it is armed, one for each disk that
  -- is busy, and no event of another device or unit. The files of the disks are arbitrary; an alarm
  -- is requested only while none is pending.
  pub Reach-Consistent :
      (f0 f1 : Option (ℕ × List Sector)) (terms : List Terminal) (mem : Mem) (b : Board memory)
      → Reach f0 f1 terms mem b
      → Consistent memory b
  Reach-Consistent f0 f1 terms mem _ start = init_board-Consistent f0 f1 terms mem
  Reach-Consistent f0 f1 terms mem b' (step {b} r s) =
      Step-Consistent (Reach-Consistent f0 f1 terms mem b r) s

  -- From every board that the simulator can reach, a request to any device returns, if it requests
  -- no alarm while one is pending: the loops of `schedule_int` always find a slot.
  pub Reach-returns :
      (f0 f1 : Option (ℕ × List Sector)) (terms : List Terminal) (mem : Mem) (b : Board memory)
      (dev : ℕ) (unit : ℤ) (arg : ℕ)
      → Reach f0 f1 terms mem b
      → (dev ≡ alarm_dev → b.armed ≡ false)
      → (code : Code) × (b' : Board memory) × (device_output memory dev unit arg b
          ≡ some (code, b'))
        × Reach f0 f1 terms mem b'
  Reach-returns f0 f1 terms mem b dev unit arg r off =
      let a =
        device_output-Answered memory dev unit arg b (Reach-Consistent f0 f1 terms mem b r) off in
      (a.code, a.board, a.returns, step r (output dev unit arg a.code a.board off a.returns))

  -- In every board that the simulator can reach, an alarm signal gets as far as the call of the
  -- handler, or ends the simulator in the action of a disk whose request is pending.
  pub Reach-Ticked :
      (f0 f1 : Option (ℕ × List Sector)) (terms : List Terminal) (mem : Mem) (b : Board memory)
      → Reach f0 f1 terms mem b
      → Ticked memory (alarm_signal memory b) (next_interrupt memory (alarm_signal memory b))
  Reach-Ticked f0 f1 terms mem b r =
      next_interrupt-Ticked memory (alarm_signal memory b)
        (alarm_signal-Consistent b (Reach-Consistent f0 f1 terms mem b r))
