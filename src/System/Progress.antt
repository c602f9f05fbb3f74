-- ===== src/System/Progress.antt =====
-- What always gets on, in the states that the simulator can get into: the calls of the kernel, the
-- alarm signals of src/sig_ints.c and the returns from their handlers.
use mathlib.Core.Path.{subst}
use usloss.Base.{ℕ, ◌≡◌, refl, true, false, some, List, ◌∷◌, ℤ, Fault, done, fault}
use usloss.Devices.Disk.{Memory, disk_at, perform}
use usloss.Psr.{Cpu, kernel_mode, int_enabled, is_valid, leave_handler}
use usloss.Psr.Laws.{Agrees}
use usloss.Board.{Board, alarm_signal, next_interrupt}
use usloss.Board.Inv.{busy_at}
use usloss.Mmu.Types.{Vm}
use usloss.System.{Frame, signal_frame, fault_frame, leave_frame, State, Step}
use usloss.System.Reachable.{Saved, SavedIn, saved_cpu, Healthy, Step-Healthy}

module _ (memory : Memory) (vm : Vm) (Os : Type 0) where
  -- How an alarm signal goes on: with the operating system's handler, in kernel mode with
  -- interrupts off, on top of what it has interrupted; with the interrupted context itself, with
  -- the same registers; or not, where a disk whose request is pending fails.
  pub data Interrupting (s : State memory vm Os) : Type 0 where
    handled :
        (dev : ℕ) (unit : ℤ) (b : Board memory)
        → next_interrupt memory (alarm_signal memory s.world.0) ≡ done (some (dev, unit), b)
        → (s' : State memory vm Os) → Step memory vm Os s s'
        → s'.frames ≡ signal_frame s.cpu ∷ s.frames
        → Agrees s'.cpu
        → kernel_mode s'.cpu.psr ≡ true
        → int_enabled s'.cpu.psr ≡ false
        → Healthy memory vm Os s'
        → Interrupting s
    unnoticed :
        (s' : State memory vm Os)
        → Step memory vm Os s s'
        → s'.cpu ≡ s.cpu
        → s'.frames ≡ s.frames
        → Healthy memory vm Os s'
        → Interrupting s
    failed :
        (u : ℕ) (f : Fault)
        → busy_at memory s.world.0.disks u ≡ true
        → perform memory (disk_at memory s.world.0.disks u) s.world.0.mem ≡ fault f
        → next_interrupt memory (alarm_signal memory s.world.0) ≡ fault f
        → Interrupting s

  leaves :
      (f : Frame) (c : Cpu)
      → SavedIn f
      → is_valid c.psr ≡ true
      → leave_frame f c ≡ done (saved_cpu f)
  unfolding leave_frame leave_handler
  leaves (signal_frame old) c v valid = rw valid refl
  leaves (fault_frame old entry) c v valid = rw v.1 refl

  -- In every healthy state the innermost handler can return, and the registers and the signal mask
  -- are then as they were when it was entered.
  pub Healthy-return :
      (s : State memory vm Os) (f : Frame) (fs : List Frame)
      → Healthy memory vm Os s
      → s.frames ≡ f ∷ fs
      → Step memory vm Os s (record s { cpu = saved_cpu f; frames = fs })
        × Healthy memory vm Os (record s { cpu = saved_cpu f; frames = fs })
  Healthy-return s f fs h top =
      let v : Saved (f ∷ fs) = subst Saved top h.frames in
      let step = Step.return f fs _ top (leaves f s.cpu v.0 h.good.valid) in
      (step, Step-Healthy memory vm Os s _ h step)
