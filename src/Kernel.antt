-- ===== src/Kernel.antt =====
-- The functions of src/devices.c, src/globals.c and src/mmu.c that want kernel mode, with
-- `check_kernel_mode` in front. The handler of illegal instructions is a parameter, and works on
-- all of the state.
pub mod Guard
use usloss.Base.{
  ℕ, Bool, true, false, ◌&&◌, Option, none, some, ◌==◌, if◌then◌else◌, ℤ, pos, eq_ℤ, not,
  out_of_range, Result, done, fault, ◌>>=◌,
}
use usloss.EventQueue.{clock_dev}
use usloss.Devices.Codes.{Code}
use usloss.Devices.Disk.{Memory}
use usloss.Clock.{usloss_clock}
use usloss.Board.{Board, device_input, device_output}
use usloss.Psr.{Cpu, PsrStatus, int_off, int_on_if, psr_set}
use usloss.Traps.{IllegalHandler, check_kernel_mode}
use usloss.Mmu.Types.{Status, tlb, num_tag, Vm}
use usloss.Mmu.Switch.{Pte}
use usloss.Mmu.Config.{Host, MmuPtr, mmu_init, mmu_done, mmu_map, mmu_unmap, same_mode}
use usloss.Mmu.Api.{usloss_mmu_set_access, usloss_mmu_set_tag, usloss_mmu_set_page_table}

-- The calls with their arguments; `random` is what `rand` returns.
pub data KernelCall : Type 0 where
  input output : ℕ → ℤ → ℕ → KernelCall
  clock : ℕ → KernelCall
  set_psr : ℕ → KernelCall
  init : Host → ℤ → ℤ → ℤ → ℕ → KernelCall
  finish : KernelCall
  map : ℤ → ℤ → ℤ → ℕ → KernelCall
  unmap : ℤ → ℤ → KernelCall
  set_tag : ℤ → KernelCall
  set_access : ℤ → ℕ → KernelCall
  set_page_table : ℕ → (ℕ → Pte) → KernelCall

-- What they return, with what goes through a pointer.
pub data Reply : Type 0 where
  device : Code → Option ℕ → Reply
  time : ℕ → Reply
  psr : PsrStatus → Reply
  mmu : Status → Reply

module _ (memory : Memory) (vm : Vm) (Os : Type 0) where
  -- The devices, the MMU and the operating system.
  abbrev pub World : Type 0
  World = Board memory × MmuPtr vm × Os

  abbrev pub IllegalEntry : Type 0
  IllegalEntry = Option (IllegalHandler World)

  -- A call that does not return has no result.
  abbrev pub CallEnd : Type 0
  CallEnd = Option (Result (Reply × Cpu × World))

  abbrev pub mmu_answer : Cpu → Board memory → Os → Result (Status × MmuPtr vm) → CallEnd
  mmu_answer c b os r = some (r >>= λ s. done (Reply.mmu s.0, c, (b, s.1, os)))

  -- What a call does once it has passed the check. `USLOSSClock` blocks the signals meanwhile.
  unfoldable pub carry_out : KernelCall → Cpu → World → CallEnd
  carry_out (input dev unit random) c (b, p, os) =
      some (
        device_input memory dev unit random b >>= λ a. done (Reply.device a.0 a.1, c, (a.2, p, os)))
  carry_out (output dev unit arg) c (b, p, os) = elim (device_output memory dev unit arg b) [
    | none ↦ none
    | some a ↦ some (done (Reply.device a.0 none, c, (a.1, p, os)))
  ]
  carry_out (clock random) c (b, p, os) =
      let (enabled, c') = int_off c in
      let (now, t) = usloss_clock random b.ticks in
      some (done (Reply.time now, int_on_if enabled c', (record b { ticks = t }, p, os)))
  carry_out (set_psr new) c w = some (psr_set new c >>= λ r. done (Reply.psr r.0, r.1, w))
  carry_out (init host num_maps num_pages num_frames mode) c (b, p, os) =
      mmu_answer c b os (mmu_init vm p host num_maps num_pages num_frames mode)
  carry_out finish c (b, p, os) = mmu_answer c b os (done (mmu_done vm p))
  carry_out (map tag page frame protection) c (b, p, os) =
      mmu_answer c b os (mmu_map vm p tag page frame protection)
  carry_out (unmap tag page) c (b, p, os) = mmu_answer c b os (mmu_unmap vm p tag page)
  carry_out (set_tag tag) c (b, p, os) = mmu_answer c b os (usloss_mmu_set_tag vm p tag)
  carry_out (set_access frame access) c (b, p, os) =
      mmu_answer c b os (usloss_mmu_set_access vm p frame access)
  carry_out (set_page_table pointer table) c (b, p, os) =
      mmu_answer c b os (usloss_mmu_set_page_table vm p pointer table)

  -- Whether the function calls another one that checks again: the clock device calls `USLOSSClock`,
  -- and `USLOSS_MmuSetTag`, if it gets so far, `SetTag`.
  unfoldable pub checks_again : KernelCall → World → Bool
  checks_again (input dev unit random) w = dev == clock_dev && eq_ℤ unit (pos 0)
  checks_again (set_tag tag) (b, none, os) = false
  checks_again (set_tag tag) (b, some m, os) =
      same_mode vm m.mode tlb && not (out_of_range tag num_tag)
  checks_again call w = false

  abbrev pub checked : Result (Cpu × World) → (Cpu → World → CallEnd) → CallEnd
  checked (done (c, w)) k = k c w
  checked (fault f) k = some (fault f)

  -- A call below its first check.
  unfoldable pub behind_check : IllegalEntry → KernelCall → Cpu → World → CallEnd
  behind_check h call c w =
      if checks_again call w
      then checked (check_kernel_mode World h c w) (carry_out call)
      else carry_out call c w

  -- The whole function.
  unfoldable pub guarded_call : IllegalEntry → KernelCall → Cpu → World → CallEnd
  guarded_call h call c w = checked (check_kernel_mode World h c w) (behind_check h call)
