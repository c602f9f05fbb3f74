-- ===== src/Pager.antt =====
-- Page faults in src/sig_ints.c and src/mmu.c, from the signal to the return to the program: the
-- part of `sighandler` for SIGSEGV and SIGBUS, and the end of `USLOSS_MmuHandler`, which calls the
-- operating system. The handler in `USLOSS_IntVec[USLOSS_MMU_INT]` is a parameter. No touch of
-- `USLOSS_MmuTouch` is under way.
pub mod Steps
pub mod Demand
use usloss.Base.{
  ℕ, zero, suc, ◌+◌, ◌*◌, Option, none, some, if◌then◌else◌, ℤ, sub_ℕ, Result, done, fault, Fault,
  ◌>>=◌,
}
use usloss.Psr.{Cpu, enter_handler, leave_handler}
use usloss.Mmu.Types.{Vm, page_addr}
use usloss.Mmu.Access.{Verdict}
use usloss.Mmu.Config.{MmuPtr}
use usloss.Mmu.Api.{usloss_mmu_handler}
use usloss.Mmu.Cpu.{Kind, lets, Seen}

module _ (vm : Vm) (Os : Type 0) where
  open vm use {at}

  -- The registers, the MMU and the operating system.
  abbrev pub Process : Type 0
  Process = Cpu × MmuPtr vm × Os

  -- The operating system's handler takes the offset of the address in the region.
  abbrev pub FaultHandler : Type 0
  FaultHandler = ℤ → Process → Result Process

  -- `USLOSS_MmuHandler` from the label `done` on: the interrupt, and the register as it was before.
  unfoldable pub interrupt_os : Option FaultHandler → ℕ → Verdict → Process → Result Process
  interrupt_os h addr v (c, none, os) = done (c, none, os)
  interrupt_os h addr Verdict.resume (c, some m, os) = done (c, some m, os)
  interrupt_os h addr Verdict.real_segv (c, some m, os) = done (c, some m, os)
  interrupt_os none addr Verdict.interrupt (c, some m, os) = fault Fault.sim_trap
  interrupt_os (some f) addr Verdict.interrupt (c, some m, os) =
      f (sub_ℕ addr m.region) (c, some m, os) >>= λ r. done (record r.0 { psr = c.psr }, r.1, r.2)

  -- `sighandler` on SIGSEGV or SIGBUS, and the return from it.
  unfoldable pub page_fault : Option FaultHandler → ℕ → Process → Result (Verdict × Process)
  page_fault h addr (c, p, os) = do
    k ← enter_handler c
    v ← usloss_mmu_handler vm p addr
    r ← interrupt_os h addr v.0 (k, v.1, os)
    c' ← leave_handler c r.0
    done (v.0, (c', r.1, r.2))

  -- An access at an offset in page i of the region, with fuel for the attempts: the host makes it
  -- again after each fault, unless the fault is one of the host's own.
  unfoldable pub access : ℕ → Option FaultHandler → ℕ → ℕ → Kind → Process → Option (Seen × Process)
  access zero h i off kind s = none
  access (suc fuel) h i off kind (c, none, os) = some (Seen.crashed, (c, none, os))
  access (suc fuel) h i off kind (c, some m, os) =
      let again = λ (s : Process). access fuel h i off kind s in
      if lets (at m.view (page_addr i)).prot kind
      then some (Seen.granted, (c, some m, os))
      else elim (page_fault h (m.region + (i * m.page_size + off)) (c, some m, os)) [
        | fault _ ↦ some (Seen.crashed, (c, some m, os))
        | done (v, s) ↦ elim v [ Verdict.real_segv ↦ some (Seen.crashed, s) | _ ↦ again s ]
      ]
