-- ===== src/Traps.antt =====
-- System calls and illegal instructions: `USLOSS_Syscall` and `USLOSS_IllegalInstruction` of
-- src/sig_ints.c with the part of `sighandler` that serves SIGUSR1, and CHECKMODE of
-- libuser/libuser.c. The kernel's handlers in `USLOSS_IntVec` are parameters; a handler that
-- switches to another context and never returns has no outcome here.
pub mod Served
use usloss.Base.{
  ℕ, Bool, true, false, Option, none, some, List, if◌then◌else◌, Result, done, fault, Fault, ◌>>=◌,
}
use usloss.Psr.{Cpu, kernel_mode, psr_get, enter_handler, leave_handler}
use usloss.LibUser.Stub.{SysArgs, Stub, as_int}

module _ (Os : Type 0) where
  -- `USLOSS_IntVec[USLOSS_SYSCALL_INT]`: it works on the registers, on the state of the operating
  -- system and on the record that the call points at.
  abbrev pub SyscallHandler : Type 0
  SyscallHandler = Cpu → Os → SysArgs → Result (SysArgs × Cpu × Os)

  abbrev pub IllegalHandler : Type 0
  IllegalHandler = Cpu → Os → Result (Cpu × Os)

  -- `raise(SIGUSR1)` with `trap_pending` set: `sighandler` clears it and calls the handler.
  unfoldable pub trap :
      {A : Type 0} → Option (Cpu → Result (A × Cpu × Os)) → Cpu → Result (A × Cpu × Os)
  trap none c = enter_handler c >>= λ _. fault Fault.sim_trap
  trap (some h) c = do k ← enter_handler c; r ← h k; c' ← leave_handler c r.1; done (r.0, c', r.2)

  -- What both functions test before they raise the signal.
  unfoldable pub raise_trap :
      {A : Type 0} → Option (Cpu → Result (A × Cpu × Os)) → Cpu → Result (A × Cpu × Os)
  raise_trap h c =
      if kernel_mode c.psr
      then fault Fault.aborted
      else if c.usr1_blocked
      then fault Fault.aborted
      else trap h c

  -- `USLOSS_Syscall`
  unfoldable pub syscall : Option SyscallHandler → Cpu → Os → SysArgs → Result (SysArgs × Cpu × Os)
  syscall none c os sa = raise_trap none c
  syscall (some h) c os sa = raise_trap (some (λ k. h k os sa)) c

  -- `USLOSS_IllegalInstruction`
  unfoldable pub illegal_instruction : Option IllegalHandler → Cpu → Os → Result (Cpu × Os)
  illegal_instruction none c os = raise_trap {A = Unit {0}} none c >>= λ r. done (r.1, r.2)
  illegal_instruction (some h) c os =
      raise_trap {A = Unit {0}} (some (λ k. h k os >>= λ r. done (tt, r.0, r.1))) c >>= λ r.
      done (r.1, r.2)

  -- `check_kernel_mode`: in user mode the illegal instruction traps, and the caller goes on if the
  -- handler returns.
  unfoldable pub check_kernel_mode : Option IllegalHandler → Cpu → Os → Result (Cpu × Os)
  check_kernel_mode h c os = do
    r ← psr_get c
    if kernel_mode r.0 then done (r.1, os) else illegal_instruction h r.1 os

  -- A function of libuser: CHECKMODE, the record on the stack, the call, and the results.
  unfoldable pub invoke :
      Option SyscallHandler → Stub → SysArgs → Cpu → Os → Result ((ℕ × List ℕ) × Cpu × Os)
  invoke h stub stack c os = psr_get c >>= λ r.
      (if kernel_mode r.0
        then fault (Fault.halted 1)
        else (syscall h r.1 os (stub.fill stack) >>= λ s.
            done ((as_int s.0.arg4, stub.outputs s.0), s.1, s.2)))
