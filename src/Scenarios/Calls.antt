-- ===== src/Scenarios/Calls.antt =====
-- The theorems on the registers and the system calls, on a user process with interrupts on.
use usloss.Base.{ℕ, ◌+◌, refl, false, done}
use usloss.Psr.{Cpu, psr_set}
use usloss.Psr.Laws.{PsrEnd, psr_set-PsrEnd}
use usloss.LibUser.Stub.{SysArgs}
use usloss.LibUser.Calls.{get_pid_call, stub}
use usloss.Traps.{SyscallHandler}

abbrev user : Cpu
user = record { psr = 283138; alarm_blocked = false; usr1_blocked = false }

psr_set-PsrEnd_example : PsrEnd 3 user (psr_set 3 user)
psr_set-PsrEnd_example = psr_set-PsrEnd 3 user refl

abbrev stack : SysArgs
stack = record { number = 0; arg1 = 1; arg2 = 2; arg3 = 3; arg4 = 4; arg5 = 5 }

-- A kernel that counts its calls, and answers 7.
abbrev counting : SyscallHandler ℕ
counting = λ k os sa. done (record sa { arg1 = 7; arg4 = 0 }, k, os + 1)

abbrev answered : SysArgs
answered = record ((stub get_pid_call).fill stack) { arg1 = 7; arg4 = 0 }
