-- ===== src/Scenarios/Whole.antt =====
-- The theorems about the whole simulator, at its start and after the operating system has turned
-- its interrupts on.
use usloss.Base.{ℕ, ◌+◌, true, false, none, [], ◌∷◌, fault, Fault}
use usloss.Devices.Disk.{disk_open}
use usloss.Devices.Term.{term_init}
use usloss.Psr.{psr_magic}
use usloss.Board.{Board, init_board}
use usloss.Traps.{IllegalHandler}
use usloss.Kernel.{World}
use usloss.Startup.{AlarmSignal, Booted}
use usloss.System.{State, boot_state}
use usloss.Scenarios.HostMemory.{host_vm, memory}

-- No disks and no input.
abbrev booted : Booted memory
booted = record {
  alarm = AlarmSignal.sigalrm;
  cpu = record { psr = psr_magic + 1; alarm_blocked = true; usr1_blocked = true };
  board =
      init_board memory (disk_open memory none ∷ disk_open memory none ∷ []) (term_init (λ k. []))
        (λ a. 0);
}

abbrev first_state : State memory host_vm ℕ
first_state = boot_state memory host_vm ℕ booted 7

-- The kernel has called `USLOSS_PsrSet` with interrupts on.
abbrev listening : State memory host_vm ℕ
listening = record first_state {
  cpu = record { psr = psr_magic + 3; alarm_blocked = false; usr1_blocked = false };
}

abbrev unhandled : IllegalHandler (World memory host_vm ℕ)
unhandled k w = fault (Fault.halted 1)
