-- ===== src/Signals.antt =====
-- Alarm signals in src/sig_ints.c: the part of `sighandler` for SIG_ALARM, and `USLOSS_WaitInt`.
-- The handlers in `USLOSS_IntVec` are parameters.
pub mod Served
pub mod Waiting
use usloss.Base.{
  ℕ, zero, suc, Bool, true, false, not, Option, none, some, if◌then◌else◌, Result, done, fault,
  Fault, check, ◌>>=◌,
}
use usloss.Psr.{Cpu, int_enabled, enter_handler, leave_handler}
use usloss.Devices.Disk.{Memory}
use usloss.Board.{Board, Handler, alarm_signal, dispatch_int}

module _ (memory : Memory) (Os : Type 0) where
  -- `USLOSS_IntVec`: a handler works on the registers too.
  abbrev pub Vector : Type 0
  Vector = ℕ → Option (Handler memory (Cpu × Os))

  -- The registers, the devices and the operating system.
  abbrev pub Machine : Type 0
  Machine = Cpu × Board memory × Os

  -- `sighandler` on SIG_ALARM, and the return from it. With a trap pending the devices wait.
  unfoldable pub sighandler : Vector → Bool → Machine → Result Machine
  sighandler vector trap_pending (c, b, os) = do
    k ← enter_handler c
    let b' = alarm_signal memory b
    r ←
        if trap_pending
        then done (b', (k, os))
        else dispatch_int memory (Cpu × Os) vector b' (k, os)
    c' ← leave_handler c r.1.0
    done (c', r.0, r.1.1)

  -- `raise(SIG_ALARM)`; a signal that is blocked is not delivered.
  unfoldable pub raise_alarm : Vector → Machine → Result Machine
  raise_alarm vector (c, b, os) =
      if c.alarm_blocked then done (c, b, os) else sighandler vector false (c, b, os)

  abbrev pub resumed :
      (Machine → Option (Result Machine)) → Result Machine → Option (Result Machine)
  resumed rest (done m) = rest m
  resumed rest (fault f) = some (fault f)

  -- The loop of `USLOSS_WaitInt`, with fuel; there is no result where the fuel ends first. In real
  -- time the signal that `pause` waits for comes from the timer.
  unfoldable pub wait_loop : ℕ → Vector → Machine → Option (Result Machine)
  wait_loop zero vector m = none
  wait_loop (suc fuel) vector (c, b, os) =
      if not b.waiting
      then some (done (c, b, os))
      else resumed (wait_loop fuel vector) (raise_alarm vector (c, b, os))

  -- `USLOSS_WaitInt`
  unfoldable pub wait_int : ℕ → Vector → Machine → Option (Result Machine)
  wait_int fuel vector (c, b, os) =
      if not (int_enabled c.psr)
      then some (fault Fault.sim_trap)
      else wait_loop fuel vector (c, record b { waiting = true }, os)
