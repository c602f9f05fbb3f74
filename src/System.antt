-- ===== src/System.antt =====
-- The whole simulator as a relation of steps: the calls of the kernel, the signals of
-- src/sig_ints.c that interrupt it or a user process, the return from their handlers, and the
-- switches between contexts. A handler of the operating system is not a function here but the steps
-- that follow the signal, so that it can be interrupted, and can switch to another context, itself.
pub mod Calls
pub mod Registers
pub mod Answers
pub mod Reachable
pub mod Progress
use usloss.Base.{
  ℕ, Bool, true, false, none, Option, some, ◌≡◌, List, [], ◌∷◌, ℤ, ◌==◌, if◌then◌else◌, Result,
  done,
}
use usloss.EventQueue.{alarm_dev}
use usloss.Devices.Disk.{Memory}
use usloss.Psr.{Cpu, kernel_mode, int_enabled, psr_get, enter_handler, leave_handler}
use usloss.Board.{Board, alarm_signal, next_interrupt}
use usloss.Mmu.Types.{Vm}
use usloss.Mmu.Access.{Verdict}
use usloss.Mmu.Switch.{Pte}
use usloss.Mmu.Config.{MmuPtr}
use usloss.Mmu.Api.{usloss_mmu_handler}
use usloss.Contexts.{Context, Target, fresh, parked, resumed, context_init, context_switch}
use usloss.Startup.{Booted}
use usloss.Kernel.{KernelCall, output, Reply, World, carry_out}

-- A handler that has not returned yet, with the registers of before: of an alarm or a trap, or of a
-- page fault, where `USLOSS_MmuHandler` puts its own register back first.
pub data Frame : Type 0 where
  signal_frame : Cpu → Frame
  fault_frame : Cpu → Cpu → Frame

-- A context that does not run, with the handlers that it is in.
pub record Thread : Type 0 where
  pub context : Context
  pub target : Target
  pub frames : List Frame

abbrev pub Threads : Type 0
Threads = ℕ → Option Thread

abbrev pub put : ℕ → Thread → Threads → Threads
put i t threads j = if j == i then some t else threads j

-- The end of a handler: the registers that are put back.
unfoldable pub leave_frame : Frame → Cpu → Result Cpu
leave_frame (signal_frame old) c = leave_handler old c
leave_frame (fault_frame old entry) c = leave_handler old (record c { psr = entry.psr })

-- An alarm must not be requested while one is pending.
abbrev pub Sparing : KernelCall → Bool → Type 0
Sparing (output dev unit arg) armed = dev ≡ alarm_dev → armed ≡ false
Sparing call armed = Unit {0}

module _ (memory : Memory) (vm : Vm) (Os : Type 0) where
  open memory use {Mem}

  -- The registers, the devices with the MMU and the operating system, the handlers that the running
  -- context is in, and the other contexts.
  pub record State : Type 0 where
    pub cpu : Cpu
    pub world : World memory vm Os
    pub frames : List Frame
    pub threads : Threads

  abbrev pub on_board : World memory vm Os → Board memory → World memory vm Os
  on_board w b = (b, w.1, w.2)

  -- A step. A function that wants kernel mode is a `check`, with a `trap` in user mode, and then
  -- the `call`, in whatever mode the handler has returned to; a system call is a `trap` too. A
  -- `delayed_alarm` is one that finds a trap pending. The functions of the contexts are called in
  -- kernel mode. What an operating system or a process does on its own is a `compute`.
  pub data Step (s : State) : State → Type 0 where
    check : (bits : ℕ) (c : Cpu) → psr_get s.cpu ≡ done (bits, c) → Step s (record s { cpu = c })
    call :
        (k : KernelCall) (r : Reply) (c : Cpu) (w : World memory vm Os)
        → Sparing k s.world.0.armed
        → carry_out memory vm Os k s.cpu s.world ≡ some (done (r, c, w))
        → Step s (record s { cpu = c; world = w })
    compute :
        (mem : Mem) (os : Os)
        → Step s (record s { world = (record s.world.0 { mem = mem }, s.world.1, os) })
    wait :
        int_enabled s.cpu.psr ≡ true
        → Step s (record s { world = on_board s.world (record s.world.0 { waiting = true }) })
    alarm :
        (k : Cpu) (dev : ℕ) (unit : ℤ) (b : Board memory)
        → s.cpu.alarm_blocked ≡ false
        → enter_handler s.cpu ≡ done k
        → next_interrupt memory (alarm_signal memory s.world.0) ≡ done (some (dev, unit), b)
        → Step s (record s {
          cpu = k;
          world = on_board s.world b;
          frames = signal_frame s.cpu ∷ s.frames;
        })
    quiet_alarm :
        (k c : Cpu) (b : Board memory)
        → s.cpu.alarm_blocked ≡ false
        → enter_handler s.cpu ≡ done k
        → next_interrupt memory (alarm_signal memory s.world.0) ≡ done (none, b)
        → leave_handler s.cpu k ≡ done c
        → Step s (record s { cpu = c; world = on_board s.world b })
    delayed_alarm :
        (k c : Cpu)
        → s.cpu.alarm_blocked ≡ false
        → enter_handler s.cpu ≡ done k
        → leave_handler s.cpu k ≡ done c
        → Step s (record s { cpu = c; world = on_board s.world (alarm_signal memory s.world.0) })
    trap :
        (k : Cpu)
        → kernel_mode s.cpu.psr ≡ false
        → s.cpu.usr1_blocked ≡ false
        → enter_handler s.cpu ≡ done k
        → Step s (record s { cpu = k; frames = signal_frame s.cpu ∷ s.frames })
    page_fault :
        (addr : ℕ) (k : Cpu) (p : MmuPtr vm)
        → enter_handler s.cpu ≡ done k
        → usloss_mmu_handler vm s.world.1 addr ≡ done (Verdict.interrupt, p)
        → Step s (record s {
          cpu = k;
          world = (s.world.0, p, s.world.2);
          frames = fault_frame s.cpu k ∷ s.frames;
        })
    mended_fault :
        (addr : ℕ) (k c : Cpu) (p : MmuPtr vm)
        → enter_handler s.cpu ≡ done k
        → usloss_mmu_handler vm s.world.1 addr ≡ done (Verdict.resume, p)
        → leave_handler s.cpu k ≡ done c
        → Step s (record s { cpu = c; world = (s.world.0, p, s.world.2) })
    return :
        (f : Frame) (fs : List Frame) (c : Cpu)
        → s.frames ≡ f ∷ fs
        → leave_frame f s.cpu ≡ done c
        → Step s (record s { cpu = c; frames = fs })
    make_context :
        (i : ℕ) (stack_size : ℤ) (page_table pc : ℕ) (new : Context) (c : Cpu)
        → context_init (World memory vm Os) none stack_size page_table pc s.cpu s.world
          ≡ done (new, c, s.world)
        → Step s (record s {
          cpu = c;
          threads = put i (record { context = new; target = fresh; frames = [] }) s.threads;
        })
    switch :
        (tables : ℕ → ℕ → Pte) (i j : ℕ) (old : Context) (new : Thread) (enabled : Bool)
        (p : MmuPtr vm) (c : Cpu)
        → s.threads j ≡ some new
        → context_switch vm
            (Board memory × Os)
            none
            tables
            (some new.context)
            s.world.1
            s.cpu
            (s.world.0, s.world.2)
          ≡ done (enabled, p, c, (s.world.0, s.world.2))
        → Step s (record {
          cpu = resumed new.target c;
          world = (s.world.0, p, s.world.2);
          frames = new.frames;
          threads =
              put i
                (record { context = old; target = parked enabled; frames = s.frames })
                s.threads;
        })

  -- The states that the simulator can get into from a given one.
  pub data Reach (start : State) : State → Type 0 where
    here : Reach start start
    next : {s s' : State} → Reach start s → Step s s' → Reach start s'

  -- The state in which the operating system starts, with the MMU off and no other context.
  abbrev pub boot_state : Booted memory → Os → State
  boot_state b os = record {
    cpu = b.cpu;
    world = (b.board, none, os);
    frames = [];
    threads = λ i. none;
  }
