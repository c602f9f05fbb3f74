-- ===== src/Lib.antt =====
-- This library is about USLOSS, a simulator of a small computer: a program that is linked with an
-- operating system written in C gets an MMU, interrupts, a clock, an alarm, disks, terminals, a
-- processor status register and system calls.
--
-- The parts, and how they interact:
--
-- EventQueue models the queue of pending device events of src/devices.c: `dev_event_queue`,
-- `dev_event_ptr`, `schedule_int`, and the part of `dispatch_int` that takes the next event out. The
-- devices put their events there. The inner loop of `schedule_int` has 256 rounds of fuel, one for
-- each slot, and the outer loop three, one for each device of a higher priority than a free slot;
-- EventQueue/Schedule shows that they are enough while a slot is free. The bytes of the index wrap
-- with % 256. EventQueue/Agenda has the specification, one pass over a list of events, and
-- EventQueue/Due is about what is delivered in the ticks to come.
--
-- Devices models src/dev_alarm.c, src/dev_disk.c and src/dev_term.c: a request puts an event in the
-- queue, and the action at the time of the event does the work. The file of a disk is the list of its
-- sectors, and the memory that requests point into is the interface `Memory`. What `nextchr` reads
-- from a terminal's file is an input of `term_action`; Devices/Term/Stream models `nextchr` itself, on
-- the interface `Stdio` of the C library. Clock models `USLOSSClock` of src/globals.c with
-- its ticks, and src/dev_clock.c; what `rand` returns is an argument.
--
-- Board puts the queue and the devices together as src/devices.c does: the record `Board` holds their
-- variables, and on it work `USLOSS_DeviceInput`, `USLOSS_DeviceOutput` and `dispatch_int`. Board/Inv
-- is the invariant between them, that each pending request has one event in the queue (Board/Census
-- counts the events); the other children show what keeps it. Board/Runs is about any sequence of calls
-- and alarm signals, and Board/Fair (with Board/Fit) about those with well-formed disk requests. A
-- call that does not return has no result (`Option`).
--
-- Signals models the alarm signal in `sighandler` of src/sig_ints.c, and `USLOSS_WaitInt`, whose loop
-- has fuel; Signals/Waiting shows that two rounds are enough. The handlers of the operating system
-- (`USLOSS_IntVec`) are parameters, and `Handles` of Signals/Served says what is asked of them.
-- Contexts models `USLOSS_ContextInit`, `USLOSS_ContextSwitch` with the page tables, and `launcher`; the
-- exchange of the registers is a call of the host. Touch has `USLOSS_MmuTouch` with the signals.
--
-- Mmu models src/mmu.c. `struct MMUInfo` is the record `MmuInfo`; each function is a function from a
-- state to a status and a new state, or to the way in which the simulator ends (`Result` of
-- Base/Outcomes), so that an assertion of the code is a check whose failure can be seen. The mappings
-- of the host are the interface `Vm` of Mmu/Types, with the documented behaviour of mmap and mprotect
-- as its laws. Mmu/Pages has `Map`, `Unmap`, `SetRealProt`, `USLOSS_MmuTouch` and
-- `USLOSS_MmuGetMap`; Mmu/Access the access bits and `USLOSS_MmuHandler`; Mmu/Switch the tags and the
-- page tables; Mmu/Config the start and the end; Mmu/Api the functions with their tests of the mode;
-- Mmu/Query the functions that only read. Mmu/Inv and Mmu/Track are the two halves of the invariant:
-- the region shows what the tables say, and the access bits record every access. Mmu/Runs and
-- Mmu/Life are about sequences of operations, Mmu/Life from the start of the simulator on. Mmu/Cpu
-- has the processor's side of an access: it tries again after the handler has returned, with fuel for
-- three attempts, which Mmu/Cpu shows to be enough. The loops over the pages have the number of pages
-- left as their fuel.
--
-- Pager models a page fault from the signal to the return: the part of `sighandler` for SIGSEGV and the
-- end of `USLOSS_MmuHandler`, which calls the operating system. `access` is the processor's side, with
-- fuel for four attempts; Pager/Demand shows that they are enough for demand paging.
--
-- Kernel puts `check_kernel_mode` in front of the functions that want kernel mode and change the state:
-- the calls of the devices, of the clock, of the status register and of the MMU, which the other
-- modules have without it. Contexts has its own calls of it.
--
-- System puts all of this together as a relation of steps on a whole state: the registers, the devices,
-- the MMU and the operating system, with the handlers that have not returned yet (`Frame`) and the other
-- contexts (`Thread`). There the handlers of the operating system are no parameters but the steps between
-- a signal and its return, so that they can be interrupted and can switch contexts. System/Reachable has
-- the invariant (`Healthy`), System/Progress what always gets on from such a state.
--
-- Psr models the status register and the signal mask of src/globals.c and src/sig_ints.c, Traps the
-- system calls and illegal instructions of src/sig_ints.c, which raise SIGUSR1 and so enter the
-- kernel's handler in `USLOSS_IntVec`. The handlers are parameters. LibUser models
-- libuser/libuser.c: each of its 41 functions is a `Stub`, the record that it fills in and what it
-- reads back, and `Traps.invoke` is what they have in common.
--
-- Startup models `main` of src/main.c up to the start of the operating system and its end, and
-- `USLOSS_Halt`; what `getopt_long` returns is an argument.
--
-- Window models pterm/pterm.c, the window on a terminal: its loop, and the child that shows the output.
-- What `read` gives is an argument.
--
-- LibDisk models `Disk_Create` of libdisk/disk.c and the command libdisk/makedisk.c; what `open` and
-- `write` return and the numbers that are read are arguments.
--
-- Base has the shared helpers. Scenarios applies each theorem with hypotheses to a state in which they
-- hold.
--
-- Words and registers are natural numbers with the wrap of the code written out; bit fields are read
-- and written with / and % by powers of two. Psr/Bits has the functions on the status register with
-- the bit operations of the source too. A pointer argument that may be NULL is a flag. The counters
-- of the clock do not wrap in the model.
--
-- Not modelled: the output to the console and the log, the timers and the exchange of registers (calls
-- of the host), and the modes of the terminal window. The functions of the MMU that only
-- read its state stand without `check_kernel_mode`.
pub mod Base
pub mod Board
pub mod Clock
pub mod Contexts
pub mod Devices
pub mod EventQueue
pub mod Kernel
pub mod LibDisk
pub mod LibUser
pub mod Mmu
pub mod Pager
pub mod Psr
pub mod Scenarios
pub mod Signals
pub mod Startup
pub mod System
pub mod Touch
pub mod Traps
pub mod Window
