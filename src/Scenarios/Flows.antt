-- ===== src/Scenarios/Flows.antt =====
-- The theorems that follow one thing through several parts: an event to its tick, an access to its
-- page, and a character to its reader.
use usloss.Base.{
  ℕ, ◌↔◌, leb, le→leb, none≢some, if◌then◌else◌, ◌+◌, ◌≡◌, refl, true, false, Option, none, some,
  List, [], ◌∷◌, ◌++◌, length, map, ℤ, pos, arith, Result, done, fault, Fault, ◌>>=◌,
}
use usloss.EventQueue.{Slot, Queue, init_queue, schedule_int, disk_dev, low_pri_dev}
use usloss.EventQueue.Delivery.{init_queue-IsValid, event}
use usloss.EventQueue.Agenda.{insert}
use usloss.EventQueue.Due.{due, due-schedule_int}
use usloss.Psr.{Cpu, psr_magic, int_enabled, int_off, psr_get}
use usloss.Psr.Laws.{Agrees}
use usloss.Mmu.Pages.{Mmu, map_page}
use usloss.Mmu.Sound.{Sound}
use usloss.Pager.{Process}
use usloss.Devices.Disk.{disk_open}
use usloss.Board.{Board, Handler, init_board}
use usloss.Board.Runs.{Reach, Reach-Consistent}
use usloss.Signals.{Vector}
use usloss.Signals.Served.{Handles}
use usloss.Touch.{Touched, touch, touch-Touched}
use usloss.Mmu.Switch.{Pte}
use usloss.Mmu.Query.{mmu_get_mode}
use usloss.Contexts.{context_switch, switch_table, parked, resumed, launcher}
use usloss.Contexts.Resume.{context_switch-Agrees}
use usloss.Traps.{IllegalHandler, check_kernel_mode}
use usloss.Kernel.{World}
use usloss.Devices.Term.{Terminal}
use usloss.Window.{type_all}
use usloss.Scenarios.HostMemory.{host_vm, memory, blank}

due-schedule_int_example :
    (q' : Queue) × (before : List Slot) × (onward : List Slot) × (before' : List Slot)
    × (onward' : List Slot) × (schedule_int init_queue disk_dev 1 3 ≡ some q')
    × (due 256 init_queue ≡ before ++ onward)
    × (due 256 q' ≡ before' ++ onward')
    × (length before ≡ 2)
    × (length before' ≡ 2)
    × (onward' ++ before' ≡ insert (event disk_dev 1) (onward ++ before))
unfolding init_queue
due-schedule_int_example =
    due-schedule_int init_queue disk_dev 1 3 0 init_queue-IsValid (omega arith) (omega arith) refl
      (omega arith) (omega arith)

-- A user process with interrupts on.
abbrev user : Cpu
user = record { psr = psr_magic + 2; alarm_blocked = false; usr1_blocked = false }

-- A handler that maps page 1 to frame 2.
abbrev pager : ℤ → Process host_vm ℕ → Result (Process host_vm ℕ)
pager offset (c, none, os) = fault Fault.sim_trap
pager offset (c, some m, os) =
    map_page host_vm m (pos 0) (pos 1) (pos 2) 3 >>= λ r. done (c, some r.1, os + 1)

-- Terminal 2 with what the window wrote for "h", "@" and the return key.
abbrev typed : List ℕ
typed = 104 ∷ 64 ∷ 13 ∷ []

abbrev console : List (Option ℕ) → Terminal
console input = record { input = input; output = []; status = 0; control = 0 }

abbrev desk : List Terminal
desk =
    console [] ∷ console [] ∷ console (map some (type_all (map some typed) 0).1) ∷ console [] ∷ []

-- A user process asks for kernel mode, and the kernel's handler ends the simulator.
abbrev stopping : IllegalHandler (World memory host_vm ℕ)
stopping k w = fault (Fault.halted 1)

abbrev idle_world : World memory host_vm ℕ
idle_world =
    (init_board memory (disk_open memory none ∷ disk_open memory none ∷ []) [] (λ a. 0), none, 0)

-- Handlers for the four devices, which do nothing.
abbrev passing : Handler memory (Cpu × (Mmu host_vm × ℕ))
passing = λ dev unit b s. done (b, s)

abbrev returning : Vector memory (Mmu host_vm × ℕ)
returning dev = if leb dev low_pri_dev then some passing else none

returning-Handles : Handles memory (Mmu host_vm × ℕ) returning
returning-Handles = record {
  returns = λ dev unit b k os known c v w.
      (passing, b, k, os, rw (le→leb dev low_pri_dev known) refl, refl, c, v, w);
}

abbrev quiet_board : Board memory
quiet_board = init_board memory (disk_open memory none ∷ disk_open memory none ∷ []) [] (λ a. 0)

touch-Touched_example :
    Touched memory host_vm ℕ true 1 user quiet_board blank 0
      (touch memory host_vm ℕ returning true 1 (user, quiet_board, (blank, 0)))
touch-Touched_example =
    touch-Touched memory host_vm ℕ returning true 1 user quiet_board blank 0 returning-Handles
      (Reach-Consistent memory none none [] (λ a. 0) quiet_board Reach.start) refl

-- The kernel, with interrupts off, switches to a context that was left with interrupts on.
abbrev kernel : Cpu
kernel = record { psr = psr_magic + 1; alarm_blocked = true; usr1_blocked = true }

abbrev no_tables : ℕ → ℕ → Pte
no_tables p i = record { incore = false; read = false; write = false; frame = 0 }

no_mmu_switch :
    context_switch host_vm ℕ none no_tables
      (some (record { start = 1; page_table = 0 }))
      none
      kernel
      5
    ≡ done (false, none, kernel, 5)
unfolding context_switch switch_table mmu_get_mode int_off check_kernel_mode psr_get
no_mmu_switch = refl

context_switch-Agrees_example :
    (Agrees (resumed (parked true) kernel) ↔ (true ≡ int_enabled kernel.psr))
    × ((resumed (parked true) kernel).psr ≡ kernel.psr)
    × (false ≡ int_enabled kernel.psr)
    × (launcher (some (record { start = 1; page_table = 0 })) ≡ done (1, none))
context_switch-Agrees_example =
    context_switch-Agrees host_vm ℕ none no_tables (record { start = 1; page_table = 0 }) none none
      kernel kernel 5 5 false (parked true) (record { valid = refl; alarm = refl; usr1 = refl })
      refl (λ m e. none≢some e) no_mmu_switch
