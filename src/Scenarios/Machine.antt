-- ===== src/Scenarios/Machine.antt =====
-- The theorems on the devices together, on the alarm signals and on the contexts: a machine with a
-- disk of two tracks, a request for it, and an operating system whose handlers only return.
use mathlib.Core.Path.{subst}
use usloss.Board.{Handler}
use usloss.EventQueue.{low_pri_dev}
use usloss.Mmu.Sound.{Sound}
use usloss.Base.{
  ◌+◌, some_inj, ℤ, leb, le→leb, ℕ, ◌<◌, ◌≡◌, ◌∷◌, [], List, refl, true, false, Bool, Option, none,
  some, ◌==◌, if◌then◌else◌, replicate, length-replicate, get_or, pos, Result, done, arith, ◌>>=◌,
}
use usloss.EventQueue.{Queue, disk_dev, alarm_dev, init_queue, find_lower}
use usloss.EventQueue.Delivery.{start}
use usloss.Clock.Laws.{reading, alarm_tick, count, first_time, second_time, usloss_clock-times}
use usloss.Startup.{Opt, AlarmSignal, Booted, boot, halt, finished}
use usloss.Startup.Laws.{boot-starts}
use usloss.Devices.Term.{term_init}
use usloss.Devices.Codes.{Code}
use usloss.Devices.Disk.{disk_open}
use usloss.Devices.Disk.Laws.{IsDisk}
use usloss.Board.{Board, init_board, device_output}
use usloss.Board.Inv.{Consistent}
use usloss.Board.Runs.{Reach, Reach-Consistent, Reach-returns}
use usloss.Board.Flood.{alarms, alarms-flood}
use usloss.Psr.{Cpu, kernel_mode, int_enabled}
use usloss.Psr.Laws.{Agrees}
use usloss.Signals.{Vector, wait_int}
use usloss.Signals.Served.{Handles}
use usloss.Signals.Waiting.{Waited, wait_int-Waited}
use usloss.Mmu.Types.{Mode}
use usloss.Mmu.Pages.{Mmu}
use usloss.Mmu.Switch.{Pte}
use usloss.Mmu.Config.{MmuPtr, started}
use usloss.Mmu.Start.{closed_view, started-Sound}
use usloss.Mmu.Life.{Call}
use usloss.Contexts.{Context, context_switch, switched_back}
use usloss.Contexts.Laws.{Tabled, blocked, context_switch-Tabled}
use usloss.LibDisk.{disk_create, File}
use usloss.LibDisk.Laws.{disk_open-disk_create}
use usloss.Scenarios.HostMemory.{host_vm, machine, memory}

usloss_clock-times_example :
    (first_time 7 (reading 3 ∷ []) < second_time 7 (reading 3 ∷ []) 9 (alarm_tick ∷ reading 4 ∷ []))
    × (second_time 7 (reading 3 ∷ []) 9 (alarm_tick ∷ reading 4 ∷ []) < 2147483648)
unfolding count
usloss_clock-times_example =
    usloss_clock-times 7 9 (reading 3 ∷ []) (alarm_tick ∷ reading 4 ∷ []) (omega arith)

-- A request to seek track 1, at address 50.
abbrev seek_cells : ℕ → ℕ
seek_cells a = if a == 50 then 2 else if a == 51 then 1 else 0

abbrev two_tracks : Option (ℕ × List ℕ)
two_tracks = some (16384, replicate 32 0)

abbrev first_board : Board memory
first_board =
    init_board memory (disk_open memory two_tracks ∷ disk_open memory none ∷ []) [] seek_cells

first_request :
    (code : Code) × (b' : Board memory) × (device_output memory disk_dev (pos 0) 50 first_board
      ≡ some (code, b'))
    × Reach memory two_tracks none [] seek_cells b'
first_request =
    Reach-returns memory two_tracks none [] seek_cells first_board disk_dev (pos 0) 50 Reach.start
      (λ e. refl)

-- The board after the request.
abbrev seeking : Board memory
seeking = first_request.1

Reach-Consistent_example : Consistent memory seeking
Reach-Consistent_example =
    Reach-Consistent memory two_tracks none [] seek_cells seeking first_request.3

abbrev times : List ℕ
times = replicate 256 1

alarms-flood_example :
    (q : Queue) × (armed : Bool) × (alarms times false init_queue ≡ some (armed, q))
    × ((time fuel : ℕ) → find_lower fuel q.slots alarm_dev (start q time) ≡ none)
alarms-flood_example = alarms-flood times (length-replicate {A = ℕ} 256 1)

-- Handlers for the four devices, which count the interrupts.
abbrev counting : Handler memory (Cpu × ℕ)
counting = λ dev unit b s. done (b, (s.0, s.1 + 1))

abbrev returning : Vector memory ℕ
returning dev = if leb dev low_pri_dev then some counting else none

returning-Handles : Handles memory ℕ returning
returning-Handles = record {
  returns = λ dev unit b k os known c v w.
      (counting, b, k, os + 1, rw (le→leb dev low_pri_dev known) refl, refl, c, v, w);
}

-- A process in user mode with interrupts on.
abbrev user : Cpu
user = record { psr = 283138; alarm_blocked = false; usr1_blocked = false }

user-Agrees : Agrees user
user-Agrees = record { valid = refl; alarm = refl; usr1 = refl }

wait_int-Waited_example :
    Waited memory ℕ user seeking (wait_int memory ℕ 12 returning (user, seeking, 5))
wait_int-Waited_example =
    wait_int-Waited memory ℕ 10 returning user seeking 5 returning-Handles Reach-Consistent_example
      user-Agrees refl

-- The MMU is started in TLB mode, page 0 gets frame 2 and is touched, the tag is switched and the
-- MMU stopped.
abbrev calls : List Call
calls =
    Call.init machine (pos 12) (pos 3) (pos 4) 1
    ∷ Call.map (pos 0) (pos 0) (pos 2) 3
    ∷ Call.fault_at 69640
    ∷ Call.set_tag (pos 1)
    ∷ Call.set_access (pos 2) 0
    ∷ Call.finish
    ∷ []

-- An MMU with page tables, and a context whose table has page 0 in frame 2.
abbrev paged : Mmu host_vm
paged = started host_vm machine Mode.pagetable 3 3 4 (closed_view host_vm 3)

abbrev tables : ℕ → ℕ → Pte
tables pointer page = record { incore = page == 0; read = true; write = false; frame = 2 }

abbrev next : Context
next = record { start = 1; page_table = 4096 }

abbrev kernel : Cpu
kernel = record { psr = 283137; alarm_blocked = true; usr1_blocked = true }

kernel-Agrees : Agrees kernel
kernel-Agrees = record { valid = refl; alarm = refl; usr1 = refl }

paged-Sound : (m : Mmu host_vm) → some paged ≡ some m → Sound host_vm m
paged-Sound m e =
    subst (Sound host_vm) (some_inj e) (started-Sound host_vm machine Mode.pagetable 3 3 4)

context_switch-Tabled_example :
    (out : Result (MmuPtr host_vm)) × Tabled host_vm tables next (some paged) out
    × (context_switch host_vm ℕ none tables (some next) (some paged) kernel 5
        ≡ (out >>= λ p'. done (false, p', blocked kernel, 5)))
    × (switched_back false (blocked kernel) ≡ kernel)
context_switch-Tabled_example =
    context_switch-Tabled host_vm ℕ none tables next (some paged) kernel 5 kernel-Agrees refl
      paged-Sound

disk_open-disk_create_example :
    (file : File memory) × (disk_create memory true (λ k. 8192) 2 ≡ (0, some file))
    × IsDisk memory (disk_open memory (some file))
    × ((disk_open memory (some file)).tracks ≡ 2)
    × ((disk_open memory (some file)).status ≡ Code.ready)
    × ((i : ℕ) → get_or (disk_open memory (some file)).file i 0 ≡ 0)
disk_open-disk_create_example =
    disk_open-disk_create memory (λ k. 8192) 2 (omega arith) (λ k h. refl)

boot-starts_example :
    (s : Booted memory) × (boot memory
        (Opt.verbose ∷ Opt.virtual ∷ [])
        two_tracks
        none
        (λ k. [])
        seek_cells
      ≡ some s)
    × Agrees s.cpu
    × (kernel_mode s.cpu.psr ≡ true)
    × (int_enabled s.cpu.psr ≡ false)
    × Reach memory two_tracks none (term_init (λ k. [])) seek_cells s.board
    × (s.alarm ≡ AlarmSignal.sigvtalrm)
    × ((c : Cpu) (status : ℤ) → finished memory s (halt status c) ≡ (s.cpu, status))
boot-starts_example =
    boot-starts memory (Opt.verbose ∷ Opt.virtual ∷ []) two_tracks none (λ k. []) seek_cells refl
