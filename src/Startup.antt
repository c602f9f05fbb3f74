-- ===== src/Startup.antt =====
-- `main` of src/main.c up to the start of the operating system: the options and the
-- initializations. What `getopt_long` returns is an argument, and so are the files of the disks and
-- of the terminals.
pub mod Laws
use usloss.Base.{
  ℕ, ◌+◌, Bool, true, false, Option, none, some, List, [], ◌∷◌, if◌then◌else◌, map, ℤ,
}
use usloss.Psr.{Cpu, psr_magic, globals_init, int_off}
use usloss.Devices.Disk.{Memory, disk_open}
use usloss.Devices.Term.{term_init}
use usloss.Board.{Board, init_board}

-- What `getopt_long` returns, before -1; any other value is passed over.
pub data Opt : Type 0 where
  verbose real_time virtual help unknown : Opt

-- SIGVTALRM and SIGALRM.
pub data AlarmSignal : Type 0 where
  sigvtalrm sigalrm : AlarmSignal

-- `verbosity` and `virtual_time`
pub record Options : Type 0 where
  pub verbosity : ℕ
  pub virtual_time : Bool

abbrev pub default_options : Options
default_options = record { verbosity = 0; virtual_time = false }

-- The loop over the options; with -h the program ends in it.
unfoldable pub parse_options : List Opt → Options → Option Options
parse_options [] o = some o
parse_options (Opt.verbose ∷ opts) o = parse_options opts (record o { verbosity = o.verbosity + 1 })
parse_options (Opt.real_time ∷ opts) o = parse_options opts (record o { virtual_time = false })
parse_options (Opt.virtual ∷ opts) o = parse_options opts (record o { virtual_time = true })
parse_options (Opt.help ∷ opts) o = none
parse_options (Opt.unknown ∷ opts) o = parse_options opts o

-- `SIG_ALARM`
abbrev pub sig_alarm : Options → AlarmSignal
sig_alarm o = if o.virtual_time then AlarmSignal.sigvtalrm else AlarmSignal.sigalrm

-- The registers when the program starts.
abbrev pub first_cpu : Cpu
first_cpu = record { psr = psr_magic; alarm_blocked = false; usr1_blocked = false }

-- `USLOSS_Halt` up to `setcontext`: the registers and `finish_status`.
unfoldable pub halt : ℤ → Cpu → Cpu × ℤ
halt status c = ((int_off c).1, status)

module _ (memory : Memory) where
  open memory use {Mem, Sector}

  -- What the operating system starts with.
  pub record Booted : Type 0 where
    pub alarm : AlarmSignal
    pub cpu : Cpu
    pub board : Board memory

  abbrev pub boot_board :
      Option (ℕ × List Sector)
      → Option (ℕ × List Sector)
      → (ℕ → List (Option ℕ))
      → Mem
      → Board memory
  boot_board disk0 disk1 inputs mem =
      init_board memory (disk_open memory disk0 ∷ disk_open memory disk1 ∷ []) (term_init inputs)
        mem

  abbrev with_options :
      Option (ℕ × List Sector)
      → Option (ℕ × List Sector)
      → (ℕ → List (Option ℕ))
      → Mem
      → Option Options
      → Option Booted
  with_options disk0 disk1 inputs mem none = none
  with_options disk0 disk1 inputs mem (some o) = some (record {
    alarm = sig_alarm o;
    cpu = (int_off (globals_init first_cpu)).1;
    board = boot_board disk0 disk1 inputs mem;
  })

  -- `main` up to `swapcontext`
  unfoldable pub boot :
      List Opt
      → Option (ℕ × List Sector)
      → Option (ℕ × List Sector)
      → (ℕ → List (Option ℕ))
      → Mem
      → Option Booted
  boot opts disk0 disk1 inputs mem =
      with_options disk0 disk1 inputs mem (parse_options opts default_options)

  -- The end of `main`, behind `swapcontext`: the registers in which `finish` runs, with the mask
  -- that `finish_context` has saved, and the status that `exit` gets.
  unfoldable pub finished : Booted → Cpu × ℤ → Cpu × ℤ
  finished s (c, finish_status) = (record (int_off c).1 { psr = s.cpu.psr }, finish_status)
