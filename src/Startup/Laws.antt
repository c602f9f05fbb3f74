-- ===== src/Startup/Laws.antt =====
-- What the operating system finds when `main` of src/main.c starts it.
use usloss.Base.{ℕ, ◌≡◌, refl, Bool, true, false, Option, some, List, [], ◌∷◌, if◌then◌else◌, ℤ}
use usloss.Psr.{kernel_mode, int_enabled, Cpu, globals_init, int_off}
use usloss.Psr.Laws.{Agrees}
use usloss.Devices.Disk.{Memory}
use usloss.Devices.Term.{term_init}
use usloss.Board.Runs.{Reach}
use usloss.Startup.{
  Opt, AlarmSignal, Options, default_options, parse_options, sig_alarm, first_cpu, Booted, boot,
  boot_board, halt, finished,
}

-- Whether an option asks for the help, and the mode of the last option that chooses one.
abbrev pub wants_help : List Opt → Bool
wants_help [] = false
wants_help (Opt.help ∷ opts) = true
wants_help (_ ∷ opts) = wants_help opts

abbrev pub last_mode : List Opt → Bool → Bool
last_mode [] mode = mode
last_mode (Opt.virtual ∷ opts) mode = last_mode opts true
last_mode (Opt.real_time ∷ opts) mode = last_mode opts false
last_mode (_ ∷ opts) mode = last_mode opts mode

parse_options-mode :
    (opts : List Opt) (o : Options)
    → wants_help opts ≡ false
    → (o' : Options) × (parse_options opts o ≡ some o')
      × (o'.virtual_time ≡ last_mode opts o.virtual_time)
unfolding parse_options
parse_options-mode [] o h = (o, refl, refl)
parse_options-mode (Opt.verbose ∷ opts) o h = parse_options-mode opts _ h
parse_options-mode (Opt.real_time ∷ opts) o h = parse_options-mode opts _ h
parse_options-mode (Opt.virtual ∷ opts) o h = parse_options-mode opts _ h
parse_options-mode (Opt.help ∷ opts) o h = absurd (cc)
parse_options-mode (Opt.unknown ∷ opts) o h = parse_options-mode opts _ h

module _ (memory : Memory) where
  open memory use {Mem, Sector}

  -- Without -h the simulator starts the operating system, in kernel mode with interrupts off, with
  -- registers that agree with the signal mask, on the first of the reachable boards, and with the
  -- alarm of the mode that the last option chose, real time if none did. `USLOSS_Halt`, called with
  -- any registers, ends with the registers that the operating system has started with and with the
  -- status that it is given.
  pub boot-starts :
      (opts : List Opt) (disk0 disk1 : Option (ℕ × List Sector)) (inputs : ℕ → List (Option ℕ))
      (mem : Mem)
      → wants_help opts ≡ false
      → (s : Booted memory) × (boot memory opts disk0 disk1 inputs mem ≡ some s)
        × Agrees s.cpu
        × (kernel_mode s.cpu.psr ≡ true)
        × (int_enabled s.cpu.psr ≡ false)
        × Reach memory disk0 disk1 (term_init inputs) mem s.board
        × (s.alarm ≡ (if last_mode opts false then AlarmSignal.sigvtalrm else AlarmSignal.sigalrm))
        × ((c : Cpu) (status : ℤ) → finished memory s (halt status c) ≡ (s.cpu, status))
  unfolding boot globals_init int_off halt finished
  boot-starts opts disk0 disk1 inputs mem h =
      let (o, e, mode) = parse_options-mode opts default_options h in
      (
        record {
          alarm = sig_alarm o;
          cpu = (int_off (globals_init first_cpu)).1;
          board = boot_board memory disk0 disk1 inputs mem;
        },
        rw e refl,
        record { valid = refl; alarm = refl; usr1 = refl },
        refl,
        refl,
        Reach.start,
        rw mode refl,
        λ c status. refl,
      )
