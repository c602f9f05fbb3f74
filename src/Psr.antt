-- ===== src/Psr.antt =====
-- The processor status register and the interrupt mask: src/globals.c, and `int_off` and `int_on`
-- of src/sig_ints.c.
pub mod Laws
pub mod Bits
use usloss.Base.{
  ℕ, ◌+◌, ◌*◌, ◌/◌, ◌%◌, Bool, true, false, not, ◌&&◌, ◌||◌, ltb, ◌==◌, if◌then◌else◌, Result, done,
  Fault, check, ◌>>=◌, ◌>>◌,
}

-- USLOSS_PSR_MAGIC, 0x45200. The four bits of USLOSS_PSR_MASK are 0 in it, so that for a word w,
-- `w & ~USLOSS_PSR_MASK` is the magic number exactly if `w / 16` is `psr_magic / 16`.
abbrev pub psr_magic : ℕ
psr_magic = 283136

-- `current_psr`, and which of the two signals of `timer_set` are blocked.
pub record Cpu : Type 0 where
  pub psr : ℕ
  pub alarm_blocked : Bool
  pub usr1_blocked : Bool

-- The bits of `current_psr`: `& USLOSS_PSR_MASK`, `& USLOSS_PSR_CURRENT_MODE` and
-- `& USLOSS_PSR_CURRENT_INT`.
abbrev pub psr_fields : ℕ → ℕ
psr_fields w = w % 16

abbrev pub kernel_mode : ℕ → Bool
kernel_mode w = w % 2 == 1

abbrev pub int_enabled : ℕ → Bool
int_enabled w = w / 2 % 2 == 1

-- The condition of `psr_valid`.
abbrev pub is_valid : ℕ → Bool
is_valid w = w / 16 == 17696

-- `current_psr` and `globals_init`: kernel mode, interrupts off.
unfoldable pub globals_init : Cpu → Cpu
globals_init c = record c { psr = if kernel_mode c.psr then c.psr else c.psr + 1 }

-- `int_off`: whether SIG_ALARM was not blocked before.
unfoldable pub int_off : Cpu → Bool × Cpu
int_off c = (not c.alarm_blocked, record c { alarm_blocked = true; usr1_blocked = true })

-- `int_on`
unfoldable pub int_on : Cpu → Cpu
int_on c = record c { alarm_blocked = false; usr1_blocked = false }

abbrev pub int_on_if : Bool → Cpu → Cpu
int_on_if enabled c = if enabled then int_on c else c

-- `USLOSS_PsrGet`; `check_interrupts` does nothing.
unfoldable pub psr_get : Cpu → Result (ℕ × Cpu)
psr_get c = do
  let (enabled, c') = int_off c
  check (is_valid c'.psr) Fault.internal_error
  done (psr_fields c'.psr, int_on_if enabled c')

-- USLOSS_ERR_OK and USLOSS_ERR_INVALID_PSR.
pub data PsrStatus : Type 0 where
  ok invalid_psr : PsrStatus

-- `new & ~USLOSS_PSR_MASK`, or `(new & USLOSS_PSR_CURRENT_MASK) == 0`.
abbrev pub is_refused : ℕ → Bool
is_refused new = ltb 15 new || new % 4 == 0

-- `USLOSS_PsrSet`, after `check_kernel_mode`.
unfoldable pub psr_set : ℕ → Cpu → Result (PsrStatus × Cpu)
psr_set new c =
    let c' = (int_off c).1 in
    let c'' = record c' { psr = psr_magic + new } in
    check (is_valid c'.psr) Fault.internal_error
    >> (if is_refused new
        then done (PsrStatus.invalid_psr, c')
        else done (PsrStatus.ok, int_on_if (int_enabled c''.psr) c''))

-- The first lines of `sighandler`: the signal mask of the handler blocks both signals, the current
-- bits move to the previous ones, and the mode is kernel mode with interrupts off.
unfoldable pub enter_handler : Cpu → Result Cpu
enter_handler c = do
  check (is_valid c.psr) Fault.internal_error
  done (record { psr = psr_magic + c.psr % 4 * 4 + 1; alarm_blocked = true; usr1_blocked = true })

-- The last lines of `sighandler`, and the return from it: the register and the signal mask of `old`
-- are put back.
unfoldable pub leave_handler : Cpu → Cpu → Result Cpu
leave_handler old c = do check (is_valid c.psr) Fault.internal_error; done old
