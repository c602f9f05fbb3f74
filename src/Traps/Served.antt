-- ===== src/Traps/Served.antt =====
-- A system call made through libuser/libuser.c, from the user's function to the kernel and back.
use usloss.Base.{ℕ, ◌+◌, ◌*◌, ◌%◌, ◌≡◌, ap, true, arith, ◌==◌}
use usloss.Psr.{Cpu, psr_magic, kernel_mode, psr_fields}

-- The registers in which the handler of a trap starts.
abbrev pub entered : Cpu → Cpu
entered c = record {
  psr = psr_magic + c.psr % 4 * 4 + 1;
  alarm_blocked = true;
  usr1_blocked = true;
}

pub low_bit : (w : ℕ) → kernel_mode (psr_fields w) ≡ kernel_mode w
low_bit w = ap (λ x. x == 1) (omega arith)
