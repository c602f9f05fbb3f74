-- ===== src/Psr/Bits.antt =====
-- The bit operations of src/globals.c and src/sig_ints.c on the status register, and the arithmetic
-- that stands for them in the model.
use Prim.Native.Nat.{min, bit_and, bit_or, digits, bit_and-bitwise}
use usloss.Base.{
  ℕ, zero, suc, ◌+◌, ◌*◌, ◌/◌, ◌%◌, ◌≤◌, ◌≡◌, refl, ◌∙◌, Bool, true, false, not, ◌||◌, ◌==◌, arith,
  if◌then◌else◌, Result, done, Fault, check, ◌>>◌,
}
use usloss.Psr.{Cpu, PsrStatus, int_off, int_on_if, psr_magic}

-- `&` with a number of binary digits to go that is at least the first number.
abbrev masked : ℕ → ℕ → ℕ → ℕ
masked n a mask = digits (λ b. zero) min n a mask

masked_zero : (n mask : ℕ) → masked n 0 mask ≡ 0
masked_zero zero mask = refl
masked_zero (suc n) mask = refl

-- The lowest digit of the mask decides the lowest digit of the result.
low_digit :
    (n a mask : ℕ)
    → masked (suc n) a mask ≡ masked n (a / 2) (mask / 2) * 2 + min (a % 2) (mask % 2)
low_digit n zero mask = omega (arith, masked_zero n (mask / 2))
low_digit n (suc a) mask = refl

by_0 : (n a : ℕ) → masked n a 0 ≡ 0
by_0 zero a = refl
by_0 (suc n) a = omega (arith, low_digit n a 0, by_0 n (a / 2))

by_1 : (n a : ℕ) → a ≤ n → masked n a 1 ≡ a % 2
by_1 zero a h = omega arith
by_1 (suc n) a h = omega (arith, low_digit n a 1, by_0 n (a / 2))

-- A mask of k ones, and the first number that has more digits.
abbrev ones : ℕ → ℕ
ones zero = 0
ones (suc k) = ones k * 2 + 1

abbrev limit : ℕ → ℕ
limit zero = 1
limit (suc k) = limit k * 2

abbrev not_mask : ℕ
not_mask = 4294967280

-- A test that holds for each number below a bound, by evaluation.
abbrev each_below : (ℕ → Bool) → ℕ → Bool
each_below test zero = true
each_below test (suc n) = if test n then each_below test n else false

-- The functions with the expressions of the source.
abbrev psr_valid_bits : ℕ → Bool
psr_valid_bits w = bit_and w not_mask == psr_magic

abbrev invalid_psr_bits : ℕ → Bool
invalid_psr_bits new = not (bit_and new not_mask == 0) || bit_and new 3 == 0

abbrev int_bit : ℕ → Bool
int_bit w = not (bit_and w 2 == 0)

abbrev entered_bits : ℕ → ℕ
entered_bits w = bit_or (bit_or psr_magic (bit_and w 3 * 4)) 1

unfoldable pub psr_get_bits : Cpu → Result (ℕ × Cpu)
psr_get_bits c = do
  let (enabled, c') = int_off c
  check (psr_valid_bits c'.psr) Fault.internal_error
  done (bit_and c'.psr 15, int_on_if enabled c')

unfoldable pub psr_set_bits : ℕ → Cpu → Result (PsrStatus × Cpu)
psr_set_bits new c =
    let c' = (int_off c).1 in
    let c'' = record c' { psr = bit_or psr_magic new } in
    check (psr_valid_bits c'.psr) Fault.internal_error
    >> (if invalid_psr_bits new
        then done (PsrStatus.invalid_psr, c')
        else done (PsrStatus.ok, int_on_if (int_bit c''.psr) c''))

unfoldable pub enter_handler_bits : Cpu → Result Cpu
enter_handler_bits c = do
  check (psr_valid_bits c.psr) Fault.internal_error
  done (record { psr = entered_bits c.psr; alarm_blocked = true; usr1_blocked = true })

and_1 : (w : ℕ) → bit_and w 1 ≡ w % 2
and_1 w = bit_and-bitwise w 1 ∙ by_1 w w (omega arith)

-- The end of `USLOSS_PsrSet`, for a test and a register to store.
abbrev stored : Bool → ℕ → Bool → Cpu → Result (PsrStatus × Cpu)
stored refused psr on c' =
    if refused
    then done (PsrStatus.invalid_psr, c')
    else done (PsrStatus.ok, int_on_if on (record c' { psr = psr }))
