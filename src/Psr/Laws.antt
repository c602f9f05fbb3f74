-- ===== src/Psr/Laws.antt =====
-- What `USLOSS_PsrGet`, `USLOSS_PsrSet` and the entry of the signal handler in src/globals.c and
-- src/sig_ints.c do to the register and the mask.
use usloss.Base.{
  ℕ, ◌+◌, ◌*◌, ◌/◌, ◌%◌, ◌≡◌, ◌≤◌, refl, sym, ◌∙◌, Bool, true, false, not, arith, Result, done,
  Bool-cases, inl, inr,
}
use mathlib.Core.Path.{subst, ap₂}
use usloss.Psr.{
  Cpu, psr_magic, psr_fields, kernel_mode, int_enabled, is_valid, PsrStatus, is_refused, int_off,
  int_on, psr_get, psr_set, enter_handler, leave_handler,
}

-- The register and the mask agree: the register is valid, and both signals are blocked exactly if
-- its interrupt bit is 0.
pub record Agrees (c : Cpu) : Type 0 where
  pub valid : is_valid c.psr ≡ true
  pub alarm : c.alarm_blocked ≡ not (int_enabled c.psr)
  pub usr1 : c.usr1_blocked ≡ not (int_enabled c.psr)

abbrev cpu : ℕ → Bool → Cpu
cpu w blocked = record { psr = w; alarm_blocked = blocked; usr1_blocked = blocked }

psr_get-cpu :
    (w : ℕ) (blocked : Bool)
    → is_valid w ≡ true
    → psr_get (cpu w blocked) ≡ done (psr_fields w, cpu w blocked)
unfolding psr_get int_off int_on
psr_get-cpu w true v = rw v
psr_get-cpu w false v = rw v

-- `USLOSS_PsrGet` returns the four bits of the register and leaves the register and the mask as
-- they were, if they agree.
pub psr_get-same : (c : Cpu) → Agrees c → psr_get c ≡ done (psr_fields c.psr, c)
psr_get-same c a =
    let e : cpu c.psr (not (int_enabled c.psr)) ≡ c =
      ap₂ (λ x y. record { psr = c.psr; alarm_blocked = x; usr1_blocked = y }) (sym a.alarm)
        (sym a.usr1) in
    subst (λ x. psr_get x ≡ done (psr_fields c.psr, x)) e
      (psr_get-cpu c.psr (not (int_enabled c.psr)) a.valid)

new_valid : (new : ℕ) → new ≤ 15 → is_valid (psr_magic + new) ≡ true
new_valid new h = ground arith

-- How `USLOSS_PsrSet` ends.
pub data PsrEnd (new : ℕ) (c : Cpu) (out : Result (PsrStatus × Cpu)) : Type 0 where
  refused :
      is_refused new ≡ true
      → out ≡ done (PsrStatus.invalid_psr, record c { alarm_blocked = true; usr1_blocked = true })
      → PsrEnd new c out
  accepted :
      (c' : Cpu)
      → new ≤ 15
      → out ≡ done (PsrStatus.ok, c')
      → Agrees c'
      → psr_get c' ≡ done (new, c')
      → PsrEnd new c out

-- `USLOSS_PsrSet` with a valid register either refuses a value above 15, or one for user mode with
-- interrupts off, with the register as it was and both signals blocked; or it puts the new bits in
-- the register with the mask in agreement, and `USLOSS_PsrGet` answers them.
pub psr_set-PsrEnd : (new : ℕ) (c : Cpu) → is_valid c.psr ≡ true → PsrEnd new c (psr_set new c)
unfolding psr_set int_off int_on
psr_set-PsrEnd new c v = elim (Bool-cases (is_refused new)) [
  | inl e ↦ refused e (rw (v, e))
  | inr e ↦
      let small : new ≤ 15 = ground arith in
      let same : psr_fields (psr_magic + new) ≡ new = omega arith in
      elim (Bool-cases (int_enabled (psr_magic + new))) [
        | inl on ↦
            accepted (cpu (psr_magic + new) false) small (rw (v, e, on))
              (record { valid = new_valid new small; alarm = rw on; usr1 = rw on })
              (psr_get-cpu (psr_magic + new) false (new_valid new small) ∙ rw same)
        | inr off ↦
            accepted (cpu (psr_magic + new) true) small (rw (v, e, off))
              (record { valid = new_valid new small; alarm = rw off; usr1 = rw off })
              (psr_get-cpu (psr_magic + new) true (new_valid new small) ∙ rw same)
      ]
]

pub psr_set-desyncs :
    (new : ℕ) (c : Cpu)
    → Agrees c
    → int_enabled c.psr ≡ true
    → is_refused new ≡ true
    → (c' : Cpu) × (psr_set new c ≡ done (PsrStatus.invalid_psr, c'))
      × (int_enabled c'.psr ≡ true)
      × (c'.alarm_blocked ≡ true)
      × (c'.usr1_blocked ≡ true)
unfolding psr_set int_off
psr_set-desyncs new c a on e = (_, rw (a.valid, e) refl, on, refl, refl)

-- The signal handler starts in kernel mode with interrupts off and both signals blocked, a state in
-- which register and mask agree, with the mode and the interrupt bit of before in the previous
-- bits; `leave_handler` from any state with a valid register brings back what was before.
enter_handler-kernel :
    (c c' : Cpu)
    → is_valid c.psr ≡ true
    → is_valid c'.psr ≡ true
    → (k : Cpu) × (enter_handler c ≡ done k)
      × Agrees k
      × (kernel_mode k.psr ≡ true)
      × (int_enabled k.psr ≡ false)
      × (psr_fields k.psr / 4 ≡ c.psr % 4)
      × (leave_handler c c' ≡ done c)
unfolding enter_handler leave_handler
enter_handler-kernel c c' v v' =
    let off : int_enabled (psr_magic + c.psr % 4 * 4 + 1) ≡ false = ground arith in
    (
      cpu (psr_magic + c.psr % 4 * 4 + 1) true,
      rw v,
      record { valid = ground arith; alarm = rw off; usr1 = rw off },
      ground arith,
      off,
      omega arith,
      rw v',
    )
