-- ===== src/Contexts/Resume.antt =====
-- The status register and the signal mask after `USLOSS_ContextSwitch` of src/sig_ints.c, in the
-- context that runs then.
use usloss.Base.{
  ℕ, ◌≡◌, ◌↔◌, refl, sym, ◌∙◌, ap, Bool, true, false, not, Option, none, some, done, >>=-done,
  done_inj,
}
use usloss.Psr.{Cpu, kernel_mode, int_enabled, int_off, int_on}
use usloss.Psr.Laws.{Agrees}
use usloss.Traps.{IllegalHandler}
use usloss.Mmu.Types.{Vm}
use usloss.Mmu.Pages.{Mmu}
use usloss.Mmu.Switch.{Pte}
use usloss.Mmu.Config.{MmuPtr}
use usloss.Mmu.Sound.{Sound}
use usloss.Contexts.{Context, Target, fresh, parked, resumed, launcher, context_switch}
use usloss.Contexts.Laws.{blocked, context_switch-Tabled}

-- Whether interrupts are enabled for a context when it runs again.
abbrev pub wakes_enabled : Target → Bool
wakes_enabled fresh = false
wakes_enabled (parked enabled) = enabled

mask : Bool → Cpu → Cpu
mask on c = record c { alarm_blocked = not on; usr1_blocked = not on }

resumed-mask : (t : Target) (c : Cpu) → resumed t (blocked c) ≡ mask (wakes_enabled t) c
unfolding resumed mask int_off int_on
resumed-mask fresh c = refl
resumed-mask (parked true) c = refl
resumed-mask (parked false) c = refl

not_inj : (a b : Bool) → not a ≡ not b → a ≡ b
not_inj true true e = refl
not_inj true false e = sym e
not_inj false true e = sym e
not_inj false false e = refl

not-not : (a : Bool) → not (not a) ≡ a
not-not true = refl
not-not false = refl

mask-Agrees : (on : Bool) (c : Cpu) → Agrees c → Agrees (mask on c) ↔ (on ≡ int_enabled c.psr)
unfolding mask
mask-Agrees on c a = (
  λ b. not_inj on (int_enabled c.psr) b.alarm,
  λ e. record { valid = a.valid; alarm = ap not e; usr1 = ap not e },
)

-- `USLOSS_ContextSwitch` does not save the status register: called in kernel mode with a register
-- that agrees with the signal mask, it leaves the register of the old context to the one that runs
-- then, and there register and mask agree exactly if the context was left, or starts, with
-- interrupts as they are in the old one. A new context starts with the signals blocked, in its own
-- function.
pub context_switch-Agrees :
    (vm : Vm) (Os : Type 0) (h : Option (IllegalHandler Os)) (tables : ℕ → ℕ → Pte) (new : Context)
    (p p' : MmuPtr vm) (c c' : Cpu) (os os' : Os) (enabled : Bool) (t : Target)
    → Agrees c
    → kernel_mode c.psr ≡ true
    → ((m : Mmu vm) → p ≡ some m → Sound vm m)
    → context_switch vm Os h tables (some new) p c os ≡ done (enabled, p', c', os')
    → (Agrees (resumed t c') ↔ (wakes_enabled t ≡ int_enabled c.psr))
      × ((resumed t c').psr ≡ c.psr)
      × (enabled ≡ int_enabled c.psr)
      × (launcher (some new) ≡ done (new.start, none))
unfolding mask launcher
context_switch-Agrees vm Os h tables new p p' c c' os os' enabled t a kernel s e =
    let (out, _, run, _) = context_switch-Tabled vm Os h tables new p c os a kernel s in
    let (q, _, end) =
      >>=-done out (λ p'. done (not c.alarm_blocked, p', blocked c, os)) (sym run ∙ e) in
    let same = done_inj end in
    let target : blocked c ≡ c' = ap (λ x. x.2) same in
    let was : not c.alarm_blocked ≡ enabled = ap (λ x. x.0) same in
    rw (← target, resumed-mask t c)
      (
        mask-Agrees (wakes_enabled t) c a,
        refl,
        sym was ∙ ap not a.alarm ∙ not-not (int_enabled c.psr),
        refl,
      )
