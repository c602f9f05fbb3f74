-- ===== src/System/Registers.antt =====
-- The register and the MMU through the functions of src/globals.c and src/sig_ints.c that check the
-- mode, enter and leave a handler, and switch contexts, wherever they return.
use mathlib.Core.Path.{subst}
use usloss.Base.{
  ℕ, ◌≡◌, refl, sym, ◌∙◌, ap, Bool, true, false, not, none, some, inl, inr, Bool-cases, ℤ, done,
  done_inj, done_fst, done_snd, Result-cases, done≢fault, none≢some,
}
use usloss.Psr.{
  Cpu, is_valid, kernel_mode, int_off, int_on, int_on_if, psr_get, enter_handler, leave_handler,
}
use usloss.Traps.{check_kernel_mode, illegal_instruction, raise_trap, trap}
use usloss.Traps.Served.{entered}
use usloss.Mmu.Types.{Vm}
use usloss.Mmu.Pages.{Mmu}
use usloss.Mmu.Switch.{Pte}
use usloss.Mmu.Config.{MmuPtr}
use usloss.Mmu.Sound.{Sound}
use usloss.Mmu.Life.{Fine}
use usloss.Contexts.{
  Context, Target, fresh, parked, resumed, too_small, context_init, context_switch, switch_table,
}
use usloss.Contexts.Laws.{Tabled, switch_table-Tabled}

pub int_on_if-psr : (on : Bool) (c : Cpu) → (int_on_if on c).psr ≡ c.psr
unfolding int_on
int_on_if-psr true c = refl
int_on_if-psr false c = refl

pub psr_get-psr : (c c' : Cpu) (bits : ℕ) → psr_get c ≡ done (bits, c') → c'.psr ≡ c.psr
unfolding psr_get int_off
psr_get-psr c c' bits e = elim (Bool-cases (is_valid c.psr)) [
  | inl v ↦
      ap (λ (x : Cpu). x.psr) (sym (done_snd (rw v at e)))
      ∙ int_on_if-psr (not c.alarm_blocked) (record c { alarm_blocked = true; usr1_blocked = true })
  | inr v ↦ done≢fault (sym (rw v at e))
]

pub enter_handler-entered : (c k : Cpu) → enter_handler c ≡ done k → k ≡ entered c
unfolding enter_handler
enter_handler-entered c k e = elim (Bool-cases (is_valid c.psr)) [
  | inl v ↦ sym (done_inj (rw v at e))
  | inr v ↦ done≢fault (sym (rw v at e))
]

pub leave_handler-old : (old c c' : Cpu) → leave_handler old c ≡ done c' → c' ≡ old
unfolding leave_handler
leave_handler-old old c c' e = elim (Bool-cases (is_valid c.psr)) [
  | inl v ↦ sym (done_inj (rw v at e))
  | inr v ↦ done≢fault (sym (rw v at e))
]

illegal_unhandled {κ} :
    {C : Type κ} (Os : Type 0) (c : Cpu) (os : Os) (r : Cpu × Os)
    → illegal_instruction Os none c os ≡ done r
    → C
unfolding illegal_instruction raise_trap trap enter_handler
illegal_unhandled Os c os r e = elim (Bool-cases (kernel_mode c.psr)) [
  | inl k ↦ done≢fault (sym (rw k at e))
  | inr u ↦ elim (Bool-cases c.usr1_blocked) [
    | inl b ↦ done≢fault (sym (rw (u, b) at e))
    | inr b ↦ elim (Bool-cases (is_valid c.psr)) [
      | inl v ↦ done≢fault (sym (rw (u, b, v) at e))
      | inr v ↦ done≢fault (sym (rw (u, b, v) at e))
    ]
  ]
]

pub check_kernel_mode-psr :
    (Os : Type 0) (c c' : Cpu) (os os' : Os)
    → check_kernel_mode Os none c os ≡ done (c', os')
    → c'.psr ≡ c.psr
unfolding check_kernel_mode
check_kernel_mode-psr Os c c' os os' e = elim (Result-cases (psr_get c)) [
  | inr (f, got) ↦ done≢fault (sym (rw got at e))
  | inl ((bits, c1), got) ↦ elim (Bool-cases (kernel_mode bits)) [
    | inl k ↦
        ap (λ (x : Cpu). x.psr) (sym (done_fst (rw (got, k) at e))) ∙ psr_get-psr c c1 bits got
    | inr u ↦ illegal_unhandled Os c1 os (c', os') (rw (got, u) at e)
  ]
]

pub resumed-psr : (t : Target) (c : Cpu) → (resumed t c).psr ≡ c.psr
unfolding resumed int_off
resumed-psr fresh c = refl
resumed-psr (parked on) c = int_on_if-psr on _

pub context_init-psr :
    (Os : Type 0) (stack_size : ℤ) (page_table pc : ℕ) (c c' : Cpu) (os os' : Os) (new : Context)
    → context_init Os none stack_size page_table pc c os ≡ done (new, c', os')
    → c'.psr ≡ c.psr
unfolding context_init int_off
context_init-psr Os stack_size page_table pc c c' os os' new e =
    elim (Result-cases (check_kernel_mode Os none (int_off c).1 os)) [
      | inr (f, checked) ↦ done≢fault (sym (rw checked at e))
      | inl ((c1, os1), checked) ↦ elim (Bool-cases (not (too_small stack_size))) [
        | inr small ↦ done≢fault (sym (rw (checked, small) at e))
        | inl large ↦
            ap (λ (x : Context × Cpu × Os). x.1.psr) (sym (done_inj (rw (checked, large) at e)))
            ∙ int_on_if-psr (int_off c).0 c1
            ∙ check_kernel_mode-psr Os (int_off c).1 c1 os os1 checked
      ]
    ]

module _ (vm : Vm) where
  Fine-Sound : (p : MmuPtr vm) → Fine vm p → (m : Mmu vm) → p ≡ some m → Sound vm m
  Fine-Sound none f m e = none≢some e
  Fine-Sound (some m') f m e = subst (Fine vm) e f

  switch_table-Fine :
      (tables : ℕ → ℕ → Pte) (new : Context) (p p' : MmuPtr vm)
      → Fine vm p
      → switch_table vm tables new p ≡ done p'
      → Fine vm p'
  switch_table-Fine tables new p p' f e =
      elim (switch_table-Tabled vm tables new p (Fine-Sound p f)) [
        | Tabled.off _ r ↦ subst (Fine vm) (done_inj (sym r ∙ e)) tt
        | Tabled.by_tag m q _ r ↦ subst (Fine vm) (done_inj (sym r ∙ e)) (Fine-Sound p f m q)
        | Tabled.installed m m' _ _ r s _ ↦ subst (Fine vm) (done_inj (sym r ∙ e)) s
        | Tabled.trapped _ _ _ _ _ _ _ _ r ↦ done≢fault (sym e ∙ r)
      ]

  pub context_switch-kept :
      (Os : Type 0) (tables : ℕ → ℕ → Pte) (new : Context) (p p' : MmuPtr vm) (c c' : Cpu)
      (os os' : Os) (enabled : Bool)
      → Fine vm p
      → context_switch vm Os none tables (some new) p c os ≡ done (enabled, p', c', os')
      → Fine vm p' × (c'.psr ≡ c.psr)
  unfolding context_switch int_off
  context_switch-kept Os tables new p p' c c' os os' enabled f e =
      elim (Result-cases (check_kernel_mode Os none (int_off c).1 os)) [
        | inr (w, checked) ↦ done≢fault (sym (rw checked at e))
        | inl ((c1, os1), checked) ↦ elim (Result-cases (switch_table vm tables new p)) [
          | inr (w, table) ↦ done≢fault (sym (rw (checked, table) at e))
          | inl (p1, table) ↦
              let same = done_inj (rw (checked, table) at e) in
              (
                subst (Fine vm) (ap (λ x. x.1) same) (switch_table-Fine tables new p p1 f table),
                ap (λ (x : Bool × MmuPtr vm × Cpu × Os). x.2.psr) (sym same)
                    ∙ check_kernel_mode-psr Os (int_off c).1 c1 os os1 checked,
              )
        ]
      ]
