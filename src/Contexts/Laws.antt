-- ===== src/Contexts/Laws.antt =====
-- What `USLOSS_ContextSwitch` of src/sig_ints.c does to the MMU.
use usloss.Base.{
  bool_clash, ℕ, ◌<◌, ◌≡◌, ◌≢◌, refl, sym, ◌∙◌, ap, Bool, true, false, not, ◌&&◌, ◌||◌, Option,
  none, some, ◌==◌, if◌then◌else◌, Result, done, fault, Fault, ◌>>=◌, arith, if_ind,
}
use usloss.Psr.{Cpu, kernel_mode, is_valid, int_off, psr_get, psr_fields, int_on}
use usloss.Psr.Laws.{Agrees}
use usloss.Traps.{IllegalHandler, check_kernel_mode}
use usloss.Mmu.Types.{Status, Mode, tlb, pagetable, Vm}
use usloss.Mmu.Pages.{Mmu}
use usloss.Mmu.Switch.{Pte, set_page_table}
use usloss.Mmu.Config.{MmuPtr, when_mode, same_mode}
use usloss.Mmu.Query.{mmu_get_mode}
use usloss.Mmu.Api.{usloss_mmu_set_page_table}
use usloss.Mmu.Sound.{Sound}
use usloss.Mmu.Clearing.{answer, nothing}
use usloss.Mmu.Table.{expected, TableEnd, set_page_table-TableEnd}
use usloss.Contexts.{
  Context, switch_table, context_switch, is_ok, is_off, is_pagetable, switched_back,
}

-- The registers with the signals blocked.
abbrev pub blocked : Cpu → Cpu
blocked c = record c { alarm_blocked = true; usr1_blocked = true }

checked :
    (Os : Type 0) (h : Option (IllegalHandler Os)) (c : Cpu) (os : Os)
    → is_valid c.psr ≡ true
    → kernel_mode c.psr ≡ true
    → check_kernel_mode Os h (blocked c) os ≡ done (blocked c, os)
unfolding check_kernel_mode psr_get int_off
checked Os h c os v kernel =
    let low : kernel_mode (psr_fields c.psr) ≡ true = ground arith in rw (v, low) refl

abbrev registers : ℕ → Bool → Bool → Cpu
registers psr x y = record { psr = psr; alarm_blocked = x; usr1_blocked = y }

restored :
    (psr : ℕ) (x y : Bool)
    → y ≡ x
    → switched_back (not x) (registers psr true true) ≡ registers psr x y
unfolding int_on
restored psr true y e = ap (registers psr true) (sym e)
restored psr false y e = ap (registers psr false) (sym e)

switched_back-blocked : (c : Cpu) → Agrees c → switched_back (not c.alarm_blocked) (blocked c) ≡ c
switched_back-blocked c a = restored c.psr c.alarm_blocked c.usr1_blocked (a.usr1 ∙ sym a.alarm)

module _ (vm : Vm) where
  -- How the part of the switch ends that installs the page table.
  pub data Tabled (tables : ℕ → ℕ → Pte) (new : Context) (p : MmuPtr vm) (out : Result (MmuPtr vm))
      : Type 0 where
    off : p ≡ none → out ≡ done none → Tabled tables new p out
    by_tag :
        (m : Mmu vm) → p ≡ some m → m.mode ≡ tlb → out ≡ done (some m) → Tabled tables new p out
    installed :
        (m m' : Mmu vm)
        → p ≡ some m
        → m.mode ≡ pagetable
        → out ≡ done (some m')
        → Sound vm m'
        → ((j : ℕ)
            → j < m.num_pages
            → answer vm m' j
              ≡ (if new.page_table == 0 then nothing else expected (tables new.page_table j)))
        → Tabled tables new p out
    trapped :
        (m m' : Mmu vm) (s : Status)
        → p ≡ some m
        → m.mode ≡ pagetable
        → new.page_table ≢ 0
        → s ≢ Status.ok
        → set_page_table vm m new.page_table (tables new.page_table) ≡ done (s, m')
        → out ≡ fault Fault.sim_trap
        → Tabled tables new p out

  -- The test for a status that is not USLOSS_MMU_OK, of a table that is not NULL.
  not_accepted :
      (s : Status) (null : Bool)
      → s ≢ Status.ok
      → null ≡ false
      → (not (is_ok s) && (not (is_off s) || not null)) ≡ true
  not_accepted Status.ok null ne e = absurd (ne refl)
  not_accepted Status.err_off null ne e = ap not e
  not_accepted Status.err_on null ne e = refl
  not_accepted Status.err_page null ne e = refl
  not_accepted Status.err_frame null ne e = refl
  not_accepted Status.err_prot null ne e = refl
  not_accepted Status.err_tag null ne e = refl
  not_accepted Status.err_remap null ne e = refl
  not_accepted Status.err_nomap null ne e = refl
  not_accepted Status.err_acc null ne e = refl
  not_accepted Status.err_maps null ne e = refl
  not_accepted Status.err_mode null ne e = refl
  not_accepted Status.err_null null ne e = refl

  abbrev accept : Bool → Status × MmuPtr vm → Result (MmuPtr vm)
  accept null s =
      if not (is_ok s.0) && (not (is_off s.0) || not null) then fault Fault.sim_trap else done s.1

  in_mode :
      (new : Context) (m : Mmu vm) (table : ℕ → Pte)
      → m.mode ≡ pagetable
      → usloss_mmu_set_page_table vm (some m) new.page_table table
        ≡ (set_page_table vm m new.page_table table >>= λ r. done (r.0, some r.1))
  unfolding usloss_mmu_set_page_table when_mode
  in_mode new m table e =
      if_ind (λ x. x ≡ (set_page_table vm m new.page_table table >>= λ r. done (r.0, some r.1)))
        (same_mode vm m.mode pagetable) (λ _. refl)
        (λ h. let clash : true ≡ false = rw e at h in bool_clash refl clash)

  set_table-Tabled :
      (tables : ℕ → ℕ → Pte) (new : Context) (m : Mmu vm)
      → Sound vm m
      → m.mode ≡ pagetable
      → Tabled tables new (some m) (
          usloss_mmu_set_page_table vm (some m) new.page_table (tables new.page_table)
          >>= accept (new.page_table == 0))
  set_table-Tabled tables new m s e =
      elim (set_page_table-TableEnd vm (tables new.page_table) m new.page_table s) [
        | TableEnd.installed m' r s' all ↦
            installed m m' refl e (rw (in_mode new m (tables new.page_table) e, r) refl) s' all
        | TableEnd.stopped st m' ne some_table r s' ↦
            trapped m m' st refl e (λ z. ground arith) ne r
              (rw
                (
                  in_mode new m (tables new.page_table) e,
                  r,
                  not_accepted st (new.page_table == 0) ne some_table,
                )
                refl)
      ]

  by_mode :
      (tables : ℕ → ℕ → Pte) (new : Context) (m : Mmu vm) (mode : Mode)
      → Sound vm m
      → m.mode ≡ mode
      → Tabled tables new (some m) (switch_table vm tables new (some m))
  unfolding switch_table mmu_get_mode
  by_mode tables new m tlb s e = by_tag m refl e (rw e refl)
  by_mode tables new m pagetable s e =
      if_ind (Tabled tables new (some m)) (is_pagetable (some m.mode))
        (λ _. set_table-Tabled tables new m s e)
        (λ h. let clash : true ≡ false = rw e at h in bool_clash refl clash)

  pub switch_table-Tabled :
      (tables : ℕ → ℕ → Pte) (new : Context) (p : MmuPtr vm)
      → ((m : Mmu vm) → p ≡ some m → Sound vm m)
      → Tabled tables new p (switch_table vm tables new p)
  unfolding switch_table mmu_get_mode
  switch_table-Tabled tables new none s = off refl refl
  switch_table-Tabled tables new (some m) s = by_mode tables new m m.mode (s m refl) refl

  -- `USLOSS_ContextSwitch`, called in kernel mode with registers that agree with the signal mask
  -- and an MMU that is off or in a sound state, makes the region of a paged MMU show what the page
  -- table of the new context says, or nothing for NULL; an MMU that is off or in TLB mode stays as
  -- it is; and the simulator traps exactly if the table is refused. It switches with the signals
  -- blocked, and the registers are as they were when the old context runs again.
  pub context_switch-Tabled :
      (Os : Type 0) (h : Option (IllegalHandler Os)) (tables : ℕ → ℕ → Pte) (new : Context)
      (p : MmuPtr vm) (c : Cpu) (os : Os)
      → Agrees c
      → kernel_mode c.psr ≡ true
      → ((m : Mmu vm) → p ≡ some m → Sound vm m)
      → (out : Result (MmuPtr vm)) × Tabled tables new p out
        × (context_switch vm Os h tables (some new) p c os
            ≡ (out >>= λ p'. done (not c.alarm_blocked, p', blocked c, os)))
        × (switched_back (not c.alarm_blocked) (blocked c) ≡ c)
  unfolding context_switch int_off
  context_switch-Tabled Os h tables new p c os a kernel s = (
    switch_table vm tables new p,
    switch_table-Tabled tables new p s,
    rw (checked Os h c os a.valid kernel) refl,
    switched_back-blocked c a,
  )
