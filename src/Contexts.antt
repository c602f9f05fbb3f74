-- ===== src/Contexts.antt =====
-- The contexts of src/sig_ints.c: `USLOSS_ContextInit`, and `USLOSS_ContextSwitch` up to the
-- exchange of the registers, which is a call of the host.
pub mod Laws
pub mod Resume
use usloss.Base.{
  ℕ, Bool, true, false, not, ◌&&◌, ◌||◌, Option, none, some, ltb, ◌==◌, if◌then◌else◌, ℤ, pos,
  negsuc, Result, done, fault, Fault, ◌>>=◌, check, ◌>>◌,
}
use usloss.Psr.{Cpu, int_off, int_on_if}
use usloss.Traps.{IllegalHandler, check_kernel_mode}
use usloss.Mmu.Types.{Status, Mode, tlb, pagetable, Vm}
use usloss.Mmu.Switch.{Pte}
use usloss.Mmu.Config.{MmuPtr}
use usloss.Mmu.Query.{mmu_get_mode}
use usloss.Mmu.Api.{usloss_mmu_set_page_table}

-- `USLOSS_Context`, without the registers: the function that it starts and the page table.
pub record Context : Type 0 where
  pub start : ℕ
  pub page_table : ℕ

-- USLOSS_MIN_STACK
abbrev pub min_stack : ℕ
min_stack = 81920

-- `stackSize < USLOSS_MIN_STACK`
abbrev pub too_small : ℤ → Bool
too_small (pos n) = ltb n min_stack
too_small (negsuc _) = true

abbrev pub is_ok : Status → Bool
is_ok Status.ok = true
is_ok _ = false

abbrev pub is_off : Status → Bool
is_off Status.err_off = true
is_off _ = false

abbrev pub is_pagetable : Option Mode → Bool
is_pagetable (some pagetable) = true
is_pagetable _ = false

module _ (Os : Type 0) where
  -- `USLOSS_ContextInit`: the context that it fills in.
  unfoldable pub context_init :
      Option (IllegalHandler Os) → ℤ → ℕ → ℕ → Cpu → Os → Result (Context × Cpu × Os)
  context_init h stack_size page_table pc c os = do
    let (enabled, c') = int_off c
    r ← check_kernel_mode Os h c' os
    check (not (too_small stack_size)) Fault.sim_trap
    done (record { start = pc; page_table = page_table }, int_on_if enabled r.0, r.1)

module _ (vm : Vm) where
  -- The part of `USLOSS_ContextSwitch` that installs the page table of the new context. `tables` is
  -- what the memory holds at a pointer.
  unfoldable pub switch_table : (ℕ → ℕ → Pte) → Context → MmuPtr vm → Result (MmuPtr vm)
  switch_table tables new p =
      let r = mmu_get_mode vm p true in
      if is_off r.0
      then done p
      else if not (is_ok r.0)
      then fault Fault.sim_trap
      else if is_pagetable r.1
      then (usloss_mmu_set_page_table vm p new.page_table (tables new.page_table) >>= λ s.
          if not (is_ok s.0) && (not (is_off s.0) || not (new.page_table == 0))
          then fault Fault.sim_trap
          else done s.1)
      else done p

  -- `USLOSS_ContextSwitch` up to `swapcontext`: whether interrupts were enabled, and the state.
  unfoldable pub context_switch :
      (Os : Type 0)
      → Option (IllegalHandler Os)
      → (ℕ → ℕ → Pte)
      → Option Context
      → MmuPtr vm
      → Cpu
      → Os
      → Result (Bool × MmuPtr vm × Cpu × Os)
  context_switch Os h tables none p c os =
      check_kernel_mode Os h (int_off c).1 os >>= λ _. fault Fault.sim_trap
  context_switch Os h tables (some new) p c os = do
    let (enabled, c') = int_off c
    r ← check_kernel_mode Os h c' os
    p' ← switch_table tables new p
    done (enabled, p', r.0, r.1)

-- The end of `USLOSS_ContextSwitch`, when the old context runs again.
abbrev pub switched_back : Bool → Cpu → Cpu
switched_back enabled c = int_on_if enabled c

-- A context that can be switched to: a new one, or one that has switched away with interrupts
-- enabled or not. Both have the signals blocked in their saved mask.
pub data Target : Type 0 where
  fresh : Target
  parked : Bool → Target

-- The registers once it runs: a new context goes to `launcher`, another one to the end of its
-- `USLOSS_ContextSwitch`.
unfoldable pub resumed : Target → Cpu → Cpu
resumed fresh c = (int_off c).1
resumed (parked enabled) c = switched_back enabled (int_off c).1

-- `launcher`: the function that is called, and `launch_context` after that.
pub launcher : Option Context → Result (ℕ × Option Context)
launcher none = fault Fault.assertion
launcher (some launch_context) = done (launch_context.start, none)
