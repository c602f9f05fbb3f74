-- ===== src/Mmu/Api.antt =====
-- The functions of src/mmu.c that an operating system calls, below `check_kernel_mode`: they test
-- that the MMU is on and in the right mode. `USLOSS_MmuMap` and `USLOSS_MmuUnmap` are in
-- Mmu/Config, and what only reads the state in Mmu/Query.
use usloss.Base.{
  ℕ, ◌-◌, ◌/◌, Bool, Option, none, some, leb, if◌then◌else◌, ℤ, pos, negsuc, ◌==◌, Result, done,
  ◌>>=◌,
}
use usloss.Mmu.Types.{Status, tlb, pagetable, Vm}
use usloss.Mmu.Pages.{Mmu, Outcome, get_map}
use usloss.Mmu.Access.{Verdict, set_access, get_access, mmu_handler}
use usloss.Mmu.Switch.{Pte, mmu_set_tag, set_page_table}
use usloss.Mmu.Config.{MmuPtr, same_mode, when_mode}

-- `PageIndex`, for addresses whose page number fits in an `int`: the division of C rounds toward
-- zero.
unfoldable pub page_index : ℕ → ℕ → ℕ → ℤ
page_index region size addr =
    if leb region addr
    then pos ((addr - region) / size)
    else let k = (region - addr) / size in if k == 0 then pos 0 else negsuc (k - 1)

module _ (vm : Vm) where
  unfoldable pub when_on : MmuPtr vm → (Mmu vm → Outcome vm) → Result (Status × MmuPtr vm)
  when_on none f = done (Status.err_off, none)
  when_on (some m) f = f m >>= λ r. done (r.0, some r.1)

  -- `USLOSS_MmuSetAccess`
  unfoldable pub usloss_mmu_set_access : MmuPtr vm → ℤ → ℕ → Result (Status × MmuPtr vm)
  usloss_mmu_set_access p frame access = when_on p (λ m. set_access vm m frame access)

  -- `USLOSS_MmuGetAccess`
  unfoldable pub usloss_mmu_get_access : MmuPtr vm → ℤ → Bool → Status × Option ℕ
  usloss_mmu_get_access none frame wanted = (Status.err_off, none)
  usloss_mmu_get_access (some m) frame wanted = get_access vm m frame wanted

  -- `USLOSS_MmuSetTag`
  unfoldable pub usloss_mmu_set_tag : MmuPtr vm → ℤ → Result (Status × MmuPtr vm)
  usloss_mmu_set_tag p new = when_mode vm tlb p (λ m. mmu_set_tag vm m new)

  -- `USLOSS_MmuSetPageTable`
  unfoldable pub usloss_mmu_set_page_table : MmuPtr vm → ℕ → (ℕ → Pte) → Result (Status × MmuPtr vm)
  usloss_mmu_set_page_table p pointer table =
      when_mode vm pagetable p (λ m. set_page_table vm m pointer table)

  -- `USLOSS_MmuGetMap`
  unfoldable pub usloss_mmu_get_map : MmuPtr vm → ℤ → ℤ → Bool → Bool → Status × Option (ℤ × ℕ)
  usloss_mmu_get_map none tag page wants_frame wants_prot = (Status.err_off, none)
  usloss_mmu_get_map (some m) tag page wants_frame wants_prot =
      if same_mode vm m.mode tlb
      then get_map vm m tag page wants_frame wants_prot
      else (Status.err_mode, none)

  -- `USLOSS_MmuHandler` on a fault at an address, while no touch is under way, up to the interrupt
  -- of the operating system.
  unfoldable pub usloss_mmu_handler : MmuPtr vm → ℕ → Result (Verdict × MmuPtr vm)
  usloss_mmu_handler none addr = done (Verdict.real_segv, none)
  usloss_mmu_handler (some m) addr =
      mmu_handler vm m (page_index m.region m.page_size addr) >>= λ r. done (r.0, some r.1)
