-- ===== src/Mmu/Query.antt =====
-- The functions of src/mmu.c that only read the state of the MMU. A pointer argument is a flag that
-- says whether it is not NULL; what goes through it is the second part of the result.
use usloss.Base.{ℕ, Bool, not, Option, none, some, if◌then◌else◌, ℤ}
use usloss.Mmu.Types.{Status, Mode, tlb, pagetable, Cause, Vm}
use usloss.Mmu.Config.{MmuPtr, same_mode}

module _ (vm : Vm) where
  -- `USLOSS_MmuGetCause`
  unfoldable pub mmu_get_cause : MmuPtr vm → Cause
  mmu_get_cause none = Cause.no_cause
  mmu_get_cause (some m) = m.cause

  -- `USLOSS_MmuGetTag`
  unfoldable pub mmu_get_tag : MmuPtr vm → Bool → Status × Option ℤ
  mmu_get_tag none wants = (Status.err_off, none)
  mmu_get_tag (some m) wants =
      if not (same_mode vm m.mode tlb)
      then (Status.err_mode, none)
      else if not wants
      then (Status.err_null, none)
      else (Status.ok, some m.tag)

  -- `USLOSS_MmuGetPageTable`
  unfoldable pub mmu_get_page_table : MmuPtr vm → Bool → Status × Option ℕ
  mmu_get_page_table none wants = (Status.err_off, none)
  mmu_get_page_table (some m) wants =
      if not (same_mode vm m.mode pagetable)
      then (Status.err_mode, none)
      else if not wants
      then (Status.err_null, none)
      else (Status.ok, some m.page_table)

  -- `USLOSS_MmuGetMode`
  unfoldable pub mmu_get_mode : MmuPtr vm → Bool → Status × Option Mode
  mmu_get_mode none wants = (Status.err_off, none)
  mmu_get_mode (some m) wants =
      if not wants then (Status.err_null, none) else (Status.ok, some m.mode)

  -- What `USLOSS_MmuGetConfig` stores, each value where its pointer is not NULL.
  pub record Configuration : Type 0 where
    pub vm_region : ℕ
    pub pm_addr : ℕ
    pub page_size : ℕ
    pub num_pages : ℕ
    pub num_frames : ℕ
    pub mode : Mode

  -- `USLOSS_MmuGetConfig`
  unfoldable pub mmu_get_config : MmuPtr vm → Status × Option Configuration
  mmu_get_config none = (Status.err_off, none)
  mmu_get_config (some m) = (
    Status.ok,
    some (record {
      vm_region = m.region;
      pm_addr = m.pm_start;
      page_size = m.page_size;
      num_pages = m.num_pages;
      num_frames = m.num_frames;
      mode = m.mode;
    }),
  )
