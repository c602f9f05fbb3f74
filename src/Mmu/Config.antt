-- ===== src/Mmu/Config.antt =====
-- How src/mmu.c starts and stops the MMU, and its functions below `check_kernel_mode`: they test
-- that the MMU is on and in the right mode.
use usloss.Base.{
  ℕ, ◌+◌, ◌*◌, Bool, true, false, not, ◌||◌, Option, none, some, ltb, ◌==◌, if◌then◌else◌, ℤ, pos,
  negsuc, index, Result, done, Fault, check, ◌>>=◌, ◌>>◌, replicate,
}
use usloss.Mmu.Types.{Status, Mode, tlb, pagetable, Cause, prot_none, no_page, num_tag, Vm}
use usloss.Mmu.Pages.{Mmu, Outcome, mmu_touch, map_page, unmap_page}

-- What `USLOSS_MmuInit` gets from the host: the size of a page, the addresses of the block and of
-- the mapped physical memory, and what `malloc` left in the word that holds the page table.
pub record Host : Type 0 where
  pub page_size : ℕ
  pub block : ℕ
  pub pm_start : ℕ
  pub leftover : ℕ

-- `x < 1`
abbrev pub below_one : ℤ → Bool
below_one (pos n) = n == 0
below_one (negsuc _) = true

-- The `switch` on the mode: the mode and the number of mappings, if they are accepted.
unfoldable pub choose_mode : ℕ → ℤ → ℕ → Status × Option (Mode × ℕ)
choose_mode mode num_maps num_pages =
    if mode == 2
    then (Status.ok, some (pagetable, num_pages))
    else if mode == 1
    then (if below_one num_maps || ltb (num_pages * num_tag) (index num_maps)
        then (Status.err_maps, none)
        else (Status.ok, some (tlb, index num_maps)))
    else (Status.err_mode, none)

module _ (vm : Vm) where
  open vm use {View, fresh, mprotect}

  abbrev pub MmuPtr : Type 0
  MmuPtr = Option (Mmu vm)

  -- The state that `USLOSS_MmuInit` fills in.
  abbrev pub started : Host → Mode → ℕ → ℕ → ℕ → View → Mmu vm
  started host mode num_maps num_pages num_frames view = record {
    num_frames = num_frames;
    frames = replicate num_frames 0;
    num_pages = num_pages;
    page_size = host.page_size;
    pages = replicate num_tag (replicate num_pages no_page);
    max_maps = num_maps;
    num_maps = 0;
    cause = Cause.no_cause;
    region = host.block + host.page_size;
    tag = pos 0;
    page_table = host.leftover;
    mode = mode;
    pm_start = host.pm_start;
    view = view;
  }

  -- `USLOSS_MmuInit` after the `switch`. The first page of the block is touched before and after
  -- the protection.
  unfoldable pub start_chosen : Host → ℕ → ℕ → Status × Option (Mode × ℕ) → Result (Status × MmuPtr)
  start_chosen host pages frames (status, none) = done (status, none)
  start_chosen host pages frames (status, some (mode, maps)) =
      let view = fresh (pages + 2) in
      let view' = mprotect view 0 (pages + 2) prot_none in
      do
        check (mmu_touch vm view 0) Fault.assertion
        check (not (mmu_touch vm view' 0)) Fault.assertion
        done (status, some (started host mode maps pages frames view'))

  -- `USLOSS_MmuInit`
  unfoldable pub mmu_init : MmuPtr → Host → ℤ → ℤ → ℤ → ℕ → Result (Status × MmuPtr)
  mmu_init (some m) host num_maps num_pages num_frames mode = done (Status.err_on, some m)
  mmu_init none host num_maps num_pages num_frames mode =
      if below_one num_pages
      then done (Status.err_page, none)
      else if below_one num_frames
      then done (Status.err_frame, none)
      else start_chosen host (index num_pages) (index num_frames)
          (choose_mode mode num_maps (index num_pages))

  -- `USLOSS_MmuDone`: the region is protected and the memory given back.
  unfoldable pub mmu_done : MmuPtr → Status × MmuPtr
  mmu_done none = (Status.err_off, none)
  mmu_done (some m) = (Status.ok, none)

  -- `if (mmuPtr == NULL) return USLOSS_MMU_ERR_OFF; if (mmuPtr->mode != ...) return ...MODE;`
  abbrev pub same_mode : Mode → Mode → Bool
  same_mode tlb tlb = true
  same_mode pagetable pagetable = true
  same_mode _ _ = false

  unfoldable pub when_mode : Mode → MmuPtr → (Mmu vm → Outcome vm) → Result (Status × MmuPtr)
  when_mode mode none f = done (Status.err_off, none)
  when_mode mode (some m) f =
      if same_mode m.mode mode
      then (f m >>= λ r. done (r.0, some r.1))
      else done (Status.err_mode, some m)

  -- `USLOSS_MmuMap`
  unfoldable pub mmu_map : MmuPtr → ℤ → ℤ → ℤ → ℕ → Result (Status × MmuPtr)
  mmu_map p tag page frame protection =
      when_mode tlb p (λ m. map_page vm m tag page frame protection)

  -- `USLOSS_MmuUnmap`
  unfoldable pub mmu_unmap : MmuPtr → ℤ → ℤ → Result (Status × MmuPtr)
  mmu_unmap p tag page = when_mode tlb p (λ m. unmap_page vm m tag page)
