-- ===== src/Mmu/Pages.antt =====
-- The operations of src/mmu.c on one page of the region: `Map`, `Unmap`, `SetRealProt` and
-- `USLOSS_MmuTouch`. Every USLOSS_Mmu* function is below its `check_kernel_mode`.
use usloss.Base.{
  ℕ, zero, suc, ◌+◌, ◌-◌, Bool, true, false, not, ◌&&◌, Option, some, none, leb, ltb, ◌==◌,
  if◌then◌else◌, ℤ, pos, out_of_range, index, eq_ℤ, Result, done, Fault, check, ◌>>◌,
}
use usloss.Mmu.Types.{
  Status, Prot, prot_none, MmuPage, no_page, is_mapped, num_tag, page_of, set_page, in_frame,
  nowhere, Vm, MmuInfo, page_addr,
}

abbrev pub readable : Prot → Bool
readable prot_none = false
readable _ = true

module _ (vm : Vm) where
  open vm use {View, mmap, at}

  abbrev pub Mmu : Type 0
  Mmu = MmuInfo View

  -- What an operation gives: a status and the new state, unless an assertion fails.
  abbrev pub Outcome : Type 0
  Outcome = Result (Status × Mmu)

  -- `USLOSS_MmuTouch`: the read of the page goes through if the host lets it; otherwise the signal
  -- handler jumps back and the result is FALSE.
  unfoldable pub mmu_touch : View → ℕ → Bool
  mmu_touch v a = readable (at v a).prot

  -- The page of the current tag.
  abbrev pub current_page : Mmu → ℕ → MmuPage
  current_page m i = page_of m.pages m.tag i

  -- The state that `Map` leaves: the page shows the frame at once if its tag is the current one.
  unfoldable pub enter_page : Mmu → ℤ → ℕ → ℕ → ℕ → Mmu
  enter_page m tag page frame protection = record m {
    num_maps = m.num_maps + 1;
    pages =
        set_page m.pages tag page
          (record { frame = pos frame; virt_prot = protection; real_prot = prot_none });
    view =
        if eq_ℤ tag m.tag then mmap m.view (page_addr page) (in_frame frame) prot_none else m.view;
  }

  -- `Map`, behind its guards.
  unfoldable pub do_map : Mmu → ℤ → ℕ → ℕ → ℕ → Outcome
  do_map m tag page frame protection =
      check (leb (m.num_maps + 1) m.max_maps) Fault.assertion
      >> done (Status.ok, enter_page m tag page frame protection)

  -- `Map`. A protection is a 32-bit pattern: `protection & ~USLOSS_MMU_PROT_RW` is not 0 exactly if
  -- the pattern is above 3.
  unfoldable pub map_page : Mmu → ℤ → ℤ → ℤ → ℕ → Outcome
  map_page m tag page frame protection =
      if out_of_range page m.num_pages
      then done (Status.err_page, m)
      else if out_of_range frame m.num_frames
      then done (Status.err_frame, m)
      else if m.num_maps == m.max_maps
      then done (Status.err_maps, m)
      else if ltb 3 protection
      then done (Status.err_prot, m)
      else if out_of_range tag num_tag
      then done (Status.err_tag, m)
      else if is_mapped (page_of m.pages tag (index page))
      then done (Status.err_remap, m)
      else do_map m tag (index page) (index frame) protection

  -- The state that `Unmap` leaves: the page shows the extra frame, and cannot be accessed.
  unfoldable pub clear_page : Mmu → ℤ → ℕ → Mmu
  clear_page m tag page = record m {
    num_maps = m.num_maps - 1;
    pages = set_page m.pages tag page no_page;
    view = if eq_ℤ tag m.tag then mmap m.view (page_addr page) nowhere prot_none else m.view;
  }

  -- `Unmap`, behind its guards.
  unfoldable pub do_unmap : Mmu → ℤ → ℕ → Outcome
  do_unmap m tag page =
      let m' = clear_page m tag page in
      let untouched = if eq_ℤ tag m.tag then not (mmu_touch m'.view (page_addr page)) else true in
      check untouched Fault.assertion >> done (Status.ok, m')

  -- `Unmap`. The count is decremented only where a page is mapped, so it is not 0 there.
  unfoldable pub unmap_page : Mmu → ℤ → ℤ → Outcome
  unmap_page m tag page =
      if out_of_range page m.num_pages
      then done (Status.err_page, m)
      else if out_of_range tag num_tag
      then done (Status.err_tag, m)
      else if is_mapped (page_of m.pages tag (index page))
      then do_unmap m tag (index page)
      else done (Status.err_nomap, m)

  -- The last loop of `SetRealProt`: from page i on, no page of the current tag that is not mapped
  -- can be touched. `n` is the number of pages left.
  unfoldable pub check_unmapped : ℕ → ℕ → Mmu → Result (Unit {0})
  unfolding mmu_touch
  check_unmapped zero i m = done tt
  check_unmapped (suc n) i m =
      let this =
        if is_mapped (current_page m i) then true else not (mmu_touch m.view (page_addr i)) in
      check this Fault.assertion >> check_unmapped n (suc i) m

  -- The write of `SetRealProt`, behind its first assertion.
  unfoldable pub write_real_prot : Mmu → ℕ → Prot → Mmu
  write_real_prot m page prot =
      let p = current_page m page in
      record m {
        pages = set_page m.pages m.tag page (record p { real_prot = prot });
        view = mmap m.view (page_addr page) (in_frame (index p.frame)) prot;
      }

  -- `SetRealProt`
  unfoldable pub set_real_prot : Mmu → ℕ → Prot → Result Mmu
  set_real_prot m page prot = do
    check (is_mapped (current_page m page)) Fault.assertion
    let m' = write_real_prot m page prot
    check_unmapped m.num_pages 0 m'
    done m'

  -- `USLOSS_MmuGetMap`, with the MMU on and in TLB mode: the status, and what goes through
  -- `framePtr` and `protPtr`, which are NULL if `wants_frame` or `wants_prot` is false.
  unfoldable pub get_map : Mmu → ℤ → ℤ → Bool → Bool → Status × Option (ℤ × ℕ)
  get_map m tag page wants_frame wants_prot =
      let p = page_of m.pages tag (index page) in
      if out_of_range page m.num_pages
      then (Status.err_page, none)
      else if out_of_range tag num_tag
      then (Status.err_tag, none)
      else if not (is_mapped p)
      then (Status.err_nomap, none)
      else if wants_frame && wants_prot
      then (Status.ok, some (p.frame, p.virt_prot))
      else (Status.err_null, none)
