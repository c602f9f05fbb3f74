-- ===== src/Mmu/Switch.antt =====
-- The tags and the page tables of src/mmu.c: `SetTag`, `USLOSS_MmuSetPageTable` and what reads them
-- back, with the MMU on.
use usloss.Base.{
  ℕ, zero, suc, Bool, not, ◌&&◌, Option, none, some, leb, ◌==◌, if◌then◌else◌, ℤ, pos, negsuc,
  minus_one, out_of_range, index, eq_ℤ, Result, done, ◌>>=◌,
}
use usloss.Mmu.Types.{
  Status, prot_none, is_mapped, num_tag, in_frame, Vm, virt_none, virt_read, virt_rw, page_addr,
}
use usloss.Mmu.Pages.{Mmu, Outcome, current_page, set_real_prot, map_page, unmap_page}

-- `USLOSS_PTE`
pub record Pte : Type 0 where
  pub incore : Bool
  pub read : Bool
  pub write : Bool
  pub frame : ℕ

-- The protection that the bits of an entry stand for. A page that can be written and not read is
-- refused.
unfoldable pub pte_protection : Pte → Option ℕ
pte_protection e =
    if e.read && not e.write
    then some virt_read
    else if e.read && e.write
    then some virt_rw
    else if not e.read && not e.write
    then some virt_none
    else none

-- The argument of `SetTag` may be -1, the one of `USLOSS_MmuSetTag` may not.
abbrev pub bad_tag : ℤ → Bool
bad_tag (pos n) = leb num_tag n
bad_tag (negsuc n) = not (n == 0)

module _ (vm : Vm) where
  open vm use {View, mmap}

  -- The first loop of `SetTag`: the pages of the old tag can no longer be accessed.
  unfoldable pub hide_pages : ℕ → ℕ → Mmu vm → Result (Mmu vm)
  hide_pages zero i m = done m
  hide_pages (suc n) i m =
      (if is_mapped (current_page vm m i) then set_real_prot vm m i prot_none else done m)
      >>= hide_pages n (suc i)

  -- The second loop of `SetTag`: the region shows the frames of the new tag. It changes the
  -- mappings alone.
  unfoldable pub show_pages : ℕ → ℕ → Mmu vm → View → View
  show_pages zero i m v = v
  show_pages (suc n) i m v =
      let p = current_page vm m i in
      show_pages n (suc i) m
        (if is_mapped p then mmap v (page_addr i) (in_frame (index p.frame)) prot_none else v)

  -- The end of `SetTag`, with the pages of the old tag hidden.
  unfoldable pub enter_tag : Mmu vm → ℤ → Mmu vm
  enter_tag m new =
      let m' = record m { tag = new } in
      if eq_ℤ new minus_one
      then m'
      else record m { tag = new; view = show_pages m.num_pages 0 m' m.view }

  -- `SetTag`
  unfoldable pub set_tag : Mmu vm → ℤ → Outcome vm
  set_tag m new =
      if bad_tag new
      then done (Status.err_tag, m)
      else if eq_ℤ m.tag new
      then done (Status.ok, m)
      else ((if eq_ℤ m.tag minus_one then done m else hide_pages m.num_pages 0 m) >>= λ m'.
          done (Status.ok, enter_tag m' new))

  -- `USLOSS_MmuSetTag`, with the MMU on and in TLB mode.
  unfoldable pub mmu_set_tag : Mmu vm → ℤ → Outcome vm
  mmu_set_tag m new = if out_of_range new num_tag then done (Status.err_tag, m) else set_tag m new

  -- The first loop of `USLOSS_MmuSetPageTable`: the existing mappings are removed.
  unfoldable pub unmap_all : ℕ → ℕ → Mmu vm → Outcome vm
  unmap_all zero i m = done (Status.ok, m)
  unmap_all (suc n) i m = unmap_page vm m (pos 0) (pos i) >>= λ r. elim r.0 [
    | Status.ok ↦ unmap_all n (suc i) r.1
    | Status.err_nomap ↦ unmap_all n (suc i) r.1
    | _ ↦ done r
  ]

  -- The entry of a page that is in core, with the protection of its bits.
  unfoldable pub map_entry : Mmu vm → ℕ → ℕ → Option ℕ → Outcome vm
  map_entry m i frame none = done (Status.err_prot, m)
  map_entry m i frame (some protection) = map_page vm m (pos 0) (pos i) (pos frame) protection

  -- `if (status != USLOSS_MMU_OK) goto done;`
  abbrev pub unless_failed : (Mmu vm → Outcome vm) → Status → Mmu vm → Outcome vm
  unless_failed rest Status.ok m = rest m
  unless_failed rest s m = done (s, m)

  -- The second loop: the entries that are in core are mapped, up to the first that is refused.
  unfoldable pub map_all : (ℕ → Pte) → ℕ → ℕ → Mmu vm → Outcome vm
  map_all table zero i m = done (Status.ok, m)
  map_all table (suc n) i m =
      let rest = map_all table n (suc i) in
      if (table i).incore
      then (map_entry m i (table i).frame (pte_protection (table i)) >>= λ r.
          unless_failed rest r.0 r.1)
      else rest m

  -- `USLOSS_MmuSetPageTable`, with the MMU on and in page table mode. A pointer is a number, 0 for
  -- NULL; `table` is what the memory at the pointer holds.
  unfoldable pub set_page_table : Mmu vm → ℕ → (ℕ → Pte) → Outcome vm
  set_page_table m pointer table =
      let fill = λ (m' : Mmu vm).
        if pointer == 0 then done (Status.ok, m') else map_all table m.num_pages 0 m' in
      unmap_all m.num_pages 0 (record m { page_table = pointer }) >>= λ r.
      unless_failed fill r.0 r.1
