-- ===== src/Mmu/Types.antt =====
-- The data of src/mmu.c and the MMU part of src/usloss.h, and the host's memory mappings as an
-- interface.
use usloss.Base.{
  ℕ, suc, ◌+◌, ◌<◌, ◌≡◌, Bool, ◌&&◌, List, [], get_or, set, ltb, leb, ◌==◌, if◌then◌else◌, ℤ, pos,
  negsuc, minus_one, eq_ℤ, not,
}

-- The USLOSS_MMU_* return codes.
pub data Status : Type 0 where
  ok err_off err_on err_page err_frame err_prot err_tag err_remap err_nomap err_acc : Status
  err_maps err_mode err_null : Status

-- USLOSS_MMU_MODE_TLB and USLOSS_MMU_MODE_PAGETABLE.
pub data Mode : Type 0 where
  tlb pagetable : Mode

-- The cause of the last MMU interrupt: 0, USLOSS_MMU_FAULT or USLOSS_MMU_ACCESS.
pub data Cause : Type 0 where
  no_cause fault_cause access_cause : Cause

-- The values that `realProt` takes: PROT_NONE, PROT_READ and PROT_READ|PROT_WRITE of the host.
pub data Prot : Type 0 where
  prot_none prot_read prot_rw : Prot

-- USLOSS_MMU_PROT_*: the protection that the operating system asks for is any `int`, so it is kept
-- as its bits.
abbrev pub virt_none : ℕ
virt_none = 0

abbrev pub virt_read : ℕ
virt_read = 1

abbrev pub virt_rw : ℕ
virt_rw = 3

-- `struct MMUPage`
pub record MmuPage : Type 0 where
  pub frame : ℤ
  pub virt_prot : ℕ
  pub real_prot : Prot

-- A page that no frame is mapped to. A read outside the arrays gives it too; the guards of the
-- operations rule such reads out.
abbrev pub no_page : MmuPage
no_page = record { frame = minus_one; virt_prot = 0; real_prot = prot_none }

-- `pagePtr->frame != -1`
abbrev pub is_mapped : MmuPage → Bool
is_mapped p = not (eq_ℤ p.frame minus_one)

-- USLOSS_MMU_NUM_TAG
abbrev pub num_tag : ℕ
num_tag = 4

-- `pages[tag][page]`
abbrev pub page_of : List (List MmuPage) → ℤ → ℕ → MmuPage
page_of pages (pos t) i = get_or (get_or pages t []) i no_page
page_of pages (negsuc _) i = no_page

abbrev pub set_page : List (List MmuPage) → ℤ → ℕ → MmuPage → List (List MmuPage)
set_page pages (pos t) i p = set pages t (set (get_or pages t []) i p)
set_page pages (negsuc _) i p = pages

-- What a page of the region shows: a frame of the physical memory file, the extra frame behind it
-- (`nowhere`), or the memory that was allocated at first.
pub data Backing : Type 0 where
  in_frame : ℕ → Backing
  nowhere anonymous : Backing

pub record Mapping : Type 0 where
  pub backing : Backing
  pub prot : Prot

-- The memory mappings of the host. Its pages are those of the block that `posix_memalign` returned:
-- number 0 is the guard page, and page i of the region is number i + 1.
pub record Vm : Type 1 where
  pub View : Type 0
  pub fresh : ℕ → View
  pub mmap : View → ℕ → Backing → Prot → View
  pub mprotect : View → ℕ → ℕ → Prot → View
  pub at : View → ℕ → Mapping
  -- Memory that was allocated can be read and written.
  pub at-fresh : (n i : ℕ) → i < n → (at (fresh n) i).prot ≡ prot_rw
  -- `mmap` with MAP_FIXED replaces the mapping of one page.
  pub at-mmap :
      (v : View) (i j : ℕ) (b : Backing) (p : Prot)
      → at (mmap v i b p) j ≡ (if i == j then record { backing = b; prot = p } else at v j)
  -- `mprotect` sets the protection of a range of pages.
  pub at-mprotect :
      (v : View) (i n j : ℕ) (p : Prot)
      → at (mprotect v i n p) j ≡ (
          if leb i j && ltb j (i + n)
          then record { backing = (at v j).backing; prot = p }
          else at v j)

-- `struct MMUInfo`, with the mappings of the region in place of the file descriptor.
pub record MmuInfo (View : Type 0) : Type 0 where
  pub num_frames : ℕ
  pub frames : List ℕ
  pub num_pages : ℕ
  pub page_size : ℕ
  pub pages : List (List MmuPage)
  pub max_maps : ℕ
  pub num_maps : ℕ
  pub cause : Cause
  pub region : ℕ
  pub tag : ℤ
  pub page_table : ℕ
  pub mode : Mode
  pub pm_start : ℕ
  pub view : View

-- `PageAddr`, as the number of the page in the block.
abbrev pub page_addr : ℕ → ℕ
page_addr i = suc i
