-- ===== src/Pager/Demand.antt =====
-- Demand paging with the page faults of src/sig_ints.c and src/mmu.c: an access to a page that the
-- operating system maps in its fault handler.
use usloss.Base.{ℕ, ◌≡◌, pos}
use usloss.Psr.{Cpu}
use usloss.Mmu.Types.{prot_none, Vm, Cause}
use usloss.Mmu.Pages.{Mmu, current_page}
use usloss.Mmu.Sound.{Sound}

module _ (vm : Vm) (Os : Type 0) where
  -- What a fault on a page that is not mapped leaves for the handler.
  abbrev pub missing : Mmu vm → Mmu vm
  missing m = record m { cause = Cause.fault_cause }

  -- The page that a successful `Map` has entered.
  record Entered (m m' : Mmu vm) (i f virt : ℕ) : Type 0 where
    sound : Sound vm m'
    page : current_page vm m' i ≡ record { frame = pos f; virt_prot = virt; real_prot = prot_none }
    pages : m'.num_pages ≡ m.num_pages
    size : m'.page_size ≡ m.page_size
