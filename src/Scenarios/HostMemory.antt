-- ===== src/Scenarios/HostMemory.antt =====
-- A memory of an operating system, a host whose mappings are a function from pages, and first
-- states of an MMU on it.
use usloss.Base.{ℕ, ◌+◌, ==_refl, refl, arith, pos, leb, ltb, ◌==◌, ◌&&◌, if◌then◌else◌}
use usloss.Devices.Disk.{Memory}
use usloss.Mmu.Types.{Mode, prot_rw, anonymous, Mapping, Vm}
use usloss.Mmu.Pages.{Mmu, enter_page}
use usloss.Mmu.Config.{Host, started}
use usloss.Mmu.Start.{closed_view, started-Sound}
use usloss.Mmu.Sound.{Sound, enter_page-Sound}

abbrev pub host_vm : Vm
host_vm = record {
  View = ℕ → Mapping;
  fresh = λ n i. record { backing = anonymous; prot = prot_rw };
  mmap = λ v i b p j. if i == j then record { backing = b; prot = p } else v j;
  mprotect = λ v i n p j.
      if leb i j && ltb j (i + n) then record { backing = (v j).backing; prot = p } else v j;
  at = λ v i. v i;
  at-fresh = λ n i h. refl;
  at-mmap = λ v i j b p. refl;
  at-mprotect = λ v i n j p. refl;
}

abbrev pub machine : Host
machine = record { page_size = 4096; block = 65536; pm_start = 131072; leftover = 0 }

-- Three pages, four frames, room for twelve mappings, nothing mapped.
abbrev pub blank : Mmu host_vm
blank = started host_vm machine Mode.tlb 12 3 4 (closed_view host_vm 3)

pub blank-Sound : Sound host_vm blank
blank-Sound = started-Sound host_vm machine Mode.tlb 12 3 4

-- Page 0 of tag 0 shows frame 2, with a given protection.
abbrev pub one_page : ℕ → Mmu host_vm
one_page protection = enter_page host_vm blank (pos 0) 0 2 protection

pub one_page-Sound : Sound host_vm (one_page 3)
one_page-Sound =
    enter_page-Sound host_vm blank 0 0 2 3 blank-Sound (omega arith) (omega arith) (omega arith)
      (omega arith) (omega arith) refl

pub hidden_page-Sound : Sound host_vm (one_page 0)
hidden_page-Sound =
    enter_page-Sound host_vm blank 0 0 2 0 blank-Sound (omega arith) (omega arith) (omega arith)
      (omega arith) (omega arith) refl

-- A memory whose cells are sectors of one number each.
abbrev pub memory : Memory
memory = record {
  Mem = ℕ → ℕ;
  Sector = ℕ;
  zeros = 0;
  load = λ m a. m a;
  store = λ m a s b. if a == b then s else m b;
  store_int = λ m a s b. if a == b then s else m b;
  load_request = λ m a. record { opr = m a; reg1 = m (a + 1); reg2 = m (a + 2) };
  load-store = λ m a s. rw (==_refl a) refl;
}
