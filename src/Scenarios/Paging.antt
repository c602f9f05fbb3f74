-- ===== src/Scenarios/Paging.antt =====
-- The theorems on the MMU, on the states of `HostMemory`.
use usloss.Base.{
  List, [], ◌∷◌, ℕ, ◌≡◌, ◌≢◌, ◌==◌, refl, true, false, arith, pos, none, some, done, fault, Fault,
}
use usloss.Mmu.Types.{Status, prot_none, prot_read}
use usloss.Mmu.Pages.{
  Mmu, mmu_touch, do_map, do_unmap, current_page, map_page, unmap_page, enter_page, clear_page,
}
use usloss.Mmu.Access.{Action, action, mmu_handler, set_access, ref_bit}
use usloss.Mmu.Switch.{mmu_set_tag, Pte, set_page_table}
use usloss.Mmu.Table.{TableEnd, set_page_table-TableEnd}
use usloss.Mmu.Runs.{Op, map_op, unmap_op, set_tag_op, fault_op}
use usloss.Mmu.Faults.{Served, mmu_handler-Served}
use usloss.Mmu.Cpu.{store, Ending, attempt, attempt-Ending}
use usloss.Mmu.SetAccess.{SetTo, set_access-SetTo}
use usloss.Mmu.SetTag.{Switched, mmu_set_tag-Switched}
use usloss.Mmu.Exposed.{set_access_exposes}
use usloss.Mmu.Mapping.{
  MapEnd, map_page-MapEnd, UnmapEnd, unmap_page-UnmapEnd, Done, get_map-map_page,
  get_map-unmap_page,
}
use usloss.Scenarios.HostMemory.{host_vm, one_page, one_page-Sound, hidden_page-Sound}

mmu_handler-Served_example :
    Served host_vm (one_page 3) 0 (mmu_handler host_vm (one_page 3) (pos 0))
mmu_handler-Served_example =
    mmu_handler-Served host_vm (one_page 3) 0 one_page-Sound.inv one_page-Sound.tracks
      (unfold enter_page in omega arith)

sane : action prot_none 3 ≢ Action.impossible
unfolding action
sane e = cc

attempt-Ending_example : Ending host_vm 2 3 store (attempt host_vm 3 (one_page 3) 0 store)
unfolding enter_page
attempt-Ending_example =
    attempt-Ending host_vm (one_page 3) 0 2 3 store one_page-Sound.inv one_page-Sound.tracks
      (omega arith) refl refl sane

set_access-SetTo_example :
    (m' : Mmu host_vm) × (set_access host_vm (one_page 3) (pos 2) 1 ≡ done (Status.ok, m'))
    × SetTo host_vm (one_page 3) 2 1 m'
unfolding enter_page
set_access-SetTo_example =
    set_access-SetTo host_vm (one_page 3) 2 1 one_page-Sound.inv one_page-Sound.tracks (omega arith)
      (omega arith)

mmu_set_tag-Switched_example :
    (m' : Mmu host_vm) × (mmu_set_tag host_vm (one_page 3) (pos 1) ≡ done (Status.ok, m'))
    × Switched host_vm (one_page 3) 1 m'
mmu_set_tag-Switched_example =
    mmu_set_tag-Switched host_vm (one_page 3) 1 one_page-Sound.inv one_page-Sound.tracks
      (omega arith)

set_access_exposes_example :
    (m' : Mmu host_vm) × (set_access host_vm (one_page 0) (pos 2) ref_bit ≡ done (Status.ok, m'))
    × ((current_page host_vm m' 0).real_prot ≡ prot_read)
    × (mmu_handler host_vm m' (pos 0) ≡ fault Fault.aborted)
unfolding enter_page
set_access_exposes_example =
    set_access_exposes host_vm (one_page 0) 0 2 hidden_page-Sound.inv (omega arith) (omega arith)
      refl refl

map_page-MapEnd_example :
    MapEnd host_vm
      (one_page 3)
      (pos 1)
      (pos 2)
      (pos 0)
      1
      (map_page host_vm (one_page 3) (pos 1) (pos 2) (pos 0) 1)
map_page-MapEnd_example =
    map_page-MapEnd host_vm (one_page 3) (pos 1) (pos 2) (pos 0) 1 one_page-Sound

unmap_page-UnmapEnd_example :
    UnmapEnd host_vm (one_page 3) (pos 0) (pos 0) (unmap_page host_vm (one_page 3) (pos 0) (pos 0))
unmap_page-UnmapEnd_example =
    unmap_page-UnmapEnd host_vm (one_page 3) (pos 0) (pos 0) one_page-Sound

mapped_run :
    map_page host_vm (one_page 3) (pos 1) (pos 2) (pos 0) 1
    ≡ done (Status.ok, enter_page host_vm (one_page 3) (pos 1) 2 0 1)
unfolding map_page do_map enter_page
mapped_run = refl

get_map-map_page_example :
    Done host_vm
      (one_page 3)
      (enter_page host_vm (one_page 3) (pos 1) 2 0 1)
      1
      2
      (Status.ok, some (pos 0, 1))
      1
      0
get_map-map_page_example =
    get_map-map_page host_vm (one_page 3) (enter_page host_vm (one_page 3) (pos 1) 2 0 1) 1 2 0 1
      one_page-Sound mapped_run

cleared_run :
    unmap_page host_vm (one_page 3) (pos 0) (pos 0)
    ≡ done (Status.ok, clear_page host_vm (one_page 3) (pos 0) 0)
unfolding unmap_page do_unmap mmu_touch enter_page clear_page
cleared_run = refl

get_map-unmap_page_example :
    Done host_vm
      (one_page 3)
      (clear_page host_vm (one_page 3) (pos 0) 0)
      0
      0
      (Status.err_nomap, none)
      0
      1
get_map-unmap_page_example =
    get_map-unmap_page host_vm (one_page 3) (clear_page host_vm (one_page 3) (pos 0) 0) 0 0
      one_page-Sound cleared_run

-- A table whose page 1 is in frame 3 and can be read.
abbrev one_entry : ℕ → Pte
one_entry i = record { incore = i == 1; read = true; write = false; frame = 3 }

set_page_table-TableEnd_example :
    TableEnd host_vm one_entry
      (one_page 3)
      4096
      (set_page_table host_vm (one_page 3) 4096 one_entry)
set_page_table-TableEnd_example =
    set_page_table-TableEnd host_vm one_entry (one_page 3) 4096 one_page-Sound

-- A mapping, a fault, a change of the tag and a request for a page that does not exist.
abbrev some_ops : List Op
some_ops =
    map_op (pos 0) (pos 1) (pos 3) 1
    ∷ fault_op (pos 1)
    ∷ set_tag_op (pos 2)
    ∷ unmap_op (pos 0) (pos 9)
    ∷ []
