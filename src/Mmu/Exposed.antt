-- ===== src/Mmu/Exposed.antt =====
-- Two requests that src/mmu.c accepts and that leave a page in a state which its fault handler
-- calls impossible.
use usloss.Base.{ℕ, ◌<◌, ◌≡◌, ◌∙◌, pos, arith, done, fault, Fault, index-not_out}
use usloss.Mmu.Types.{Status, Prot, prot_read, Vm}
use usloss.Mmu.Pages.{Mmu, current_page}
use usloss.Mmu.Access.{set_access, ref_bit, Action, action, mmu_handler, take_action}
use usloss.Mmu.Inv.{Inv}
use usloss.Mmu.Keep.{is_mapped-filled}
use usloss.Mmu.Faults.{handler_switch}
use usloss.Mmu.SetAccess.{protect_frame-Protected, with_bits, with_bits-Inv}

no_way_out : {q : Prot} → q ≡ prot_read → action q 0 ≡ Action.impossible
unfolding action
no_way_out e = rw e

module _ (vm : Vm) where
  -- If the operating system has mapped a frame into a page of the current tag with no access
  -- (USLOSS_MMU_PROT_NONE) and sets the reference bit of the frame alone, the page can be read
  -- afterwards, and the next fault on it ends the simulator.
  pub set_access_exposes :
      (m : Mmu vm) (i f : ℕ)
      → Inv vm m
      → i < m.num_pages
      → f < m.num_frames
      → (current_page vm m i).frame ≡ pos f
      → (current_page vm m i).virt_prot ≡ 0
      → (m' : Mmu vm) × (set_access vm m (pos f) ref_bit ≡ done (Status.ok, m'))
        × ((current_page vm m' i).real_prot ≡ prot_read)
        × (mmu_handler vm m' (pos i) ≡ fault Fault.aborted)
  unfolding set_access take_action
  set_access_exposes m i f h hi hf ef ev =
      let (m', er, p) =
        protect_frame-Protected vm m.num_pages 0 f prot_read (with_bits vm m f ref_bit)
          (with_bits-Inv vm m f ref_bit h) (omega arith) in
      let real = p.lowered i (omega arith) (omega arith) ef in
      (
        m',
        rw (index-not_out f m.num_frames hf, er),
        real,
        handler_switch vm m' i p.inv (omega (arith, p.num_pages))
              (is_mapped-filled (current_page vm m' i) f (p.frame i ∙ ef))
            ∙ rw (p.virt i ∙ ev, no_way_out real),
      )
