-- ===== src/Mmu/Protect.antt =====
-- `SetRealProt` of src/mmu.c and the loops over it: `USLOSS_MmuSetAccess` and the first loop of
-- `SetTag`. They keep the invariant, and their assertions do not fail.
use usloss.Base.{
  ℕ, zero, suc, ◌+◌, ◌<◌, ◌≤◌, ◌≡◌, refl, sym, ap, ◌∙◌, inl, inr, true, false, not, pos, arith,
  Bool-cases, bool_clash, index, done,
}
use mathlib.Core.Path.{subst}
use usloss.Mmu.Types.{Prot, MmuPage, is_mapped, page_of, set_page, in_frame, Vm, page_addr}
use usloss.Mmu.Pages.{Mmu, mmu_touch, current_page, check_unmapped, set_real_prot, write_real_prot}
use usloss.Mmu.Grid.{mapped, mapped-set_page}
use usloss.Mmu.Inv.{empty, filled, hidden, shown, Inv, write-Inv}
use usloss.Mmu.Keep.{at-mmap_self, at-mmap_ne, is_mapped-filled, is_mapped-empty}

module _ (vm : Vm) where
  open vm use {View, at, mmap}

  -- The page of the current tag, by the tag's number.
  pub current_page-now :
      (m : Mmu vm) (i : ℕ) (h : Inv vm m) → current_page vm m i ≡ page_of m.pages (pos h.now) i
  current_page-now m i h = ap (λ t. page_of m.pages t i) h.tag_now

  -- What an entry that is not empty is.
  pub mapped_entry :
      (m : Mmu vm) (i : ℕ) (h : Inv vm m)
      → i < m.num_pages
      → is_mapped (current_page vm m i) ≡ true
      → (f : ℕ) × ((current_page vm m i).frame ≡ pos f)
        × (f < m.num_frames)
        × ((current_page vm m i).virt_prot ≤ 3)
  mapped_entry m i h hi used = elim (h.entries h.now i h.now_in hi) [
    | empty e ↦ bool_clash used (is_mapped-empty _ (current_page-now m i h ∙ e))
    | filled f ef hf hv ↦ (f, rw (current_page-now m i h) ef, hf, rw (current_page-now m i h) hv)
  ]

  -- No page that is not mapped can be touched.
  check_unmapped-done :
      (n i : ℕ) (m : Mmu vm) → Inv vm m → i + n ≤ m.num_pages → check_unmapped vm n i m ≡ done tt
  unfolding check_unmapped mmu_touch
  check_unmapped-done zero i m h le = refl
  check_unmapped-done (suc n) i m h le = elim (Bool-cases (is_mapped (current_page vm m i))) [
    | inl e ↦ rw e (check_unmapped-done n (suc i) m h (omega arith))
    | inr e ↦ rw (e, untouched e) (check_unmapped-done n (suc i) m h (omega arith))
  ]
    where
      untouched :
          is_mapped (current_page vm m i) ≡ false → not (mmu_touch vm m.view (page_addr i)) ≡ true
      untouched e = elim (h.view i (omega arith)) [
        | hidden _ v ↦ rw v
        | shown f ef _ ↦
            bool_clash
              (is_mapped-filled (current_page vm m i) f
                (ap (λ (p : MmuPage). p.frame) (current_page-now m i h) ∙ ef))
              e
      ]

  write_real_prot-Inv :
      (m : Mmu vm) (i : ℕ) (prot : Prot)
      → Inv vm m
      → i < m.num_pages
      → is_mapped (current_page vm m i) ≡ true
      → Inv vm (write_real_prot vm m i prot)
  unfolding write_real_prot
  write_real_prot-Inv m i prot h hi used =
      let (f, ef, hf, hv) = mapped_entry m i h hi used in
      let p : MmuPage = record (current_page vm m i) { real_prot = prot } in
      let v = mmap m.view (page_addr i) (in_frame (index p.frame)) prot in
      subst (λ t. Inv vm (record m { pages = set_page m.pages t i p; view = v })) (sym h.tag_now)
        (write-Inv vm m h.now i m.num_maps p v h h.now_in hi (filled f ef hf hv)
          (λ ne. absurd (ne refl)) (same_count p used) h.room
          (λ j ne.
            at-mmap_ne vm m.view (page_addr i) (page_addr j) _ prot (λ q. ne (omega arith) refl))
          (λ _. shown f ef (at-mmap_self vm m.view (page_addr i) _ prot ∙ rw ef)))
    where
      same_count :
          (p : MmuPage)
          → is_mapped p ≡ true
          → m.num_maps ≡ mapped (set_page m.pages (pos h.now) i p)
      same_count p e =
          let old : is_mapped (page_of m.pages (pos h.now) i) ≡ true =
            rw (← current_page-now m i h) used in
          omega (
            arith,
            h.counted,
            rw (e, old) at (mapped-set_page m.pages m.num_pages h.now i p h.grid h.now_in hi),
          )

  pages_left :
      (m : Mmu vm) (i : ℕ) (prot : Prot) → 0 + m.num_pages ≤ (write_real_prot vm m i prot).num_pages
  unfolding write_real_prot
  pages_left m i prot = omega arith

  -- `SetRealProt` on a page that is mapped: it returns, and only the real protection of the page
  -- and what the region shows of it change.
  pub set_real_prot_lem :
      (m : Mmu vm) (i : ℕ) (prot : Prot)
      → Inv vm m
      → i < m.num_pages
      → is_mapped (current_page vm m i) ≡ true
      → (set_real_prot vm m i prot ≡ done (write_real_prot vm m i prot))
        × Inv vm (write_real_prot vm m i prot)
  unfolding set_real_prot
  set_real_prot_lem m i prot h hi used =
      let h' = write_real_prot-Inv m i prot h hi used in
      (
        rw (
          used,
          check_unmapped-done m.num_pages 0 (write_real_prot vm m i prot) h' (pages_left m i prot),
        ),
        h',
      )
