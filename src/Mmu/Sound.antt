-- ===== src/Mmu/Sound.antt =====
-- `Map` and `Unmap` of src/mmu.c as `USLOSS_MmuGetMap` sees them, and the record of accesses.
use usloss.Base.{ℕ, ◌<◌, ◌≤◌, ◌≡◌, ◌≢◌, refl, sym, ap, ◌∙◌, true, false, pos, arith}
use mathlib.Core.Path.{ap₂}
use usloss.Mmu.Types.{prot_none, MmuPage, no_page, is_mapped, Vm, page_of, num_tag, set_page}
use usloss.Mmu.Pages.{Mmu, current_page, enter_page, clear_page}
use usloss.Mmu.Grid.{read_back, written, kept}
use usloss.Mmu.Inv.{Inv}
use usloss.Mmu.Keep.{enter_page-Inv, clear_page-Inv}
use usloss.Mmu.Track.{Tracks}

module _ (vm : Vm) where
  -- Both halves of what the operations keep.
  pub record Sound (m : Mmu vm) : Type 0 where
    pub inv : Inv vm m
    pub tracks : Tracks vm m

  -- A write of an entry that cannot be accessed keeps the record.
  quiet-Tracks :
      (m m' : Mmu vm) (t i : ℕ) (p : MmuPage)
      → (h : Inv vm m) → Tracks vm m
      → t < num_tag
      → i < m.num_pages
      → p.real_prot ≡ prot_none
      → m'.pages ≡ set_page m.pages (pos t) i p
      → m'.tag ≡ m.tag
      → m'.frames ≡ m.frames
      → m'.num_pages ≡ m.num_pages
      → Tracks vm m'
  quiet-Tracks m m' t i p h tr ht hi quiet ep et ef en = record {
    bits = λ f. rw ef (tr.bits f);
    recorded = λ j f hj ej. elim (read_back m.pages m.num_pages t i p h.now j h.grid ht hi) [
      | written _ _ r ↦ rw (at_now j ∙ r, quiet) tt
      | kept _ r ↦
          let same : current_page vm m' j ≡ current_page vm m j =
            at_now j ∙ (r ∙ ap (λ u. page_of m.pages u j) (sym h.tag_now)) in
          rw (same, ef)
            (tr.recorded j f (omega (arith, en)) (ap (λ (q : MmuPage). q.frame) (sym same) ∙ ej))
    ];
  }
    where
      at_now : (j : ℕ) → current_page vm m' j ≡ page_of (set_page m.pages (pos t) i p) (pos h.now) j
      at_now j = ap₂ (λ g u. page_of g u j) ep (et ∙ h.tag_now)

  pub enter_page-Sound :
      (m : Mmu vm) (t i f protection : ℕ)
      → Sound m
      → t < num_tag
      → i < m.num_pages
      → f < m.num_frames
      → protection ≤ 3
      → m.num_maps ≢ m.max_maps
      → is_mapped (page_of m.pages (pos t) i) ≡ false
      → Sound (enter_page vm m (pos t) i f protection)
  unfolding enter_page
  enter_page-Sound m t i f protection s ht hi hf hp ne free = record {
    inv = enter_page-Inv vm m t i f protection s.inv ht hi hf hp ne free;
    tracks =
        quiet-Tracks m (enter_page vm m (pos t) i f protection) t i _ s.inv s.tracks ht hi refl refl
          refl refl refl;
  }

  pub clear_page-Sound :
      (m : Mmu vm) (t i : ℕ)
      → Sound m
      → t < num_tag
      → i < m.num_pages
      → is_mapped (page_of m.pages (pos t) i) ≡ true
      → Sound (clear_page vm m (pos t) i)
  unfolding clear_page
  clear_page-Sound m t i s ht hi used = record {
    inv = clear_page-Inv vm m t i s.inv ht hi used;
    tracks =
        quiet-Tracks m (clear_page vm m (pos t) i) t i no_page s.inv s.tracks ht hi refl refl refl
          refl refl;
  }
