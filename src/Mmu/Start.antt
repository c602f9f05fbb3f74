-- ===== src/Mmu/Start.antt =====
-- `USLOSS_MmuInit` and `USLOSS_MmuDone` of src/mmu.c: the first state of the MMU is sound.
use usloss.Base.{
  ℕ, zero, suc, ◌+◌, ◌*◌, ◌<◌, ◌≤◌, ◌≡◌, ◌≢◌, refl, sym, ap, ◌∙◌, true, false, ◌&&◌, ◌||◌, ℤ, pos,
  negsuc, arith, if◌then◌else◌, Option, some, none, ltb, leb, ◌==◌, replicate, length-replicate,
  get_or-replicate, index, Result, done, if_ind,
}
use usloss.Mmu.Types.{
  Status, Mode, tlb, pagetable, prot_none, MmuPage, no_page, is_mapped, Vm, Mapping, page_of,
  num_tag, page_addr,
}
use usloss.Mmu.Pages.{Mmu, mmu_touch}
use usloss.Mmu.Config.{Host, below_one, choose_mode, started, start_chosen, mmu_init, MmuPtr}
use usloss.Mmu.Grid.{replicate-IsGrid, mapped-replicate}
use usloss.Mmu.Inv.{empty, hidden}
use usloss.Mmu.Sound.{Sound}

-- No entry of the first tables is mapped.
page_of-replicate :
    (n t i : ℕ) → page_of (replicate num_tag (replicate n no_page)) (pos t) i ≡ no_page
page_of-replicate n zero i = get_or-replicate n i no_page
page_of-replicate n (suc zero) i = get_or-replicate n i no_page
page_of-replicate n (suc (suc zero)) i = get_or-replicate n i no_page
page_of-replicate n (suc (suc (suc zero))) i = get_or-replicate n i no_page
page_of-replicate n (suc (suc (suc (suc t)))) i = refl

module _ (vm : Vm) where
  open vm use {View, fresh, mprotect, at, at-fresh, at-mprotect}

  -- The protected block, of which the region is all but the first page and the last.
  abbrev pub closed_view : ℕ → View
  closed_view pages = mprotect (fresh (pages + 2)) 0 (pages + 2) prot_none

  at-closed_view : (pages i : ℕ) → i < pages + 2 → (at (closed_view pages) i).prot ≡ prot_none
  at-closed_view pages i h =
      let e : (leb 0 i && ltb i (0 + (pages + 2))) ≡ true = ground arith in
      let r : (at (closed_view pages) i).prot
          ≡ (if leb 0 i && ltb i (0 + (pages + 2))
              then record { backing = (at (fresh (pages + 2)) i).backing; prot = prot_none }
              else at (fresh (pages + 2)) i).prot =
        ap (λ (x : Mapping). x.prot) (at-mprotect (fresh (pages + 2)) 0 (pages + 2) i prot_none) in
      rw e at r

  pub started-Sound :
      (host : Host) (mode : Mode) (maps pages frames : ℕ)
      → Sound vm (started vm host mode maps pages frames (closed_view pages))
  started-Sound host mode maps pages frames = record {
    inv = record {
      now = 0;
      now_in = omega arith;
      tag_now = refl;
      grid = replicate-IsGrid pages;
      frames_full = length-replicate frames 0;
      counted = sym (mapped-replicate num_tag pages);
      room = omega arith;
      entries = λ t i _ _. empty (page_of-replicate pages t i);
      idle = λ t i _ _ _. ap (λ (p : MmuPage). p.real_prot) (page_of-replicate pages t i);
      view = λ i hi.
          hidden (ap is_mapped (page_of-replicate pages 0 i))
            (at-closed_view pages (page_addr i) (omega arith));
    };
    tracks = record {
      bits = λ f. rw (get_or-replicate {A = ℕ} frames f 0) (omega arith);
      recorded = λ i f _ e. rw (page_of-replicate pages 0 i) tt;
    };
  }

  -- How `USLOSS_MmuInit` ends while the MMU is off.
  pub data InitEnd (host : Host) (num_maps num_pages num_frames : ℤ) (mode : ℕ)
      (out : Result (Status × MmuPtr vm)) : Type 0 where
    rejected :
        (s : Status)
        → s ≢ Status.ok
        → out ≡ done (s, none)
        → InitEnd host num_maps num_pages num_frames mode out
    on :
        (chosen : Mode) (maps pages frames : ℕ)
        → num_pages ≡ pos pages
        → 1 ≤ pages
        → num_frames ≡ pos frames
        → 1 ≤ frames
        → choose_mode mode num_maps pages ≡ (Status.ok, some (chosen, maps))
        → (m : Mmu vm) → out ≡ done (Status.ok, some m)
        → Sound vm m
        → m.num_pages ≡ pages
        → m.num_frames ≡ frames
        → m.max_maps ≡ maps
        → m.num_maps ≡ 0
        → InitEnd host num_maps num_pages num_frames mode out

  -- What `choose_mode` gives: no mode and an error, or a mode and USLOSS_MMU_OK.
  data Choice (r : Status × Option (Mode × ℕ)) : Type 0 where
    refused : (s : Status) → s ≢ Status.ok → r ≡ (s, none) → Choice r
    chosen : (mode : Mode) (maps : ℕ) → r ≡ (Status.ok, some (mode, maps)) → Choice r

  choose_mode-Choice :
      (mode : ℕ) (num_maps : ℤ) (pages : ℕ) → Choice (choose_mode mode num_maps pages)
  unfolding choose_mode
  choose_mode-Choice mode num_maps pages =
      if_ind Choice (mode == 2) (λ _. chosen pagetable pages refl)
        (λ _.
          if_ind Choice (mode == 1)
            (λ _.
              if_ind Choice (below_one num_maps || ltb (pages * num_tag) (index num_maps))
                (λ _. refused Status.err_maps (λ e. cc) refl)
                (λ _. chosen tlb (index num_maps) refl))
            (λ _. refused Status.err_mode (λ e. cc) refl))

  -- The first page of the block can be touched before the protection and not after it.
  mmu_touch-fresh : (n : ℕ) → 1 ≤ n → mmu_touch vm (fresh n) 0 ≡ true
  unfolding mmu_touch
  mmu_touch-fresh n h = rw (at-fresh n 0 h) refl

  mmu_touch-closed_view : (pages : ℕ) → mmu_touch vm (closed_view pages) 0 ≡ false
  unfolding mmu_touch
  mmu_touch-closed_view pages = rw (at-closed_view pages 0 (omega arith)) refl

  start_chosen-started :
      (host : Host) (pages frames : ℕ) (mode : Mode) (maps : ℕ)
      → start_chosen vm host pages frames (Status.ok, some (mode, maps))
        ≡ done (Status.ok, some (started vm host mode maps pages frames (closed_view pages)))
  unfolding start_chosen
  start_chosen-started host pages frames mode maps =
      rw (mmu_touch-fresh (pages + 2) (omega arith), mmu_touch-closed_view pages) refl

  start_chosen-InitEnd :
      (host : Host) (num_maps : ℤ) (pages frames mode : ℕ) (r : Status × Option (Mode × ℕ))
      → 1 ≤ pages
      → 1 ≤ frames
      → choose_mode mode num_maps pages ≡ r
      → Choice r
      → InitEnd host num_maps (pos pages) (pos frames) mode (start_chosen vm host pages frames r)
  unfolding start_chosen
  start_chosen-InitEnd host num_maps pages frames mode r lp lf q (refused s ne e) =
      rejected s ne (rw e refl)
  start_chosen-InitEnd host num_maps pages frames mode r lp lf q (chosen md maps e) =
      on md maps pages frames refl lp refl lf (q ∙ e)
        (started vm host md maps pages frames (closed_view pages))
        (rw e (start_chosen-started host pages frames md maps))
        (started-Sound host md maps pages frames) refl refl refl refl

  pub mmu_init-InitEnd :
      (host : Host) (num_maps num_pages num_frames : ℤ) (mode : ℕ)
      → InitEnd host num_maps num_pages num_frames mode
          (mmu_init vm none host num_maps num_pages num_frames mode)
  unfolding mmu_init
  mmu_init-InitEnd host num_maps (negsuc _) num_frames mode =
      rejected Status.err_page (λ e. cc) refl
  mmu_init-InitEnd host num_maps (pos pages) (negsuc _) mode =
      if_ind (InitEnd host num_maps (pos pages) (negsuc _) mode) (pages == 0)
        (λ _. rejected Status.err_page (λ e. cc) refl)
        (λ _. rejected Status.err_frame (λ e. cc) refl)
  mmu_init-InitEnd host num_maps (pos pages) (pos frames) mode =
      if_ind (InitEnd host num_maps (pos pages) (pos frames) mode) (pages == 0)
        (λ _. rejected Status.err_page (λ e. cc) refl)
        (λ hp.
          if_ind (InitEnd host num_maps (pos pages) (pos frames) mode) (frames == 0)
            (λ _. rejected Status.err_frame (λ e. cc) refl)
            (λ hf.
              start_chosen-InitEnd host num_maps pages frames mode _ (ground arith) (ground arith)
                refl (choose_mode-Choice mode num_maps pages)))
