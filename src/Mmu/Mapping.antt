-- ===== src/Mmu/Mapping.antt =====
-- `Map` and `Unmap` of src/mmu.c from outside: every branch, and what `USLOSS_MmuGetMap` reads
-- afterwards.
use usloss.Base.{
  ℕ, ◌+◌, ◌<◌, ◌≤◌, ◌≡◌, ◌≢◌, refl, sym, ap, ◌∙◌, ◌⊎◌, inl, inr, true, false, ℤ, pos, arith, Option,
  some, none, le→leb, done, pos_inj, index-not_out, done_fst, done_snd,
}
use usloss.Mmu.Types.{
  Status, prot_none, MmuPage, no_page, is_mapped, Vm, page_of, num_tag, set_page,
}
use usloss.Mmu.Pages.{
  Mmu, Outcome, enter_page, clear_page, map_page, unmap_page, do_map, do_unmap, get_map,
}
use usloss.Mmu.Cases.{
  MapError, MapCase, map_page-MapCase, UnmapError, UnmapCase, unmap_page-UnmapCase,
}
use usloss.Mmu.Grid.{read_back, written, kept, mapped, mapped-set_page}
use usloss.Mmu.Inv.{Inv}
use usloss.Mmu.Keep.{clear_page-untouched}
use usloss.Mmu.Sound.{Sound, enter_page-Sound, clear_page-Sound}

module _ (vm : Vm) where
  -- How `Map` ends: refused, with the reason that the status names and the state as it was, or with
  -- USLOSS_MMU_OK and one more page mapped.
  pub data MapEnd (m : Mmu vm) (tag page frame : ℤ) (protection : ℕ) (out : Outcome vm)
      : Type 0 where
    refused :
        (s : Status)
        → MapError vm m tag page frame protection s
        → out ≡ done (s, m)
        → MapEnd m tag page frame protection out
    entered :
        (t i f : ℕ)
        → tag ≡ pos t
        → page ≡ pos i
        → frame ≡ pos f
        → t < num_tag
        → i < m.num_pages
        → f < m.num_frames
        → protection ≤ 3
        → is_mapped (page_of m.pages (pos t) i) ≡ false
        → m.num_maps < m.max_maps
        → out ≡ done (Status.ok, enter_page vm m (pos t) i f protection)
        → Sound vm (enter_page vm m (pos t) i f protection)
        → MapEnd m tag page frame protection out

  -- In a sound state `Map` ends, for any arguments, in one of these ways: no assertion fails. A
  -- refusal leaves the state alone, and success needs a tag, a page and a frame in range, a
  -- protection of two bits, a page that is not mapped and room for one more mapping.
  pub map_page-MapEnd :
      (m : Mmu vm) (tag page frame : ℤ) (protection : ℕ)
      → Sound vm m
      → MapEnd m tag page frame protection (map_page vm m tag page frame protection)
  unfolding do_map
  map_page-MapEnd m tag page frame protection s =
      elim (map_page-MapCase vm m tag page frame protection) [
        | MapCase.refused st why e ↦ refused st why e
        | MapCase.entered t i f et ei ef ht hi hf hp ne free e ↦
            entered t i f et ei ef ht hi hf hp free (omega (arith, s.inv.room))
              (e ∙ rw (le→leb (m.num_maps + 1) m.max_maps (omega (arith, s.inv.room))))
              (enter_page-Sound vm m t i f protection s ht hi hf hp ne free)
      ]

  pub data UnmapEnd (m : Mmu vm) (tag page : ℤ) (out : Outcome vm) : Type 0 where
    refused :
        (s : Status) → UnmapError vm m tag page s → out ≡ done (s, m) → UnmapEnd m tag page out
    cleared :
        (t i : ℕ)
        → tag ≡ pos t
        → page ≡ pos i
        → t < num_tag
        → i < m.num_pages
        → is_mapped (page_of m.pages (pos t) i) ≡ true
        → out ≡ done (Status.ok, clear_page vm m (pos t) i)
        → Sound vm (clear_page vm m (pos t) i)
        → UnmapEnd m tag page out

  -- `Unmap` likewise: in a sound state it ends for any arguments and no assertion fails; a refusal
  -- leaves the state alone, and success needs a tag and a page in range and a page that is mapped.
  pub unmap_page-UnmapEnd :
      (m : Mmu vm) (tag page : ℤ) → Sound vm m → UnmapEnd m tag page (unmap_page vm m tag page)
  unfolding do_unmap
  unmap_page-UnmapEnd m tag page s = elim (unmap_page-UnmapCase vm m tag page) [
    | UnmapCase.refused st why e ↦ UnmapEnd.refused st why e
    | UnmapCase.cleared t i et ei ht hi used e ↦
        cleared t i et ei ht hi used (e ∙ rw (clear_page-untouched vm m t i s.inv))
          (clear_page-Sound vm m t i s ht hi used)
  ]

  -- `USLOSS_MmuGetMap` reads one entry.
  get_map_mapped :
      (m : Mmu vm) (t i f virt : ℕ)
      → t < num_tag
      → i < m.num_pages
      → page_of m.pages (pos t) i
        ≡ record { frame = pos f; virt_prot = virt; real_prot = prot_none }
      → get_map vm m (pos t) (pos i) true true ≡ (Status.ok, some (pos f, virt))
  unfolding get_map
  get_map_mapped m t i f virt ht hi e =
      rw (index-not_out i m.num_pages hi, index-not_out t num_tag ht, e)

  get_map_empty :
      (m : Mmu vm) (t i : ℕ)
      → t < num_tag
      → i < m.num_pages
      → page_of m.pages (pos t) i ≡ no_page
      → get_map vm m (pos t) (pos i) true true ≡ (Status.err_nomap, none)
  unfolding get_map
  get_map_empty m t i ht hi e = rw (index-not_out i m.num_pages hi, index-not_out t num_tag ht, e)

  get_map_same :
      (m m' : Mmu vm) (u j : ℕ)
      → m'.num_pages ≡ m.num_pages
      → page_of m'.pages (pos u) j ≡ page_of m.pages (pos u) j
      → get_map vm m' (pos u) (pos j) true true ≡ get_map vm m (pos u) (pos j) true true
  unfolding get_map
  get_map_same m m' u j en e = rw (en, e)

  -- The entry that is written, and the others, as `USLOSS_MmuGetMap` reads them.
  read_others :
      (m m' : Mmu vm) (t i : ℕ) (p : MmuPage) (u j : ℕ)
      → Inv vm m
      → t < num_tag
      → i < m.num_pages
      → m'.num_pages ≡ m.num_pages
      → m'.pages ≡ set_page m.pages (pos t) i p
      → (t ≢ u) ⊎ (i ≢ j)
      → get_map vm m' (pos u) (pos j) true true ≡ get_map vm m (pos u) (pos j) true true
  read_others m m' t i p u j h ht hi en ep ne =
      get_map_same m m' u j en (elim (read_back m.pages m.num_pages t i p u j h.grid ht hi) [
        | written et ei _ ↦ elim ne [ inl n ↦ absurd (n et) | inr n ↦ absurd (n ei) ]
        | kept _ r ↦ ap (λ g. page_of g (pos u) j) ep ∙ r
      ])

  pub read_written :
      (m m' : Mmu vm) (t i : ℕ) (p : MmuPage)
      → Inv vm m
      → t < num_tag
      → i < m.num_pages
      → m'.pages ≡ set_page m.pages (pos t) i p
      → page_of m'.pages (pos t) i ≡ p
  read_written m m' t i p h ht hi ep = elim (read_back m.pages m.num_pages t i p t i h.grid ht hi) [
    | written _ _ r ↦ ap (λ g. page_of g (pos t) i) ep ∙ r
    | kept ne _ ↦ absurd (ne refl refl)
  ]

  -- What `USLOSS_MmuGetMap` answers about one page, and that its answers about others stay.
  pub record Changed (m m' : Mmu vm) (t i : ℕ) (answer : Status × Option (ℤ × ℕ)) : Type 0 where
    pub here : get_map vm m' (pos t) (pos i) true true ≡ answer
    pub others :
        (u j : ℕ)
        → (t ≢ u) ⊎ (i ≢ j)
        → get_map vm m' (pos u) (pos j) true true ≡ get_map vm m (pos u) (pos j) true true

  pub enter_page-Changed :
      (m : Mmu vm) (t i f virt : ℕ)
      → Inv vm m
      → t < num_tag
      → i < m.num_pages
      → Changed m (enter_page vm m (pos t) i f virt) t i (Status.ok, some (pos f, virt))
  unfolding enter_page
  enter_page-Changed m t i f virt h ht hi =
      let m' = enter_page vm m (pos t) i f virt in
      record {
        here = get_map_mapped m' t i f virt ht hi (read_written m m' t i _ h ht hi refl);
        others = λ u j ne. read_others m m' t i _ u j h ht hi refl refl ne;
      }

  pub clear_page-Changed :
      (m : Mmu vm) (t i : ℕ)
      → Inv vm m
      → t < num_tag
      → i < m.num_pages
      → Changed m (clear_page vm m (pos t) i) t i (Status.err_nomap, none)
  unfolding clear_page
  clear_page-Changed m t i h ht hi =
      let m' = clear_page vm m (pos t) i in
      record {
        here = get_map_empty m' t i ht hi (read_written m m' t i no_page h ht hi refl);
        others = λ u j ne. read_others m m' t i no_page u j h ht hi refl refl ne;
      }

  pub MapError-ne_ok :
      (m : Mmu vm) (tag page frame : ℤ) (protection : ℕ) {s : Status}
      → MapError vm m tag page frame protection s
      → s ≢ Status.ok
  MapError-ne_ok m tag page frame protection (MapError.bad_page _) = λ e. cc
  MapError-ne_ok m tag page frame protection (MapError.bad_frame _) = λ e. cc
  MapError-ne_ok m tag page frame protection (MapError.no_room _) = λ e. cc
  MapError-ne_ok m tag page frame protection (MapError.bad_prot _) = λ e. cc
  MapError-ne_ok m tag page frame protection (MapError.bad_tag _) = λ e. cc
  MapError-ne_ok m tag page frame protection (MapError.remap _ _ _ _ _) = λ e. cc

  UnmapError-ne_ok :
      (m : Mmu vm) (tag page : ℤ) {s : Status} → UnmapError vm m tag page s → s ≢ Status.ok
  UnmapError-ne_ok m tag page (UnmapError.bad_page _) = λ e. cc
  UnmapError-ne_ok m tag page (UnmapError.bad_tag _) = λ e. cc
  UnmapError-ne_ok m tag page (UnmapError.no_map _ _ _ _ _) = λ e. cc

  -- The state after a successful `Map` or `Unmap`.
  pub record Done (m m' : Mmu vm) (t i : ℕ) (answer : Status × Option (ℤ × ℕ)) (more less : ℕ)
      : Type 0 where
    pub changed : Changed m m' t i answer
    pub sound : Sound vm m'
    pub counted : m'.num_maps + less ≡ m.num_maps + more

  -- After a successful `Map` of a page `USLOSS_MmuGetMap` answers the frame and the protection that
  -- were asked for, its answers about all other pages are what they were, and there is one mapping
  -- more.
  pub get_map-map_page :
      (m m' : Mmu vm) (t i f protection : ℕ)
      → Sound vm m
      → map_page vm m (pos t) (pos i) (pos f) protection ≡ done (Status.ok, m')
      → Done m m' t i (Status.ok, some (pos f, protection)) 1 0
  get_map-map_page m m' t i f protection s e =
      elim (map_page-MapEnd m (pos t) (pos i) (pos f) protection s) [
        | refused st why r ↦
            absurd (MapError-ne_ok m (pos t) (pos i) (pos f) protection why (done_fst (sym r ∙ e)))
        | entered t' i' f' et ei ef ht hi _ _ _ _ r s' ↦
            let out : enter_page vm m (pos t) i f protection ≡ m' =
              rw (pos_inj et, pos_inj ei, pos_inj ef) (done_snd (sym r ∙ e)) in
            rw (← out) (
              finish (rw (pos_inj et) ht) (rw (pos_inj ei) hi)
                (rw (pos_inj et, pos_inj ei, pos_inj ef) s'))
      ]
    where
      finish :
          t < num_tag
          → i < m.num_pages
          → Sound vm (enter_page vm m (pos t) i f protection)
          → Done m
              (enter_page vm m (pos t) i f protection)
              t
              i
              (Status.ok, some (pos f, protection))
              1
              0
      finish ht hi s' = record {
        changed = enter_page-Changed m t i f protection s.inv ht hi;
        sound = s';
        counted = unfold enter_page in omega arith;
      }

  -- After a successful `Unmap` of a page `USLOSS_MmuGetMap` answers USLOSS_MMU_ERR_NOMAP about it,
  -- its answers about all other pages are what they were, and there is one mapping less.
  pub get_map-unmap_page :
      (m m' : Mmu vm) (t i : ℕ)
      → Sound vm m
      → unmap_page vm m (pos t) (pos i) ≡ done (Status.ok, m')
      → Done m m' t i (Status.err_nomap, none) 0 1
  get_map-unmap_page m m' t i s e = elim (unmap_page-UnmapEnd m (pos t) (pos i) s) [
    | UnmapEnd.refused st why r ↦
        absurd (UnmapError-ne_ok m (pos t) (pos i) why (done_fst (sym r ∙ e)))
    | cleared t' i' et ei ht hi used r s' ↦
        let out : clear_page vm m (pos t) i ≡ m' =
          rw (pos_inj et, pos_inj ei) (done_snd (sym r ∙ e)) in
        rw (← out) (
          finish (rw (pos_inj et) ht) (rw (pos_inj ei) hi) (rw (pos_inj et, pos_inj ei) used)
            (rw (pos_inj et, pos_inj ei) s'))
  ]
    where
      fewer :
          mapped (set_page m.pages (pos t) i no_page) + 1 ≡ mapped m.pages + 0
          → (clear_page vm m (pos t) i).num_maps ≡ mapped (clear_page vm m (pos t) i).pages
          → (clear_page vm m (pos t) i).num_maps + 1 ≡ m.num_maps + 0
      fewer c d = unfold clear_page in omega (arith, s.inv.counted)

      finish :
          t < num_tag
          → i < m.num_pages
          → is_mapped (page_of m.pages (pos t) i) ≡ true
          → Sound vm (clear_page vm m (pos t) i)
          → Done m (clear_page vm m (pos t) i) t i (Status.err_nomap, none) 0 1
      finish ht hi used s' = record {
        changed = clear_page-Changed m t i s.inv ht hi;
        sound = s';
        counted =
            fewer (rw used at (mapped-set_page m.pages m.num_pages t i no_page s.inv.grid ht hi))
              s'.inv.counted;
      }
