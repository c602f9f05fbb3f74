-- ===== src/Mmu/Keep.antt =====
-- `Map`, `Unmap` and `SetRealProt` of src/mmu.c keep the invariant, and none of their assertions
-- fails.
use usloss.Base.{
  ℕ, ◌+◌, ◌-◌, ◌<◌, ◌≤◌, ◌≡◌, ◌≢◌, refl, ap, ◌∙◌, inl, inr, Bool, true, false, not, ℤ, pos, arith,
  if◌then◌else◌, ==_ne, ==_refl, le→leb, Bool-cases, eq_ℤ, eq_ℤ_eq, done, pos_inj,
}
use usloss.Mmu.Types.{
  Status, Prot, prot_none, MmuPage, no_page, is_mapped, num_tag, page_of, set_page, Backing,
  in_frame, nowhere, Mapping, Vm, page_addr,
}
use usloss.Mmu.Pages.{
  Mmu, Outcome, mmu_touch, enter_page, clear_page, do_map, map_page, do_unmap, unmap_page,
}
use usloss.Mmu.Cases.{MapCase, map_page-MapCase, UnmapCase, unmap_page-UnmapCase}
use usloss.Mmu.Grid.{mapped, mapped-set_page}
use usloss.Mmu.Inv.{empty, filled, hidden, shown, Inv, write-Inv}

pub eq_ℤ_ne : (m n : ℕ) → m ≢ n → eq_ℤ (pos m) (pos n) ≡ false
eq_ℤ_ne m n h = ==_ne m n h

pub is_mapped-filled : (p : MmuPage) (f : ℕ) → p.frame ≡ pos f → is_mapped p ≡ true
is_mapped-filled p f e = rw e

pub is_mapped-empty : (p : MmuPage) → p ≡ no_page → is_mapped p ≡ false
is_mapped-empty p e = rw e

module _ (vm : Vm) where
  open vm use {View, at, mmap, at-mmap}

  -- The operation ends with a status, and the invariant holds afterwards.
  abbrev pub Keeps : Outcome vm → Type 0
  Keeps o = (r : Status × Mmu vm) × (o ≡ done r) × Inv vm r.1

  pub at-mmap_self :
      (v : View) (i : ℕ) (b : Backing) (p : Prot)
      → at (mmap v i b p) i ≡ record { backing = b; prot = p }
  at-mmap_self v i b p =
      at-mmap v i i b p
      ∙ ap (λ (c : Bool). if c then record { backing = b; prot = p } else at v i) (==_refl i)

  pub at-mmap_ne :
      (v : View) (i j : ℕ) (b : Backing) (p : Prot) → i ≢ j → at (mmap v i b p) j ≡ at v j
  at-mmap_ne v i j b p ne =
      at-mmap v i j b p
      ∙ ap (λ (c : Bool). if c then record { backing = b; prot = p } else at v j) (==_ne i j ne)

  -- A page is mapped anew only if its tag is the current one: what the region shows then.
  module _ (m : Mmu vm) (h : Inv vm m) (t i : ℕ) (b : Backing) (p : Prot) where
    remapped : View
    remapped = if eq_ℤ (pos t) m.tag then mmap m.view (page_addr i) b p else m.view

    remapped_other :
        (j : ℕ) → (i ≡ j → t ≢ h.now) → at remapped (page_addr j) ≡ at m.view (page_addr j)
    unfolding remapped
    remapped_other j ne = elim (Bool-cases (eq_ℤ (pos t) m.tag)) [
      | inl e ↦
          let et : t ≡ h.now = pos_inj (eq_ℤ_eq _ _ e ∙ h.tag_now) in
          rw e (at-mmap_ne m.view (page_addr i) (page_addr j) b p (λ q. ne (omega arith) et))
      | inr e ↦ rw e
    ]

    remapped_here : t ≡ h.now → at remapped (page_addr i) ≡ record { backing = b; prot = p }
    unfolding remapped
    remapped_here e =
        let e' : eq_ℤ (pos t) m.tag ≡ true = rw (h.tag_now, e, ==_refl h.now) in
        rw e' (at-mmap_self m.view (page_addr i) b p)

  pub enter_page-Inv :
      (m : Mmu vm) (t i f protection : ℕ)
      → Inv vm m
      → t < num_tag
      → i < m.num_pages
      → f < m.num_frames
      → protection ≤ 3
      → m.num_maps ≢ m.max_maps
      → is_mapped (page_of m.pages (pos t) i) ≡ false
      → Inv vm (enter_page vm m (pos t) i f protection)
  unfolding enter_page remapped
  enter_page-Inv m t i f protection h ht hi hf hp ne free =
      write-Inv vm m t i (m.num_maps + 1) p _ h ht hi (filled f refl hf hp) (λ _. refl)
        (omega
          (arith, h.counted, rw free at (mapped-set_page m.pages m.num_pages t i p h.grid ht hi)))
        (omega (arith, h.room)) (remapped_other m h t i (in_frame f) prot_none)
        (λ e. shown f refl (remapped_here m h t i (in_frame f) prot_none e))
    where
      p : MmuPage
      p = record { frame = pos f; virt_prot = protection; real_prot = prot_none }

  pub clear_page-Inv :
      (m : Mmu vm) (t i : ℕ)
      → Inv vm m
      → t < num_tag
      → i < m.num_pages
      → is_mapped (page_of m.pages (pos t) i) ≡ true
      → Inv vm (clear_page vm m (pos t) i)
  unfolding clear_page remapped
  clear_page-Inv m t i h ht hi used =
      write-Inv vm m t i (m.num_maps - 1) no_page _ h ht hi (empty refl) (λ _. refl)
        (omega (arith, h.counted, count)) (omega (arith, h.room))
        (remapped_other m h t i nowhere prot_none)
        (λ e.
          hidden refl (ap (λ (x : Mapping). x.prot) (remapped_here m h t i nowhere prot_none e)))
    where
      count : mapped (set_page m.pages (pos t) i no_page) + 1 ≡ mapped m.pages + 0
      count = rw used at (mapped-set_page m.pages m.num_pages t i no_page h.grid ht hi)

  -- `Map` ends with a status, whatever it is asked for, and keeps the invariant: the assertion on
  -- the number of mappings does not fail.
  pub map_page-Keeps :
      (m : Mmu vm) (tag page frame : ℤ) (protection : ℕ)
      → Inv vm m
      → Keeps (map_page vm m tag page frame protection)
  unfolding do_map
  map_page-Keeps m tag page frame protection h =
      elim (map_page-MapCase vm m tag page frame protection) [
        | MapCase.refused s _ e ↦ ((s, m), e, h)
        | MapCase.entered t i f et ei ef ht hi hf hp ne free e ↦ (
          (Status.ok, enter_page vm m (pos t) i f protection),
          e ∙ rw (le→leb (m.num_maps + 1) m.max_maps (omega (arith, h.room))),
          enter_page-Inv m t i f protection h ht hi hf hp ne free,
        )
      ]

  pub clear_page-untouched :
      (m : Mmu vm) (t i : ℕ)
      → Inv vm m
      → (if eq_ℤ (pos t) m.tag
          then not (mmu_touch vm (clear_page vm m (pos t) i).view (page_addr i))
          else true)
        ≡ true
  unfolding clear_page mmu_touch
  clear_page-untouched m t i h = elim (Bool-cases (eq_ℤ (pos t) m.tag)) [
    | inl e ↦ rw (e, at-mmap_self m.view (page_addr i) nowhere prot_none)
    | inr e ↦ rw e
  ]

  -- `Unmap` likewise: the page cannot be touched afterwards, so its assertion does not fail.
  pub unmap_page-Keeps : (m : Mmu vm) (tag page : ℤ) → Inv vm m → Keeps (unmap_page vm m tag page)
  unfolding do_unmap
  unmap_page-Keeps m tag page h = elim (unmap_page-UnmapCase vm m tag page) [
    | UnmapCase.refused s _ e ↦ ((s, m), e, h)
    | UnmapCase.cleared t i et ei ht hi used e ↦ (
      (Status.ok, clear_page vm m (pos t) i),
      e ∙ rw (clear_page-untouched m t i h),
      clear_page-Inv m t i h ht hi used,
    )
  ]
