-- ===== src/Mmu/Tags.antt =====
-- `SetTag` of src/mmu.c: the pages of the old tag are hidden and those of the new one shown.
use usloss.Base.{
  ℕ, zero, suc, ◌+◌, ◌<◌, ◌≤◌, ◌≡◌, refl, sym, ap, ◌∙◌, inl, inr, false, pos, arith, Bool-cases,
  bool_clash, done,
}
use mathlib.Core.Path.{subst, ap₂}
use native.Mathlib.Decide.{ℕ_discrete}
use usloss.Mmu.Types.{Prot, prot_none, MmuPage, is_mapped, Vm, page_of, num_tag, set_page}
use usloss.Mmu.Pages.{Mmu, current_page, write_real_prot}
use usloss.Mmu.Switch.{hide_pages}
use usloss.Mmu.Grid.{read_back, written, kept}
use usloss.Mmu.Inv.{Inv, empty, filled}
use usloss.Mmu.Protect.{set_real_prot_lem, current_page-now}
use usloss.Mmu.Keep.{is_mapped-filled}
use usloss.Mmu.Track.{current_page-write}

module _ (vm : Vm) where
  open vm use {View, at, mmap}

  -- The mappings are the same under every tag: frames and asked protections.
  pub record SameMaps (m m' : Mmu vm) : Type 0 where
    pub frame :
        (t j : ℕ)
        → t < num_tag
        → (page_of m'.pages (pos t) j).frame ≡ (page_of m.pages (pos t) j).frame
    pub virt :
        (t j : ℕ)
        → t < num_tag
        → (page_of m'.pages (pos t) j).virt_prot ≡ (page_of m.pages (pos t) j).virt_prot

  -- What the first loop leaves.
  pub record Hidden (m : Mmu vm) (upto : ℕ) (m' : Mmu vm) : Type 0 where
    pub inv : Inv vm m'
    pub maps : SameMaps m m'
    pub tag : m'.tag ≡ m.tag
    pub frames : m'.frames ≡ m.frames
    pub num_pages : m'.num_pages ≡ m.num_pages
    pub none_left : (j : ℕ) → j < upto → (current_page vm m' j).real_prot ≡ prot_none

  write_real_prot-SameMaps :
      (m : Mmu vm) (i : ℕ) (prot : Prot)
      → Inv vm m
      → i < m.num_pages
      → SameMaps m (write_real_prot vm m i prot)
  unfolding write_real_prot
  write_real_prot-SameMaps m i prot h hi = record {
    frame = λ t j ht. same (λ q. q.frame) refl t j;
    virt = λ t j ht. same (λ q. q.virt_prot) refl t j;
  }
    where
      p : MmuPage
      p = record (current_page vm m i) { real_prot = prot }

      same :
          {A : Type 0} (field : MmuPage → A)
          → field p ≡ field (current_page vm m i)
          → (t j : ℕ)
          → field (page_of (set_page m.pages m.tag i p) (pos t) j)
            ≡ field (page_of m.pages (pos t) j)
      same field e t j =
          subst
            (λ u.
              field (page_of (set_page m.pages u i p) (pos t) j)
              ≡ field (page_of m.pages (pos t) j))
            (sym h.tag_now)
            (elim (read_back m.pages m.num_pages h.now i p t j h.grid h.now_in hi) [
              | written et ei r ↦
                  ap field r
                  ∙ (e
                      ∙ (ap field (current_page-now vm m i h)
                          ∙ ap₂ (λ u k. field (page_of m.pages (pos u) k)) et ei))
              | kept _ r ↦ ap field r
            ])

  SameMaps-trans : (a b c : Mmu vm) → SameMaps a b → SameMaps b c → SameMaps a c
  SameMaps-trans a b c p q = record {
    frame = λ t j ht. q.frame t j ht ∙ p.frame t j ht;
    virt = λ t j ht. q.virt t j ht ∙ p.virt t j ht;
  }

  -- Hiding one more page.
  Hidden-step :
      (m m' : Mmu vm) (i upto : ℕ)
      → Inv vm m
      → i < m.num_pages
      → ((j : ℕ) → j < i → (current_page vm m j).real_prot ≡ prot_none)
      → (Hidden (write_real_prot vm m i prot_none) upto m')
      → Hidden m upto m'
  unfolding write_real_prot
  Hidden-step m m' i upto h hi low p = record {
    inv = p.inv;
    maps =
        SameMaps-trans m (write_real_prot vm m i prot_none) m'
          (write_real_prot-SameMaps m i prot_none h hi) p.maps;
    tag = p.tag;
    frames = p.frames;
    num_pages = p.num_pages;
    none_left = p.none_left;
  }

  low_next :
      (m : Mmu vm) (i : ℕ)
      → Inv vm m
      → i < m.num_pages
      → ((j : ℕ) → j < i → (current_page vm m j).real_prot ≡ prot_none)
      → (j : ℕ) → j < suc i
      → (current_page vm (write_real_prot vm m i prot_none) j).real_prot ≡ prot_none
  low_next m i h hi low j lt = elim (current_page-write vm m i j prot_none h hi) [
    | inl (_, w) ↦ ap (λ (q : MmuPage). q.real_prot) w
    | inr (ne, w) ↦ ap (λ (q : MmuPage). q.real_prot) w ∙ low j (omega arith)
  ]

  low_empty :
      (m : Mmu vm) (i : ℕ)
      → Inv vm m
      → i < m.num_pages
      → is_mapped (current_page vm m i) ≡ false
      → (current_page vm m i).real_prot ≡ prot_none
  low_empty m i h hi free = elim (h.entries h.now i h.now_in hi) [
    | empty e ↦ ap (λ (q : MmuPage). q.real_prot) (current_page-now vm m i h ∙ e)
    | filled f ef _ _ ↦
        bool_clash
          (is_mapped-filled (current_page vm m i) f
            (ap (λ (q : MmuPage). q.frame) (current_page-now vm m i h) ∙ ef))
          free
  ]

  pages_after :
      (m : Mmu vm) (i n : ℕ)
      → i + suc n ≤ m.num_pages
      → suc i + n ≤ (write_real_prot vm m i prot_none).num_pages
  unfolding write_real_prot
  pages_after m i n le = omega arith

  pub hide_pages-Hidden :
      (n i : ℕ) (m : Mmu vm)
      → Inv vm m
      → i + n ≤ m.num_pages
      → ((j : ℕ) → j < i → (current_page vm m j).real_prot ≡ prot_none)
      → (m' : Mmu vm) × (hide_pages vm n i m ≡ done m') × Hidden m (i + n) m'
  unfolding hide_pages
  hide_pages-Hidden zero i m h le low = (
    m,
    refl,
    record {
      inv = h;
      maps = record { frame = λ t j ht. refl; virt = λ t j ht. refl };
      tag = refl;
      frames = refl;
      num_pages = refl;
      none_left = λ j lt. low j (omega arith);
    },
  )
  hide_pages-Hidden (suc n) i m h le low = elim (Bool-cases (is_mapped (current_page vm m i))) [
    | inl used ↦
        let (es, h') = set_real_prot_lem vm m i prot_none h (omega arith) used in
        let (m', er, p) =
          hide_pages-Hidden n (suc i) (write_real_prot vm m i prot_none) h' (pages_after m i n le)
            (low_next m i h (omega arith) low) in
        let e : i + suc n ≡ suc i + n = omega arith in
        (m', rw (used, es) er, Hidden-step m m' i (i + suc n) h (omega arith) low (rw e p))
    | inr free ↦
        let (m', er, p) = hide_pages-Hidden n (suc i) m h (omega arith) (λ j lt.
          elim (ℕ_discrete i j) [
            | yes e ↦ rw (← e) (low_empty m i h (omega arith) free)
            | no ne ↦ low j (omega arith)
          ]) in
        let e : i + suc n ≡ suc i + n = omega arith in (m', rw free er, rw e p)
  ]
