-- ===== src/Mmu/Clearing.antt =====
-- The first loop of `USLOSS_MmuSetPageTable` of src/mmu.c: no page of tag 0 is mapped afterwards.
use usloss.Base.{
  ℕ, zero, suc, ◌+◌, ◌<◌, ◌≤◌, ◌≡◌, ◌≢◌, refl, sym, ◌∙◌, inr, true, false, ℤ, pos, arith, Option,
  none, done, pos_inj, index-not_out,
}
use mathlib.Core.Path.{subst}
use native.Mathlib.Decide.{ℕ_discrete}
use usloss.Mmu.Types.{Status, is_mapped, Vm, page_of}
use usloss.Mmu.Pages.{Mmu, clear_page, get_map}
use usloss.Mmu.Cases.{UnmapError}
use usloss.Mmu.Sound.{Sound}
use usloss.Mmu.Switch.{unmap_all}
use usloss.Mmu.Mapping.{UnmapEnd, unmap_page-UnmapEnd, clear_page-Changed}

-- What `USLOSS_MmuGetMap` answers about a page that is not mapped.
abbrev pub nothing : Status × Option (ℤ × ℕ)
nothing = (Status.err_nomap, none)

module _ (vm : Vm) where
  -- The answer of `USLOSS_MmuGetMap` about page i of tag 0.
  abbrev pub answer : Mmu vm → ℕ → Status × Option (ℤ × ℕ)
  answer m i = get_map vm m (pos 0) (pos i) true true

  answer_free :
      (m : Mmu vm) (i : ℕ)
      → i < m.num_pages
      → is_mapped (page_of m.pages (pos 0) i) ≡ false
      → answer m i ≡ nothing
  unfolding get_map
  answer_free m i h e = rw (index-not_out i m.num_pages h, e)

  -- What a loop over the pages from i on keeps: the state is sound, and the pages before i and the
  -- number of pages are as they were.
  pub record Kept (m m' : Mmu vm) (i : ℕ) : Type 0 where
    pub sound : Sound vm m'
    pub pages : m'.num_pages ≡ m.num_pages
    pub before : (j : ℕ) → j < i → answer m' j ≡ answer m j

  -- One step of the first loop.
  record Freed (m m' : Mmu vm) (i : ℕ) : Type 0 where
    sound : Sound vm m'
    pages : m'.num_pages ≡ m.num_pages
    here : answer m' i ≡ nothing
    others : (j : ℕ) → i ≢ j → answer m' j ≡ answer m j

  unmap_all_step :
      (n i : ℕ) (m : Mmu vm)
      → Sound vm m
      → i < m.num_pages
      → (m' : Mmu vm) × (unmap_all vm (suc n) i m ≡ unmap_all vm n (suc i) m') × Freed m m' i
  unfolding unmap_all
  unmap_all_step n i m s h = elim (unmap_page-UnmapEnd vm m (pos 0) (pos i) s) [
    | UnmapEnd.refused _ (UnmapError.bad_page out) r ↦ absurd (out (i, refl, h))
    | UnmapEnd.refused _ (UnmapError.bad_tag out) r ↦ absurd (out (0, refl, omega arith))
    | UnmapEnd.refused _ (UnmapError.no_map t j et ej free) r ↦ (
      m,
      rw r,
      record {
        sound = s;
        pages = refl;
        here = answer_free m i h (
            subst (λ u. is_mapped (page_of m.pages u i) ≡ false) (sym et)
              (subst (λ k. is_mapped (page_of m.pages (pos t) k) ≡ false) (sym (pos_inj ej)) free));
        others = λ j ne. refl;
      },
    )
    | UnmapEnd.cleared t j et ej ht hj used r s' ↦
        let m' = clear_page vm m (pos t) j in
        let c = clear_page-Changed vm m t j s.inv ht hj in
        (
          m',
          rw r,
          record {
            sound = s';
            pages = unfold clear_page in refl;
            here = rw (et, pos_inj ej) c.here;
            others = λ k ne. rw et (c.others t k (inr (rw (pos_inj ej) at ne)));
          },
        )
  ]

  -- The first loop frees every page from i on.
  pub unmap_all-frees :
      (n i : ℕ) (m : Mmu vm)
      → Sound vm m
      → i + n ≤ m.num_pages
      → (m' : Mmu vm) × (unmap_all vm n i m ≡ done (Status.ok, m'))
        × Kept m m' i
        × ((j : ℕ) → i ≤ j → j < i + n → answer m' j ≡ nothing)
  unfolding unmap_all
  unmap_all-frees zero i m s le = (
    m,
    refl,
    record { sound = s; pages = refl; before = λ j lt. refl },
    λ j lo hi. absurd (omega arith),
  )
  unmap_all-frees (suc n) i m s le =
      let (m1, e, f) = unmap_all_step n i m s (omega arith) in
      let (m2, e', k, free) = unmap_all-frees n (suc i) m1 f.sound (omega (arith, f.pages)) in
      (
        m2,
        e ∙ e',
        record {
          sound = k.sound;
          pages = k.pages ∙ f.pages;
          before = λ j lt. k.before j (omega arith) ∙ f.others j (omega arith);
        },
        λ j lo hi. elim (ℕ_discrete i j) [
          | yes q ↦ rw (← q) (k.before i (omega arith) ∙ f.here)
          | no ne ↦ free j (omega arith) (omega arith)
        ],
      )
