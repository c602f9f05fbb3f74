-- ===== src/Mmu/SetTag.antt =====
-- The second loop of `SetTag` of src/mmu.c, and the whole operation.
use usloss.Base.{
  ℕ, zero, suc, ◌+◌, ◌<◌, ◌≤◌, ◌≡◌, ◌≢◌, refl, sym, ap, ◌∙◌, inl, inr, false, pos, minus_one, arith,
  if◌then◌else◌, Bool-cases, bool_clash, index, done, eq_ℤ, eq_ℤ_eq, eq_ℤ_refl, index-not_out,
}
use native.Mathlib.Decide.{ℕ_discrete}
use usloss.Mmu.Types.{
  Status, prot_none, MmuPage, is_mapped, Vm, Mapping, in_frame, page_of, page_addr, num_tag,
}
use usloss.Mmu.Pages.{Mmu, current_page}
use usloss.Mmu.Switch.{show_pages, enter_tag, set_tag, bad_tag, mmu_set_tag}
use usloss.Mmu.Inv.{Inv, empty, filled, Shows, hidden, shown}
use usloss.Mmu.Protect.{current_page-now}
use usloss.Mmu.Keep.{is_mapped-filled, is_mapped-empty, at-mmap_self, at-mmap_ne}
use usloss.Mmu.Track.{Tracks}
use usloss.Mmu.Tags.{SameMaps, Hidden, hide_pages-Hidden}

module _ (vm : Vm) where
  open vm use {View, at, mmap}

  -- What the region shows of a page that is shown anew.
  abbrev shown_as : MmuPage → Mapping → Mapping
  shown_as p old =
      if is_mapped p then record { backing = in_frame (index p.frame); prot = prot_none } else old

  show_before :
      (n i : ℕ) (m : Mmu vm) (v : View) (j : ℕ)
      → j < i
      → at (show_pages vm n i m v) (page_addr j) ≡ at v (page_addr j)
  unfolding show_pages
  show_before zero i m v j lt = refl
  show_before (suc n) i m v j lt =
      show_before n (suc i) m _ j (omega arith)
      ∙ elim (Bool-cases (is_mapped (current_page vm m i))) [
        | inl e ↦ rw e (at-mmap_ne vm v (page_addr i) (page_addr j) _ prot_none (omega arith))
        | inr e ↦ rw e
      ]

  show_range :
      (n i : ℕ) (m : Mmu vm) (v : View) (j : ℕ)
      → i ≤ j
      → j < i + n
      → at (show_pages vm n i m v) (page_addr j)
        ≡ shown_as (current_page vm m j) (at v (page_addr j))
  unfolding show_pages
  show_range zero i m v j le lt = absurd (omega arith)
  show_range (suc n) i m v j le lt = elim (ℕ_discrete i j) [
    | yes e ↦
        show_before n (suc i) m _ j (omega arith)
        ∙ elim (Bool-cases (is_mapped (current_page vm m i))) [
          | inl t ↦ rw (← e, t) (at-mmap_self vm v (page_addr i) _ prot_none)
          | inr t ↦ rw (← e, t)
        ]
    | no ne ↦
        show_range n (suc i) m _ j (omega arith) (omega arith)
        ∙ ap (shown_as (current_page vm m j)) (elim (Bool-cases (is_mapped (current_page vm m i))) [
          | inl t ↦
              rw t (at-mmap_ne vm v (page_addr i) (page_addr j) _ prot_none (λ q. ne (omega arith)))
          | inr t ↦ rw t
        ])
  ]

  -- With the pages of the old tag hidden nothing in the region can be accessed.
  all_hidden :
      (m : Mmu vm) (i : ℕ)
      → Inv vm m
      → i < m.num_pages
      → (current_page vm m i).real_prot ≡ prot_none
      → (at m.view (page_addr i)).prot ≡ prot_none
  all_hidden m i h hi e = elim (h.view i hi) [
    | hidden _ v ↦ v
    | shown f _ v ↦
        ap (λ (x : Mapping). x.prot) v
        ∙ (ap (λ (p : MmuPage). p.real_prot) (sym (current_page-now vm m i h)) ∙ e)
  ]

  enter_tag-Inv :
      (m : Mmu vm) (k : ℕ)
      → (h : Inv vm m) → k < num_tag
      → k ≢ h.now
      → ((j : ℕ) → j < m.num_pages → (current_page vm m j).real_prot ≡ prot_none)
      → Inv vm (enter_tag vm m (pos k))
  unfolding enter_tag
  enter_tag-Inv m k h hk ne low = record {
    now = k;
    now_in = hk;
    tag_now = refl;
    grid = h.grid;
    frames_full = h.frames_full;
    counted = h.counted;
    room = h.room;
    entries = h.entries;
    idle = λ t i ht hi nt. elim (ℕ_discrete t h.now) [
      | yes e ↦
          rw e (ap (λ (p : MmuPage). p.real_prot) (sym (current_page-now vm m i h)) ∙ low i hi)
      | no ne' ↦ h.idle t i ht hi ne'
    ];
    view = λ i hi.
        showing i hi (
          show_range m.num_pages 0 (record m { tag = pos k }) m.view i (omega arith) (omega arith));
  }
    where
      showing :
          (i : ℕ)
          → i < m.num_pages
          → {v : Mapping} → v ≡ shown_as (page_of m.pages (pos k) i) (at m.view (page_addr i))
          → Shows (page_of m.pages (pos k) i) v
      showing i hi {v} ev = elim (h.entries k i hk hi) [
        | empty e ↦
            let free = is_mapped-empty (page_of m.pages (pos k) i) e in
            hidden free
              (ap (λ (x : Mapping). x.prot) (rw free at ev) ∙ all_hidden m i h hi (low i hi))
        | filled f ef _ _ ↦
            let used = is_mapped-filled (page_of m.pages (pos k) i) f ef in
            shown f ef (
              rw (used, ef) at ev
              ∙ ap (λ q. record { backing = in_frame f; prot = q }) (sym (h.idle k i hk hi ne)))
      ]

  -- What a switch of the tag leaves.
  pub record Switched (m : Mmu vm) (k : ℕ) (m' : Mmu vm) : Type 0 where
    pub inv : Inv vm m'
    pub tracks : Tracks vm m'
    pub tag : m'.tag ≡ pos k
    pub maps : SameMaps vm m m'
    pub bits : m'.frames ≡ m.frames
    pub closed :
        (j : ℕ) → j < m.num_pages → m.tag ≢ pos k → (current_page vm m' j).real_prot ≡ prot_none

  -- The state after the first loop, entered under the new tag.
  entered_facts :
      (m m' : Mmu vm) (k : ℕ)
      → (h : Inv vm m) → Tracks vm m
      → k < num_tag
      → m.tag ≢ pos k
      → Hidden vm m m.num_pages m'
      → Switched m k (enter_tag vm m' (pos k))
  unfolding enter_tag
  entered_facts m m' k h tr hk ne p =
      let h' = p.inv in
      let ne' : k ≢ h'.now = λ q. ne (sym p.tag ∙ (h'.tag_now ∙ ap pos (sym q))) in
      record {
        inv = enter_tag-Inv m' k h' hk ne' (λ j hj. p.none_left j (omega (arith, p.num_pages)));
        tracks = record {
          bits = λ f. rw p.frames (tr.bits f);
          recorded = λ i f hi ef. rw (h'.idle k i hk hi ne') tt;
        };
        tag = refl;
        maps = record { frame = p.maps.frame; virt = p.maps.virt };
        bits = p.frames;
        closed = λ j hj _. h'.idle k j hk (omega (arith, p.num_pages)) ne';
      }

  good_tag : (k : ℕ) → k < num_tag → bad_tag (pos k) ≡ false
  good_tag k hk = ground arith

  tag_on : (m : Mmu vm) → Inv vm m → eq_ℤ m.tag minus_one ≡ false
  tag_on m h = rw h.tag_now

  set_tag_lem :
      (m : Mmu vm) (k : ℕ)
      → Inv vm m
      → Tracks vm m
      → k < num_tag
      → (m' : Mmu vm) × (set_tag vm m (pos k) ≡ done (Status.ok, m')) × Switched m k m'
  unfolding set_tag
  set_tag_lem m k h tr hk = elim (Bool-cases (eq_ℤ m.tag (pos k))) [
    | inl e ↦ (
      m,
      rw (good_tag k hk, e),
      record {
        inv = h;
        tracks = tr;
        tag = eq_ℤ_eq m.tag (pos k) e;
        maps = record { frame = λ t j ht. refl; virt = λ t j ht. refl };
        bits = refl;
        closed = λ j hj ne. absurd (ne (eq_ℤ_eq m.tag (pos k) e));
      },
    )
    | inr e ↦
        let (m', er, p) =
          hide_pages-Hidden vm m.num_pages 0 m h (omega arith) (λ j lt. absurd (omega arith)) in
        let all : 0 + m.num_pages ≡ m.num_pages = omega arith in
        (
          enter_tag vm m' (pos k),
          rw (good_tag k hk, e, tag_on m h, er),
          entered_facts m m' k h tr hk (λ q. bool_clash (rw q (eq_ℤ_refl (pos k))) e) (rw all at p),
        )
  ]

  -- `USLOSS_MmuSetTag` to a tag in range succeeds, and no assertion fails. The new tag is the
  -- current one, the mappings of all tags and the access bits stay, and after a change of the tag
  -- every page of the region is closed, so that the next access to it faults; the invariant and the
  -- record of the accesses are kept.
  pub mmu_set_tag-Switched :
      (m : Mmu vm) (k : ℕ)
      → Inv vm m
      → Tracks vm m
      → k < num_tag
      → (m' : Mmu vm) × (mmu_set_tag vm m (pos k) ≡ done (Status.ok, m')) × Switched m k m'
  unfolding mmu_set_tag
  mmu_set_tag-Switched m k h tr hk =
      let (m', e, s) = set_tag_lem m k h tr hk in (m', rw (index-not_out k num_tag hk) e, s)
