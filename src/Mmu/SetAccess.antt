-- ===== src/Mmu/SetAccess.antt =====
-- `USLOSS_MmuSetAccess` of src/mmu.c: the loop over the pages that show the frame, and what holds
-- of the access bits afterwards.
use usloss.Base.{
  ℕ, zero, suc, ◌+◌, ◌<◌, ◌≤◌, ◌≡◌, ◌≢◌, refl, sym, ap, ◌∙◌, inl, inr, false, pos, arith,
  Bool-cases, bool_clash, some, none, ltb, Option-cases, done, eq_ℤ, eq_ℤ_eq, eq_ℤ_refl, get_or,
  set, get_or-set_self, get_or-set_ne, length-set, index-not_out, pos_inj,
}
use native.Mathlib.Decide.{ℕ_discrete}
use usloss.Mmu.Types.{Status, Prot, prot_none, prot_read, prot_rw, MmuPage, Vm}
use usloss.Mmu.Pages.{Mmu, current_page, write_real_prot}
use usloss.Mmu.Access.{watch_prot, protect_frame, set_access}
use usloss.Mmu.Inv.{Inv, frames-Inv}
use usloss.Mmu.Protect.{set_real_prot_lem}
use usloss.Mmu.Keep.{is_mapped-filled}
use usloss.Mmu.Track.{Recorded, Tracks, access_of, current_page-write}

module _ (vm : Vm) where
  -- What the loop has done from page i on, over n pages.
  pub record Protected (m : Mmu vm) (n i f : ℕ) (prot : Prot) (m' : Mmu vm) : Type 0 where
    pub inv : Inv vm m'
    pub frames : m'.frames ≡ m.frames
    pub num_pages : m'.num_pages ≡ m.num_pages
    pub num_frames : m'.num_frames ≡ m.num_frames
    pub maps : m'.num_maps ≡ m.num_maps
    pub tag : m'.tag ≡ m.tag
    pub frame : (j : ℕ) → (current_page vm m' j).frame ≡ (current_page vm m j).frame
    pub virt : (j : ℕ) → (current_page vm m' j).virt_prot ≡ (current_page vm m j).virt_prot
    pub other :
        (j : ℕ) → (current_page vm m j).frame ≢ pos f → current_page vm m' j ≡ current_page vm m j
    pub before : (j : ℕ) → j < i → current_page vm m' j ≡ current_page vm m j
    pub lowered :
        (j : ℕ)
        → i ≤ j
        → j < i + n
        → (current_page vm m j).frame ≡ pos f
        → (current_page vm m' j).real_prot ≡ prot

  -- One page is done; the rest follows.
  Protected-hit :
      (m m' : Mmu vm) (n i f : ℕ) (prot : Prot)
      → Inv vm m
      → i < m.num_pages
      → (current_page vm m i).frame ≡ pos f
      → Protected (write_real_prot vm m i prot) n (suc i) f prot m'
      → Protected m (suc n) i f prot m'
  unfolding write_real_prot
  Protected-hit m m' n i f prot h hi ef p = record {
    inv = p.inv;
    frames = p.frames;
    num_pages = p.num_pages;
    num_frames = p.num_frames;
    maps = p.maps;
    tag = p.tag;
    frame = λ j. p.frame j ∙ frame_write j;
    virt = λ j. p.virt j ∙ virt_write j;
    other = λ j ne.
        p.other j (rw (frame_write j) ne) ∙ elim (current_page-write vm m i j prot h hi) [
          | inl (e, _) ↦ absurd (ne (rw (← e) ef))
          | inr (_, w) ↦ w
        ];
    before = λ j lt. p.before j (omega arith) ∙ elim (current_page-write vm m i j prot h hi) [
      | inl (e, _) ↦ absurd (omega arith)
      | inr (_, w) ↦ w
    ];
    lowered = λ j le lt ej. elim (current_page-write vm m i j prot h hi) [
      | inl (e, w) ↦ ap (λ (q : MmuPage). q.real_prot) (p.before j (omega arith) ∙ w)
      | inr (ne, w) ↦ p.lowered j (omega arith) (omega arith) (frame_write j ∙ ej)
    ];
  }
    where
      frame_write :
          (j : ℕ)
          → (current_page vm (write_real_prot vm m i prot) j).frame ≡ (current_page vm m j).frame
      frame_write j = elim (current_page-write vm m i j prot h hi) [
        | inl (e, w) ↦ rw (← e) (
            ap (λ (q : MmuPage). q.frame)
              (ap (current_page vm (write_real_prot vm m i prot)) e ∙ w))
        | inr (_, w) ↦ ap (λ (q : MmuPage). q.frame) w
      ]

      virt_write :
          (j : ℕ)
          → (current_page vm (write_real_prot vm m i prot) j).virt_prot
            ≡ (current_page vm m j).virt_prot
      virt_write j = elim (current_page-write vm m i j prot h hi) [
        | inl (e, w) ↦ rw (← e) (
            ap (λ (q : MmuPage). q.virt_prot)
              (ap (current_page vm (write_real_prot vm m i prot)) e ∙ w))
        | inr (_, w) ↦ ap (λ (q : MmuPage). q.virt_prot) w
      ]

  Protected-miss :
      (m m' : Mmu vm) (n i f : ℕ) (prot : Prot)
      → (current_page vm m i).frame ≢ pos f
      → Protected m n (suc i) f prot m'
      → Protected m (suc n) i f prot m'
  Protected-miss m m' n i f prot ne p = record {
    inv = p.inv;
    frames = p.frames;
    num_pages = p.num_pages;
    num_frames = p.num_frames;
    maps = p.maps;
    tag = p.tag;
    frame = p.frame;
    virt = p.virt;
    other = p.other;
    before = λ j lt. p.before j (omega arith);
    lowered = λ j le lt ej. elim (ℕ_discrete i j) [
      | yes e ↦ absurd (ne (rw e ej))
      | no ne' ↦ p.lowered j (omega arith) (omega arith) ej
    ];
  }

  pages_after :
      (m : Mmu vm) (i : ℕ) (prot : Prot) (n : ℕ)
      → i + suc n ≤ m.num_pages
      → suc i + n ≤ (write_real_prot vm m i prot).num_pages
  unfolding write_real_prot
  pages_after m i prot n le = omega arith

  pub protect_frame-Protected :
      (n i f : ℕ) (prot : Prot) (m : Mmu vm)
      → Inv vm m
      → i + n ≤ m.num_pages
      → (m' : Mmu vm) × (protect_frame vm n i f prot m ≡ done m') × Protected m n i f prot m'
  unfolding protect_frame
  protect_frame-Protected zero i f prot m h le = (
    m,
    refl,
    record {
      inv = h;
      frames = refl;
      num_pages = refl;
      num_frames = refl;
      maps = refl;
      tag = refl;
      frame = λ j. refl;
      virt = λ j. refl;
      other = λ j ne. refl;
      before = λ j lt. refl;
      lowered = λ j lo hi. absurd (omega arith);
    },
  )
  protect_frame-Protected (suc n) i f prot m h le =
      elim (Bool-cases (eq_ℤ (current_page vm m i).frame (pos f))) [
        | inl e ↦
            let ef = eq_ℤ_eq _ _ e in
            let used = is_mapped-filled (current_page vm m i) f ef in
            let (es, h') = set_real_prot_lem vm m i prot h (omega arith) used in
            let (m', er, p) =
              protect_frame-Protected n (suc i) f prot (write_real_prot vm m i prot) h'
                (pages_after m i prot n le) in
            (m', rw (e, es) er, Protected-hit m m' n i f prot h (omega arith) ef p)
        | inr e ↦
            let (m', er, p) = protect_frame-Protected n (suc i) f prot m h (omega arith) in
            (
              m',
              rw e er,
              Protected-miss m m' n i f prot (λ q. bool_clash (rw q (eq_ℤ_refl (pos f))) e) p,
            )
      ]

-- The protection that is chosen for the new bits lets nothing through that they do not show.
watch-Recorded : (access : ℕ) (q : Prot) → watch_prot access ≡ some q → Recorded q access
watch-Recorded access prot_none e = tt
watch-Recorded access prot_read e = ground arith
watch-Recorded access prot_rw e = absurd (ground arith)

unwatched-Recorded : (access : ℕ) (q : Prot) → watch_prot access ≡ none → Recorded q access
unwatched-Recorded access prot_none e = tt
unwatched-Recorded access prot_read e = ground arith
unwatched-Recorded access prot_rw e = (ground arith, ground arith)

module _ (vm : Vm) where
  -- What `USLOSS_MmuSetAccess` leaves: the bits of the frame are the ones given, those of the other
  -- frames stay, and the invariant and the record of accesses hold.
  pub record SetTo (m : Mmu vm) (f access : ℕ) (m' : Mmu vm) : Type 0 where
    pub inv : Inv vm m'
    pub tracks : Tracks vm m'
    pub now : access_of vm m' f ≡ access
    pub others : (g : ℕ) → f ≢ g → access_of vm m' g ≡ access_of vm m g

  abbrev pub with_bits : Mmu vm → ℕ → ℕ → Mmu vm
  with_bits m f access = record m { frames = set m.frames f access }

  pub with_bits-Inv : (m : Mmu vm) (f access : ℕ) → Inv vm m → Inv vm (with_bits m f access)
  with_bits-Inv m f access h = frames-Inv vm m _ (length-set m.frames f access ∙ h.frames_full) h

  bits_in :
      (m : Mmu vm) (f access g : ℕ)
      → Inv vm m
      → Tracks vm m
      → f < m.num_frames
      → access ≤ 3
      → get_or (set m.frames f access) g 0 ≤ 3
  bits_in m f access g h tr hf le = elim (ℕ_discrete f g) [
    | yes e ↦ rw (← e, get_or-set_self m.frames f access 0 (omega (arith, h.frames_full))) le
    | no ne ↦ rw (get_or-set_ne m.frames f g access 0 ne) (tr.bits g)
  ]

  -- The pages of the current tag are recorded under the new bits, if those of the frame are and the
  -- others are as they were.
  SetTo-of :
      (m m' : Mmu vm) (f access : ℕ)
      → Inv vm m
      → Tracks vm m
      → Inv vm m'
      → f < m.num_frames
      → access ≤ 3
      → m'.frames ≡ set m.frames f access
      → m'.num_pages ≡ m.num_pages
      → ((j : ℕ) → (current_page vm m' j).frame ≡ (current_page vm m j).frame)
      → ((j : ℕ) → (current_page vm m j).frame ≢ pos f → current_page vm m' j ≡ current_page vm m j)
      → ((j : ℕ)
          → j < m.num_pages
          → (current_page vm m j).frame ≡ pos f
          → Recorded (current_page vm m' j).real_prot access)
      → SetTo m f access m'
  SetTo-of m m' f access h tr h' hf le fs np same other hit = record {
    inv = h';
    tracks = record {
      bits = λ g. rw fs (bits_in m f access g h tr hf le);
      recorded = λ j g hj ej. rw fs (elim (ℕ_discrete f g) [
        | yes e ↦ rw (← e, new) (hit j (omega (arith, np)) (sym (same j) ∙ (ej ∙ ap pos (sym e))))
        | no ne ↦
            let ej' : (current_page vm m j).frame ≡ pos g = sym (same j) ∙ ej in
            rw (get_or-set_ne m.frames f g access 0 ne, other j (λ q. ne (pos_inj (sym q ∙ ej'))))
              (tr.recorded j g (omega (arith, np)) ej')
      ]);
    };
    now = rw fs new;
    others = λ g ne. rw fs (get_or-set_ne m.frames f g access 0 ne);
  }
    where
      new : get_or (set m.frames f access) f 0 ≡ access
      new = get_or-set_self m.frames f access 0 (omega (arith, h.frames_full))

  -- `USLOSS_MmuSetAccess` on a frame that exists, with access bits in range, returns USLOSS_MMU_OK
  -- with the bits set; no assertion fails. Every page of the current tag that shows the frame is
  -- protected again as far as the new bits need it, so later accesses are recorded as before.
  pub set_access-SetTo :
      (m : Mmu vm) (f access : ℕ)
      → Inv vm m
      → Tracks vm m
      → f < m.num_frames
      → access ≤ 3
      → (m' : Mmu vm) × (set_access vm m (pos f) access ≡ done (Status.ok, m'))
        × SetTo m f access m'
  unfolding set_access
  set_access-SetTo m f access h tr hf le = elim (Option-cases (watch_prot access)) [
    | inl e ↦ (
      with_bits m f access,
      rw (index-not_out f m.num_frames hf, le_not_ltb access le, e),
      SetTo-of m (with_bits m f access) f access h tr (with_bits-Inv m f access h) hf le refl refl
          (λ j. refl) (λ j ne. refl) (λ j hj ej. unwatched-Recorded access _ e),
    )
    | inr (prot, e) ↦
        let (m', er, p) =
          protect_frame-Protected vm m.num_pages 0 f prot (with_bits m f access)
            (with_bits-Inv m f access h) (omega arith) in
        (
          m',
          rw (index-not_out f m.num_frames hf, le_not_ltb access le, e, er),
          SetTo-of m m' f access h tr p.inv hf le p.frames p.num_pages p.frame p.other (λ j hj ej.
              rw (p.lowered j (omega arith) (omega arith) ej) (watch-Recorded access prot e)),
        )
  ]
    where
      le_not_ltb : (access : ℕ) → access ≤ 3 → ltb 3 access ≡ false
      le_not_ltb access le = ground arith
