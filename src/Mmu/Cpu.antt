-- ===== src/Mmu/Cpu.antt =====
-- What a program sees when it reads or writes a page of the region: the host makes a refused access
-- again after `USLOSS_MmuHandler` of src/mmu.c has returned, unless the handler interrupts the
-- operating system.
use usloss.Base.{
  ℕ, zero, suc, ◌<◌, ◌≡◌, ◌≢◌, refl, sym, ap, ◌∙◌, inl, inr, Bool, true, false, pos, arith,
  if◌then◌else◌, Bool-cases, bool_clash, Option, some, none, ◌==◌, pos_inj, done, fault,
}
use usloss.Mmu.Types.{
  Prot, prot_none, prot_read, prot_rw, MmuPage, is_mapped, Cause, Vm, page_addr, virt_read, virt_rw,
  Mapping,
}
use usloss.Mmu.Pages.{Mmu, current_page}
use usloss.Mmu.Access.{has_ref, has_dirty, ref_bit, dirty_bit, Action, action, Verdict, mmu_handler}
use usloss.Mmu.Inv.{Inv, cause-Inv, hidden, shown}
use usloss.Mmu.Protect.{current_page-now}
use usloss.Mmu.Keep.{is_mapped-filled}
use usloss.Mmu.Track.{Recorded, Tracks, access_of}
use usloss.Mmu.Faults.{
  raised, Raised, not_mapped, violated, referenced, dirtied, stuck, mmu_handler-Served,
}

pub data Kind : Type 0 where
  load store : Kind

-- What the host lets through.
abbrev pub lets : Prot → Kind → Bool
lets prot_none _ = false
lets prot_read load = true
lets prot_read store = false
lets prot_rw _ = true

-- What the operating system has allowed.
abbrev pub permits : ℕ → Kind → Bool
permits virt load = if virt == virt_read then true else virt == virt_rw
permits virt store = virt == virt_rw

pub data Seen : Type 0 where
  granted interrupted crashed : Seen

module _ (vm : Vm) where
  open vm use {at}

  -- An access to page i of the region, with fuel for the attempts.
  unfoldable pub attempt : ℕ → Mmu vm → ℕ → Kind → Option (Seen × Mmu vm)
  attempt zero m i kind = none
  attempt (suc fuel) m i kind =
      let again = λ (m' : Mmu vm). attempt fuel m' i kind in
      if lets (at m.view (page_addr i)).prot kind
      then some (Seen.granted, m)
      else elim (mmu_handler vm m (pos i)) [
        | fault _ ↦ some (Seen.crashed, m)
        | done (v, m') ↦ elim v [ Verdict.resume ↦ again m' | _ ↦ some (Seen.interrupted, m') ]
      ]

  -- The region shows a mapped page with its real protection.
  real_shown :
      (m : Mmu vm) (i : ℕ)
      → Inv vm m
      → i < m.num_pages
      → is_mapped (current_page vm m i) ≡ true
      → (at m.view (page_addr i)).prot ≡ (current_page vm m i).real_prot
  real_shown m i h hi used = elim (h.view i hi) [
    | hidden free _ ↦ bool_clash used (ap is_mapped (current_page-now vm m i h) ∙ free)
    | shown f ef e ↦
        ap (λ (x : Mapping). x.prot) e
        ∙ ap (λ (p : MmuPage). p.real_prot) (sym (current_page-now vm m i h))
  ]

  pub attempt_granted :
      (fuel : ℕ) (m : Mmu vm) (i : ℕ) (kind : Kind)
      → lets (at m.view (page_addr i)).prot kind ≡ true
      → attempt (suc fuel) m i kind ≡ some (Seen.granted, m)
  unfolding attempt
  attempt_granted fuel m i kind e = rw e

  pub attempt_interrupted :
      (fuel : ℕ) (m : Mmu vm) (i : ℕ) (kind : Kind) {m' : Mmu vm}
      → lets (at m.view (page_addr i)).prot kind ≡ false
      → mmu_handler vm m (pos i) ≡ done (Verdict.interrupt, m')
      → attempt (suc fuel) m i kind ≡ some (Seen.interrupted, m')
  unfolding attempt
  attempt_interrupted fuel m i kind e r = rw (e, r)

  pub attempt_again :
      (fuel : ℕ) (m : Mmu vm) (i : ℕ) (kind : Kind) {m' : Mmu vm}
      → lets (at m.view (page_addr i)).prot kind ≡ false
      → mmu_handler vm m (pos i) ≡ done (Verdict.resume, m')
      → attempt (suc fuel) m i kind ≡ attempt fuel m' i kind
  unfolding attempt
  attempt_again fuel m i kind e r = rw (e, r)

-- What the bits of the frame must say after an access.
abbrev pub Covers : Kind → ℕ → Type 0
Covers load access = has_ref access ≡ true
Covers store access = (has_ref access ≡ true) × (has_dirty access ≡ true)

-- How many faults a page can still take.
abbrev rank : Prot → ℕ
rank prot_none = 2
rank prot_read = 1
rank prot_rw = 0

-- The real protection lets through no more than the operating system allows.
lets_permitted :
    (q : Prot) (virt : ℕ) (kind : Kind)
    → action q virt ≢ Action.impossible
    → lets q kind ≡ true
    → permits virt kind ≡ true
unfolding action
lets_permitted prot_none virt kind ne e = absurd (cc)
lets_permitted prot_read virt load ne e = ground arith
lets_permitted prot_read virt store ne e = absurd (cc)
lets_permitted prot_rw virt load ne e = ground arith
lets_permitted prot_rw virt store ne e = ground arith

violation_denied :
    (q : Prot) (virt : ℕ) (kind : Kind)
    → action q virt ≡ Action.violation
    → lets q kind ≡ false
    → permits virt kind ≡ false
unfolding action
violation_denied prot_none virt load e f = ground arith
violation_denied prot_none virt store e f = ground arith
violation_denied prot_read virt load e f = absurd (cc)
violation_denied prot_read virt store e f = ground arith
violation_denied prot_rw virt load e f = absurd (cc)
violation_denied prot_rw virt store e f = absurd (cc)

Recorded-Covers :
    (q : Prot) (kind : Kind) (a : ℕ) → lets q kind ≡ true → Recorded q a → Covers kind a
Recorded-Covers prot_none kind a e r = absurd (cc)
Recorded-Covers prot_read load a e r = r
Recorded-Covers prot_read store a e r = absurd (cc)
Recorded-Covers prot_rw load a e r = r.0
Recorded-Covers prot_rw store a e r = r

set_ref_next :
    (q : Prot) (virt : ℕ)
    → action q virt ≡ Action.set_ref
    → (rank q ≡ 2) × (action prot_read virt ≢ Action.impossible)
unfolding action
set_ref_next prot_none virt e = (refl, ground arith)
set_ref_next prot_read virt e = absurd (ground arith)
set_ref_next prot_rw virt e = absurd (ground arith)

set_dirty_next :
    (q : Prot) (virt : ℕ)
    → action q virt ≡ Action.set_dirty
    → (rank q ≡ 1) × (action prot_rw virt ≢ Action.impossible)
unfolding action
set_dirty_next prot_none virt e = absurd (ground arith)
set_dirty_next prot_read virt e = (refl, ground arith)
set_dirty_next prot_rw virt e = absurd (ground arith)

module _ (vm : Vm) where
  -- How an access to a mapped page ends: it goes through and is recorded in the bits of frame f, if
  -- the protection permits it, and interrupts the operating system otherwise.
  pub data Ending (f virt : ℕ) (kind : Kind) (out : Option (Seen × Mmu vm)) : Type 0 where
    accessed :
        (m' : Mmu vm)
        → permits virt kind ≡ true
        → out ≡ some (Seen.granted, m')
        → Inv vm m'
        → Tracks vm m'
        → Covers kind (access_of vm m' f)
        → Ending f virt kind out
    denied :
        (m' : Mmu vm)
        → permits virt kind ≡ false
        → out ≡ some (Seen.interrupted, m')
        → m'.cause ≡ Cause.access_cause
        → Inv vm m'
        → Tracks vm m'
        → Ending f virt kind out

  pub cause-Tracks : (m : Mmu vm) (c : Cause) → Tracks vm m → Tracks vm (record m { cause = c })
  cause-Tracks m c tr = record { bits = tr.bits; recorded = tr.recorded }

  -- What is needed of a state to say how an access to page i ends.
  record Ready (m : Mmu vm) (i f virt : ℕ) : Type 0 where
    inv : Inv vm m
    tracks : Tracks vm m
    page_in : i < m.num_pages
    frame : (current_page vm m i).frame ≡ pos f
    asked : (current_page vm m i).virt_prot ≡ virt
    sane : action (current_page vm m i).real_prot virt ≢ Action.impossible

  raised-Ready :
      (m : Mmu vm) (i f virt : ℕ) (prot : Prot) (bit : ℕ)
      → Ready m i f virt
      → action prot virt ≢ Action.impossible
      → Raised vm m i f prot bit
      → Ready (raised vm m i f prot bit) i f virt
  raised-Ready m i f virt prot bit r ok z = record {
    inv = z.inv;
    tracks = z.tracks;
    page_in = omega (arith, z.pages, r.page_in);
    frame = ap (λ (p : MmuPage). p.frame) z.page ∙ r.frame;
    asked = ap (λ (p : MmuPage). p.virt_prot) z.page ∙ r.asked;
    sane = rw z.page ok;
  }

  rank-raised :
      (m : Mmu vm) (i f : ℕ) (prot : Prot) (bit : ℕ)
      → Raised vm m i f prot bit
      → rank (current_page vm (raised vm m i f prot bit) i).real_prot ≡ rank prot
  rank-raised m i f prot bit z = ap (λ (p : MmuPage). rank p.real_prot) z.page

  same_frame :
      (m : Mmu vm) (i f g : ℕ)
      → (current_page vm m i).frame ≡ pos f
      → (current_page vm m i).frame ≡ pos g
      → g ≡ f
  same_frame m i f g ef eg = pos_inj (sym eg ∙ ef)

  -- An attempt that the host refuses: `next` says how the later attempts end.
  refused-Ending :
      (n : ℕ) (m : Mmu vm) (i f virt : ℕ) (kind : Kind)
      → Ready m i f virt
      → lets (vm.at m.view (page_addr i)).prot kind ≡ false
      → ((m' : Mmu vm)
          → Ready m' i f virt
          → rank (current_page vm m' i).real_prot < rank (current_page vm m i).real_prot
          → Ending f virt kind (attempt vm n m' i kind))
      → Ending f virt kind (attempt vm (suc n) m i kind)
  refused-Ending n m i f virt kind r e next =
      elim (mmu_handler-Served vm m i r.inv r.tracks r.page_in) [
        | not_mapped free _ ↦ bool_clash used free
        | violated _ ea er ↦
            denied (record m { cause = Cause.access_cause })
              (violation_denied _ virt kind (rw r.asked at ea)
                (rw (← real_shown vm m i r.inv r.page_in used) e))
              (attempt_interrupted vm n m i kind e er) refl
              (cause-Inv vm m Cause.access_cause r.inv) (cause-Tracks m Cause.access_cause r.tracks)
        | referenced g eg ea er z ↦
            let (rk, ok) = set_ref_next _ virt (rw r.asked at ea) in
            let same = same_frame m i f g r.frame eg in
            rw (attempt_again vm n m i kind e er, same)
              (next (raised vm m i f prot_read ref_bit)
                (raised-Ready m i f virt prot_read ref_bit r ok (rw same at z))
                (omega (arith, rk, rank-raised m i f prot_read ref_bit (rw same at z))))
        | dirtied g eg ea er z ↦
            let (rk, ok) = set_dirty_next _ virt (rw r.asked at ea) in
            let same = same_frame m i f g r.frame eg in
            rw (attempt_again vm n m i kind e er, same)
              (next (raised vm m i f prot_rw dirty_bit)
                (raised-Ready m i f virt prot_rw dirty_bit r ok (rw same at z))
                (omega (arith, rk, rank-raised m i f prot_rw dirty_bit (rw same at z))))
        | stuck _ ea _ ↦ absurd (r.sane (rw r.asked at ea))
      ]
    where
      used : is_mapped (current_page vm m i) ≡ true
      used = is_mapped-filled (current_page vm m i) f r.frame

  Ready-Ending :
      (n : ℕ) (m : Mmu vm) (i f virt : ℕ) (kind : Kind)
      → Ready m i f virt
      → rank (current_page vm m i).real_prot < n
      → Ending f virt kind (attempt vm n m i kind)
  Ready-Ending zero m i f virt kind r le = absurd (omega arith)
  Ready-Ending (suc n) m i f virt kind r le =
      elim (Bool-cases (lets (vm.at m.view (page_addr i)).prot kind)) [
        | inl e ↦
            let used = is_mapped-filled (current_page vm m i) f r.frame in
            let e' : lets (current_page vm m i).real_prot kind ≡ true =
              rw (← real_shown vm m i r.inv r.page_in used) e in
            accessed m (lets_permitted _ virt kind r.sane e') (attempt_granted vm n m i kind e)
              r.inv r.tracks (Recorded-Covers _ kind _ e' (r.tracks.recorded i f r.page_in r.frame))
        | inr e ↦
            refused-Ending n m i f virt kind r e
              (λ m' r' lt. Ready-Ending n m' i f virt kind r' (omega arith))
      ]

  rank_le : (q : Prot) → rank q < 3
  rank_le prot_none = omega arith
  rank_le prot_read = omega arith
  rank_le prot_rw = omega arith

  -- An access to a page that shows frame f, and whose real protection goes with the one that the
  -- operating system asked for, ends after two faults at most: if the asked protection permits it,
  -- the access goes through and the reference bit of the frame is set, for a write the dirty bit
  -- too; otherwise the operating system is interrupted with USLOSS_MMU_ACCESS. The invariant and
  -- the record of the accesses are kept.
  pub attempt-Ending :
      (m : Mmu vm) (i f virt : ℕ) (kind : Kind)
      → Inv vm m
      → Tracks vm m
      → i < m.num_pages
      → (current_page vm m i).frame ≡ pos f
      → (current_page vm m i).virt_prot ≡ virt
      → action (current_page vm m i).real_prot virt ≢ Action.impossible
      → Ending f virt kind (attempt vm 3 m i kind)
  attempt-Ending m i f virt kind h tr hi ef ev ok =
      Ready-Ending 3 m i f virt kind
        (record { inv = h; tracks = tr; page_in = hi; frame = ef; asked = ev; sane = ok })
        (rank_le _)
