-- ===== src/Mmu/Faults.antt =====
-- `USLOSS_MmuHandler` of src/mmu.c on a page of the region, branch by branch.
use Prim.Native.Nat.{bit_or}
use usloss.Base.{
  ℕ, ◌<◌, ◌≤◌, ◌≡◌, refl, ap, ◌∙◌, inl, inr, true, false, get_or-set_self, pos, minus_one, arith,
  le→leb, Bool-cases, index, eq_ℤ, Result, done, fault, Fault, index-not_out, length-set,
}
use usloss.Mmu.Types.{Prot, prot_read, prot_rw, is_mapped, Cause, Vm}
use usloss.Mmu.Pages.{Mmu, current_page, write_real_prot}
use usloss.Mmu.Access.{
  has_ref, ref_bit, dirty_bit, add_bit, Action, action, Verdict, take_action, mmu_handler,
}
use usloss.Mmu.Inv.{Inv, frames-Inv}
use usloss.Mmu.Protect.{mapped_entry, set_real_prot_lem}
use usloss.Mmu.Track.{
  Recorded, add_ref, add_dirty, Recorded-ref, Recorded-dirty, Tracks, access_of, current_page-write,
  raise-Tracks,
}

module _ (vm : Vm) where
  -- The state after the handler has raised the protection of page i, which shows frame f.
  unfoldable pub raised : Mmu vm → ℕ → ℕ → Prot → ℕ → Mmu vm
  raised m i f prot bit = add_bit vm (write_real_prot vm m i prot) f bit

  -- What is known of that state.
  pub record Raised (m : Mmu vm) (i f : ℕ) (prot : Prot) (bit : ℕ) : Type 0 where
    pub inv : Inv vm (raised m i f prot bit)
    pub tracks : Tracks vm (raised m i f prot bit)
    pub page :
        current_page vm (raised m i f prot bit) i
        ≡ record (current_page vm m i) { real_prot = prot }
    pub access : access_of vm (raised m i f prot bit) f ≡ bit_or (access_of vm m f) bit
    pub pages : (raised m i f prot bit).num_pages ≡ m.num_pages

  Raised-lem :
      (m : Mmu vm) (i f : ℕ) (prot : Prot) (bit : ℕ)
      → Inv vm m
      → Tracks vm m
      → i < m.num_pages
      → f < m.num_frames
      → (current_page vm m i).frame ≡ pos f
      → is_mapped (current_page vm m i) ≡ true
      → bit_or (access_of vm m f) bit ≤ 3
      → Recorded prot (bit_or (access_of vm m f) bit)
      → ((q : Prot) → Recorded q (access_of vm m f) → Recorded q (bit_or (access_of vm m f) bit))
      → Raised m i f prot bit
  unfolding raised write_real_prot
  Raised-lem m i f prot bit h tr hi hf ef used le new mono = record {
    inv =
        frames-Inv vm (write_real_prot vm m i prot) _ (length-set m.frames f _ ∙ h.frames_full)
          (set_real_prot_lem vm m i prot h hi used).1;
    tracks = raise-Tracks vm m i f prot bit h tr hi hf ef le new mono;
    page = elim (current_page-write vm m i i prot h hi) [
      | inl (_, w) ↦ w
      | inr (ne, _) ↦ absurd (ne refl)
    ];
    access = get_or-set_self m.frames f _ 0 (omega (arith, h.frames_full));
    pages = refl;
  }

  -- What the handler does on a page of the region.
  pub data Served (m : Mmu vm) (i : ℕ) (out : Result (Verdict × Mmu vm)) : Type 0 where
    not_mapped :
        is_mapped (current_page vm m i) ≡ false
        → out ≡ done (Verdict.interrupt, record m { cause = Cause.fault_cause })
        → Served m i out
    violated :
        is_mapped (current_page vm m i) ≡ true
        → action (current_page vm m i).real_prot (current_page vm m i).virt_prot ≡ Action.violation
        → out ≡ done (Verdict.interrupt, record m { cause = Cause.access_cause })
        → Served m i out
    referenced :
        (f : ℕ)
        → (current_page vm m i).frame ≡ pos f
        → action (current_page vm m i).real_prot (current_page vm m i).virt_prot ≡ Action.set_ref
        → out ≡ done (Verdict.resume, raised m i f prot_read ref_bit)
        → Raised m i f prot_read ref_bit
        → Served m i out
    dirtied :
        (f : ℕ)
        → (current_page vm m i).frame ≡ pos f
        → action (current_page vm m i).real_prot (current_page vm m i).virt_prot ≡ Action.set_dirty
        → out ≡ done (Verdict.resume, raised m i f prot_rw dirty_bit)
        → Raised m i f prot_rw dirty_bit
        → Served m i out
    stuck :
        is_mapped (current_page vm m i) ≡ true
        → action (current_page vm m i).real_prot (current_page vm m i).virt_prot ≡ Action.impossible
        → out ≡ fault Fault.aborted
        → Served m i out

  -- The handler down to its `switch`, on a page that is mapped.
  pub handler_switch :
      (m : Mmu vm) (i : ℕ)
      → Inv vm m
      → i < m.num_pages
      → is_mapped (current_page vm m i) ≡ true
      → mmu_handler vm m (pos i)
        ≡ take_action vm
            (action (current_page vm m i).real_prot (current_page vm m i).virt_prot)
            m
            i
            (index (current_page vm m i).frame)
  unfolding mmu_handler
  handler_switch m i h hi used =
      let (f, _, _, hv) = mapped_entry vm m i h hi used in
      rw
        (index-not_out i m.num_pages hi, not_off, used, le→leb (current_page vm m i).virt_prot 3 hv)
    where
      not_off : eq_ℤ m.tag minus_one ≡ false
      not_off = rw h.tag_now

  pub handler_unmapped :
      (m : Mmu vm) (i : ℕ)
      → Inv vm m
      → i < m.num_pages
      → is_mapped (current_page vm m i) ≡ false
      → mmu_handler vm m (pos i) ≡ done (Verdict.interrupt, record m { cause = Cause.fault_cause })
  unfolding mmu_handler
  handler_unmapped m i h hi free = rw (index-not_out i m.num_pages hi, not_off, free)
    where
      not_off : eq_ℤ m.tag minus_one ≡ false
      not_off = rw h.tag_now

  set_ref_lem :
      (m : Mmu vm) (i f : ℕ)
      → Inv vm m
      → i < m.num_pages
      → (current_page vm m i).frame ≡ pos f
      → is_mapped (current_page vm m i) ≡ true
      → take_action vm Action.set_ref m i f ≡ done (Verdict.resume, raised m i f prot_read ref_bit)
  unfolding take_action raised
  set_ref_lem m i f h hi ef used = rw ((set_real_prot_lem vm m i prot_read h hi used).0)

  set_dirty_lem :
      (m : Mmu vm) (i f : ℕ)
      → Inv vm m
      → i < m.num_pages
      → (current_page vm m i).frame ≡ pos f
      → is_mapped (current_page vm m i) ≡ true
      → take_action vm Action.set_dirty m i f
        ≡ done (Verdict.resume, raised m i f prot_rw dirty_bit)
  unfolding take_action raised
  set_dirty_lem m i f h hi ef used = rw ((set_real_prot_lem vm m i prot_rw h hi used).0)

  -- Setting the dirty bit follows setting the reference bit.
  set_dirty-read : (q : Prot) (virt : ℕ) → action q virt ≡ Action.set_dirty → q ≡ prot_read
  unfolding action
  set_dirty-read q virt e = ground arith

  -- A fault on a page of the region either interrupts the operating system, with the cause that the
  -- tables give, or sets the bits of the frame and lets the access through, and keeps the invariant
  -- and the record. Only two protections that do not go together end the simulator.
  pub mmu_handler-Served :
      (m : Mmu vm) (i : ℕ)
      → Inv vm m
      → Tracks vm m
      → i < m.num_pages
      → Served m i (mmu_handler vm m (pos i))
  mmu_handler-Served m i h tr hi = elim (Bool-cases (is_mapped (current_page vm m i))) [
    | inr free ↦ not_mapped free (handler_unmapped m i h hi free)
    | inl used ↦
        let (f, ef, hf, hv) = mapped_entry vm m i h hi used in
        let e =
          handler_switch m i h hi used
          ∙ ap
              (take_action vm
                (action (current_page vm m i).real_prot (current_page vm m i).virt_prot) m i)
              (ap index ef) in
        switch used f ef hf (action (current_page vm m i).real_prot (current_page vm m i).virt_prot)
          refl e
  ]
    where
      switch :
          is_mapped (current_page vm m i) ≡ true
          → (f : ℕ) → (current_page vm m i).frame ≡ pos f
          → f < m.num_frames
          → (a : Action)
          → action (current_page vm m i).real_prot (current_page vm m i).virt_prot ≡ a
          → mmu_handler vm m (pos i)
            ≡ take_action vm
                (action (current_page vm m i).real_prot (current_page vm m i).virt_prot)
                m
                i
                f
          → Served m i (mmu_handler vm m (pos i))
      switch used f ef hf Action.violation ea e =
          violated used ea (e ∙ (rw ea (unfold take_action in refl)))
      switch used f ef hf Action.set_ref ea e =
          let (le, r) = add_ref (access_of vm m f) (tr.bits f) in
          referenced f ef ea (e ∙ (rw ea (set_ref_lem m i f h hi ef used))) (
            Raised-lem m i f prot_read ref_bit h tr hi hf ef used le r
              (λ q. Recorded-ref q (access_of vm m f) (tr.bits f)))
      switch used f ef hf Action.set_dirty ea e =
          let (le, r) = add_dirty (access_of vm m f) (tr.bits f) in
          let was : has_ref (access_of vm m f) ≡ true =
            rw (set_dirty-read _ _ ea) at (tr.recorded i f hi ef) in
          dirtied f ef ea (e ∙ (rw ea (set_dirty_lem m i f h hi ef used))) (
            Raised-lem m i f prot_rw dirty_bit h tr hi hf ef used le
              (Recorded-dirty prot_read (access_of vm m f) (tr.bits f) was, r)
              (λ q. Recorded-dirty q (access_of vm m f) (tr.bits f)))
      switch used f ef hf Action.impossible ea e =
          stuck used ea (e ∙ (rw ea (unfold take_action in refl)))
