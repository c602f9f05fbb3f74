-- ===== src/System/Calls.antt =====
-- The functions of src/mmu.c that change the state, called while the MMU is off or in a sound
-- state.
use usloss.Base.{
  ℕ, ◌≡◌, refl, Bool-cases, inl, inr, leb, ltb, ltb→ge, if_ind, none, some, ℤ, pos, negsuc, arith,
  Result, done, ◌>>=◌,
}
use usloss.Mmu.Types.{Status, Mode, Vm, num_tag}
use usloss.Mmu.Pages.{Mmu, Outcome, map_page, unmap_page}
use usloss.Mmu.Access.{set_access}
use usloss.Mmu.Switch.{Pte, mmu_set_tag, set_page_table}
use usloss.Mmu.Config.{Host, MmuPtr, mmu_init, mmu_done, when_mode, same_mode}
use usloss.Mmu.Api.{when_on}
use usloss.Mmu.Sound.{Sound}
use usloss.Mmu.Mapping.{MapEnd, map_page-MapEnd, UnmapEnd, unmap_page-UnmapEnd}
use usloss.Mmu.SetAccess.{set_access-SetTo}
use usloss.Mmu.SetTag.{mmu_set_tag-Switched}
use usloss.Mmu.Table.{TableEnd, set_page_table-TableEnd}
use usloss.Mmu.Start.{InitEnd, mmu_init-InitEnd}
use usloss.Mmu.Life.{Fine}

module _ (vm : Vm) where
  -- An operation that returns and leaves the MMU sound.
  pub record Ends (out : Outcome vm) : Type 0 where
    status : Status
    state : Mmu vm
    returns : out ≡ done (status, state)
    sound : Sound vm state

  unchanged : (m : Mmu vm) (st : Status) → Sound vm m → Ends (done (st, m))
  unchanged m st s = record { status = st; state = m; returns = refl; sound = s }

  changed :
      (out : Outcome vm) (st : Status) (m : Mmu vm) → out ≡ done (st, m) → Sound vm m → Ends out
  changed out st m e s = record { status = st; state = m; returns = e; sound = s }

  pub map_page-Ends :
      (tag page frame : ℤ) (protection : ℕ) (m : Mmu vm)
      → Sound vm m
      → Ends (map_page vm m tag page frame protection)
  map_page-Ends tag page frame protection m s =
      elim (map_page-MapEnd vm m tag page frame protection s) [
        | MapEnd.refused st _ e ↦ changed _ st m e s
        | MapEnd.entered _ _ _ _ _ _ _ _ _ _ _ _ e s' ↦ changed _ Status.ok _ e s'
      ]

  pub unmap_page-Ends : (tag page : ℤ) (m : Mmu vm) → Sound vm m → Ends (unmap_page vm m tag page)
  unmap_page-Ends tag page m s = elim (unmap_page-UnmapEnd vm m tag page s) [
    | UnmapEnd.refused st _ e ↦ changed _ st m e s
    | UnmapEnd.cleared _ _ _ _ _ _ _ e s' ↦ changed _ Status.ok _ e s'
  ]

  pub mmu_set_tag-Ends : (tag : ℤ) (m : Mmu vm) → Sound vm m → Ends (mmu_set_tag vm m tag)
  unfolding mmu_set_tag
  mmu_set_tag-Ends (negsuc _) m s = unchanged m _ s
  mmu_set_tag-Ends (pos k) m s = elim (Bool-cases (leb num_tag k)) [
    | inl out ↦ rw out (unchanged m _ s)
    | inr inside ↦
        let (m', e, w) = mmu_set_tag-Switched vm m k s.inv s.tracks (ground arith) in
        changed _ Status.ok m' e (record { inv = w.inv; tracks = w.tracks })
  ]

  pub set_access-Ends :
      (frame : ℤ) (access : ℕ) (m : Mmu vm) → Sound vm m → Ends (set_access vm m frame access)
  unfolding set_access
  set_access-Ends (negsuc _) access m s = unchanged m _ s
  set_access-Ends (pos f) access m s = elim (Bool-cases (leb m.num_frames f)) [
    | inl out ↦ rw out (unchanged m _ s)
    | inr inside ↦ elim (Bool-cases (ltb 3 access)) [
      | inl above ↦ rw (inside, above) (unchanged m _ s)
      | inr bits ↦
          let (m', e, w) =
            set_access-SetTo vm m f access s.inv s.tracks (ground arith) (ltb→ge 3 access bits) in
          changed _ Status.ok m' e (record { inv = w.inv; tracks = w.tracks })
    ]
  ]

  pub set_page_table-Ends :
      (pointer : ℕ) (table : ℕ → Pte) (m : Mmu vm)
      → Sound vm m
      → Ends (set_page_table vm m pointer table)
  set_page_table-Ends pointer table m s = elim (set_page_table-TableEnd vm table m pointer s) [
    | TableEnd.installed m' e s' _ ↦ changed _ Status.ok m' e s'
    | TableEnd.stopped st m' _ _ e s' ↦ changed _ st m' e s'
  ]

  -- The same of a function with its tests in front.
  pub record Kept (out : Result (Status × MmuPtr vm)) : Type 0 where
    pub status : Status
    pub mmu : MmuPtr vm
    pub returns : out ≡ done (status, mmu)
    pub fine : Fine vm mmu

  as_before : (p : MmuPtr vm) (st : Status) → Fine vm p → Kept (done (st, p))
  as_before p st s = record { status = st; mmu = p; returns = refl; fine = s }

  lifted : (out : Outcome vm) → Ends out → Kept (out >>= λ r. done (r.0, some r.1))
  lifted out e = record {
    status = e.status;
    mmu = some e.state;
    returns = rw e.returns refl;
    fine = e.sound;
  }

  pub when_on-Kept :
      (p : MmuPtr vm) (f : Mmu vm → Outcome vm)
      → Fine vm p
      → ((m : Mmu vm) → Sound vm m → Ends (f m))
      → Kept (when_on vm p f)
  unfolding when_on
  when_on-Kept none f s ends = as_before none _ tt
  when_on-Kept (some m) f s ends = lifted (f m) (ends m s)

  pub when_mode-Kept :
      (mode : Mode) (p : MmuPtr vm) (f : Mmu vm → Outcome vm)
      → Fine vm p
      → ((m : Mmu vm) → Sound vm m → Ends (f m))
      → Kept (when_mode vm mode p f)
  unfolding when_mode
  when_mode-Kept mode none f s ends = as_before none _ tt
  when_mode-Kept mode (some m) f s ends =
      if_ind Kept (same_mode vm m.mode mode) (λ _. lifted (f m) (ends m s))
        (λ _. as_before (some m) _ s)

  pub mmu_init-Kept :
      (host : Host) (num_maps num_pages num_frames : ℤ) (mode : ℕ) (p : MmuPtr vm)
      → Fine vm p
      → Kept (mmu_init vm p host num_maps num_pages num_frames mode)
  unfolding mmu_init
  mmu_init-Kept host num_maps num_pages num_frames mode none _ =
      elim (mmu_init-InitEnd vm host num_maps num_pages num_frames mode) [
        | InitEnd.rejected st _ e ↦ rw e (as_before none st tt)
        | InitEnd.on _ _ _ _ _ _ _ _ _ m e s _ _ _ _ ↦ rw e (as_before (some m) _ s)
      ]
  mmu_init-Kept host num_maps num_pages num_frames mode (some m) s = as_before (some m) _ s

  pub mmu_done-Kept : (p : MmuPtr vm) → Fine vm p → Kept (done (mmu_done vm p))
  unfolding mmu_done
  mmu_done-Kept none s = as_before none _ tt
  mmu_done-Kept (some m) s = as_before none _ tt
