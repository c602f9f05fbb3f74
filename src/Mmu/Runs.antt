-- ===== src/Mmu/Runs.antt =====
-- Sequences of operations on the MMU of src/mmu.c, in any order and with any arguments.
use usloss.Base.{
  ℕ, ◌≡◌, refl, inl, inr, List, [], ◌∷◌, ℤ, pos, arith, Bool-cases, negsuc, leb, ltb, ltb→ge,
  Result, done, fault, Fault, ◌>>=◌,
}
use usloss.Mmu.Types.{Cause, Vm, num_tag}
use usloss.Mmu.Pages.{Mmu, map_page, unmap_page}
use usloss.Mmu.Access.{set_access, mmu_handler}
use usloss.Mmu.Switch.{Pte, mmu_set_tag, set_page_table}
use usloss.Mmu.Inv.{cause-Inv}
use usloss.Mmu.Sound.{Sound}
use usloss.Mmu.Mapping.{MapEnd, map_page-MapEnd, UnmapEnd, unmap_page-UnmapEnd}
use usloss.Mmu.SetAccess.{set_access-SetTo}
use usloss.Mmu.SetTag.{mmu_set_tag-Switched}
use usloss.Mmu.Table.{TableEnd, set_page_table-TableEnd}
use usloss.Mmu.Faults.{Served, mmu_handler-Served}
use usloss.Mmu.Cpu.{cause-Tracks}

-- The operations that change the state, with a fault on a page among them.
pub data Op : Type 0 where
  map_op : ℤ → ℤ → ℤ → ℕ → Op
  unmap_op : ℤ → ℤ → Op
  set_tag_op : ℤ → Op
  set_access_op : ℤ → ℕ → Op
  set_page_table_op : ℕ → (ℕ → Pte) → Op
  fault_op : ℤ → Op

module _ (vm : Vm) where
  abbrev pub step : Op → Mmu vm → Result (Mmu vm)
  step (map_op tag page frame protection) m =
      map_page vm m tag page frame protection >>= λ r. done r.1
  step (unmap_op tag page) m = unmap_page vm m tag page >>= λ r. done r.1
  step (set_tag_op tag) m = mmu_set_tag vm m tag >>= λ r. done r.1
  step (set_access_op frame access) m = set_access vm m frame access >>= λ r. done r.1
  step (set_page_table_op pointer table) m = set_page_table vm m pointer table >>= λ r. done r.1
  step (fault_op page) m = mmu_handler vm m page >>= λ r. done r.1

  pub run : List Op → Mmu vm → Result (Mmu vm)
  run [] m = done m
  run (op ∷ ops) m = step op m >>= run ops

  -- An outcome: a sound state, or the end of the simulator in the "impossible" case of the handler.
  pub data Safe (out : Result (Mmu vm)) : Type 0 where
    sound : (m : Mmu vm) → out ≡ done m → Sound vm m → Safe out
    impossible : out ≡ fault Fault.aborted → Safe out

  caused : (m : Mmu vm) (c : Cause) → Sound vm m → Sound vm (record m { cause = c })
  caused m c s = record { inv = cause-Inv vm m c s.inv; tracks = cause-Tracks vm m c s.tracks }

  Safe-set_tag : (m : Mmu vm) (tag : ℤ) → Sound vm m → Safe (mmu_set_tag vm m tag >>= λ r. done r.1)
  unfolding mmu_set_tag
  Safe-set_tag m (negsuc _) s = sound m refl s
  Safe-set_tag m (pos k) s = elim (Bool-cases (leb num_tag k)) [
    | inl out ↦ rw out (sound m refl s)
    | inr inside ↦
        let (m', e, w) = mmu_set_tag-Switched vm m k s.inv s.tracks (ground arith) in
        sound m' (rw e refl) (record { inv = w.inv; tracks = w.tracks })
  ]

  Safe-set_access :
      (m : Mmu vm) (frame : ℤ) (access : ℕ)
      → Sound vm m
      → Safe (set_access vm m frame access >>= λ r. done r.1)
  unfolding set_access
  Safe-set_access m (negsuc _) access s = sound m refl s
  Safe-set_access m (pos f) access s = elim (Bool-cases (leb m.num_frames f)) [
    | inl out ↦ rw out (sound m refl s)
    | inr inside ↦ elim (Bool-cases (ltb 3 access)) [
      | inl above ↦ rw (inside, above) (sound m refl s)
      | inr bits ↦
          let (m', e, w) =
            set_access-SetTo vm m f access s.inv s.tracks (ground arith) (ltb→ge 3 access bits) in
          sound m' (rw e refl) (record { inv = w.inv; tracks = w.tracks })
    ]
  ]

  Safe-fault : (m : Mmu vm) (page : ℤ) → Sound vm m → Safe (mmu_handler vm m page >>= λ r. done r.1)
  unfolding mmu_handler
  Safe-fault m (negsuc _) s = sound m refl s
  Safe-fault m (pos i) s = elim (Bool-cases (leb m.num_pages i)) [
    | inl out ↦ rw out (sound m refl s)
    | inr inside ↦ elim (mmu_handler-Served vm m i s.inv s.tracks (ground arith)) [
      | Served.not_mapped _ e ↦ sound _ (rw e refl) (caused m Cause.fault_cause s)
      | Served.violated _ _ e ↦ sound _ (rw e refl) (caused m Cause.access_cause s)
      | Served.referenced _ _ _ e r ↦
          sound _ (rw e refl) (record { inv = r.inv; tracks = r.tracks })
      | Served.dirtied _ _ _ e r ↦ sound _ (rw e refl) (record { inv = r.inv; tracks = r.tracks })
      | Served.stuck _ _ e ↦ impossible (rw e refl)
    ]
  ]

  pub step-Safe : (op : Op) (m : Mmu vm) → Sound vm m → Safe (step op m)
  step-Safe (map_op tag page frame protection) m s =
      elim (map_page-MapEnd vm m tag page frame protection s) [
        | MapEnd.refused _ _ e ↦ sound m (rw e refl) s
        | MapEnd.entered _ _ _ _ _ _ _ _ _ _ _ _ e s' ↦ sound _ (rw e refl) s'
      ]
  step-Safe (unmap_op tag page) m s = elim (unmap_page-UnmapEnd vm m tag page s) [
    | UnmapEnd.refused _ _ e ↦ sound m (rw e refl) s
    | UnmapEnd.cleared _ _ _ _ _ _ _ e s' ↦ sound _ (rw e refl) s'
  ]
  step-Safe (set_tag_op tag) m s = Safe-set_tag m tag s
  step-Safe (set_access_op frame access) m s = Safe-set_access m frame access s
  step-Safe (set_page_table_op pointer table) m s =
      elim (set_page_table-TableEnd vm table m pointer s) [
        | TableEnd.installed m' e s' _ ↦ sound m' (rw e refl) s'
        | TableEnd.stopped _ m' _ _ e s' ↦ sound m' (rw e refl) s'
      ]
  step-Safe (fault_op page) m s = Safe-fault m page s

  -- From a sound state, no sequence of operations and faults, with any arguments, fails an
  -- assertion: it ends in a sound state, or in the case that `USLOSS_MmuHandler` calls impossible.
  pub run-Safe : (ops : List Op) (m : Mmu vm) → Sound vm m → Safe (run ops m)
  unfolding run
  run-Safe [] m s = sound m refl s
  run-Safe (op ∷ ops) m s = elim (step-Safe op m s) [
    | impossible e ↦ impossible (rw e refl)
    | sound m' e s' ↦ rw e (run-Safe ops m' s')
  ]
