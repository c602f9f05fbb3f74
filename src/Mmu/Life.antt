-- ===== src/Mmu/Life.antt =====
-- The life of the MMU of src/mmu.c: any sequence of calls of the operating system and faults, from
-- the start of the simulator on.
use usloss.Base.{ℕ, ◌≡◌, refl, none, some, List, [], ◌∷◌, ℤ, Result, done, fault, Fault, ◌>>=◌}
use usloss.Mmu.Types.{Status, Vm}
use usloss.Mmu.Pages.{Mmu, Outcome}
use usloss.Mmu.Access.{Verdict, mmu_handler}
use usloss.Mmu.Switch.{Pte}
use usloss.Mmu.Config.{Host, MmuPtr, mmu_init, mmu_done, mmu_map, mmu_unmap}
use usloss.Mmu.Api.{
  page_index, usloss_mmu_set_access, usloss_mmu_set_tag, usloss_mmu_set_page_table,
  usloss_mmu_handler,
}
use usloss.Mmu.Sound.{Sound}
use usloss.Mmu.Runs.{fault_op, Safe, step-Safe}

-- What changes the state of the MMU: the calls, and a fault at an address.
pub data Call : Type 0 where
  init : Host → ℤ → ℤ → ℤ → ℕ → Call
  finish : Call
  map : ℤ → ℤ → ℤ → ℕ → Call
  unmap : ℤ → ℤ → Call
  set_tag : ℤ → Call
  set_access : ℤ → ℕ → Call
  set_page_table : ℕ → (ℕ → Pte) → Call
  fault_at : ℕ → Call

module _ (vm : Vm) where
  abbrev pub call : Call → MmuPtr vm → Result (MmuPtr vm)
  call (init host num_maps num_pages num_frames mode) p =
      mmu_init vm p host num_maps num_pages num_frames mode >>= λ r. done r.1
  call finish p = done (mmu_done vm p).1
  call (map tag page frame protection) p = mmu_map vm p tag page frame protection >>= λ r. done r.1
  call (unmap tag page) p = mmu_unmap vm p tag page >>= λ r. done r.1
  call (set_tag tag) p = usloss_mmu_set_tag vm p tag >>= λ r. done r.1
  call (set_access frame access) p = usloss_mmu_set_access vm p frame access >>= λ r. done r.1
  call (set_page_table pointer table) p =
      usloss_mmu_set_page_table vm p pointer table >>= λ r. done r.1
  call (fault_at addr) p = usloss_mmu_handler vm p addr >>= λ r. done r.1

  pub life : List Call → MmuPtr vm → Result (MmuPtr vm)
  life [] p = done p
  life (c ∷ cs) p = call c p >>= life cs

  -- An outcome: the MMU is off, or on in a sound state, or the simulator has ended in the case of
  -- the handler that it calls impossible.
  pub data Lives (out : Result (MmuPtr vm)) : Type 0 where
    off : out ≡ done none → Lives out
    on : (m : Mmu vm) → out ≡ done (some m) → Sound vm m → Lives out
    impossible : out ≡ fault Fault.aborted → Lives out

  lifted : Result (Mmu vm) → Result (MmuPtr vm)
  lifted (done m) = done (some m)
  lifted (fault f) = fault f

  lifted-Lives : (out : Result (Mmu vm)) → Safe vm out → Lives (lifted out)
  unfolding lifted
  lifted-Lives out (Safe.sound m e s) = on m (rw e refl) s
  lifted-Lives out (Safe.impossible e) = impossible (rw e refl)

  unfoldable lift : Outcome vm → Result (Status × MmuPtr vm)
  lift out = out >>= λ r. done (r.0, some r.1)

  -- The state of an MMU that is on is sound.
  abbrev pub Fine : MmuPtr vm → Type 0
  Fine none = Unit {0}
  Fine (some m) = Sound vm m

  unfoldable lift_verdict : Result (Verdict × Mmu vm) → Result (Verdict × MmuPtr vm)
  lift_verdict out = out >>= λ r. done (r.0, some r.1)

  handled-Lives :
      (out : Result (Verdict × Mmu vm))
      → Safe vm (out >>= λ r. done r.1)
      → Lives (lift_verdict out >>= λ r. done r.1)
  unfolding lift_verdict lifted
  handled-Lives (done r) s = lifted-Lives (done r.1) s
  handled-Lives (fault f) s = lifted-Lives (fault f) s

  pub handler-Lives :
      (addr : ℕ) (p : MmuPtr vm) → Fine p → Lives (usloss_mmu_handler vm p addr >>= λ r. done r.1)
  unfolding usloss_mmu_handler lift_verdict
  handler-Lives addr none s = off refl
  handler-Lives addr (some m) s =
      let page = page_index m.region m.page_size addr in
      handled-Lives (mmu_handler vm m page) (step-Safe vm (fault_op page) m s)
