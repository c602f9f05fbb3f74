-- ===== src/Mmu/Access.antt =====
-- The access bits and the page faults of src/mmu.c: `USLOSS_MmuSetAccess`, `USLOSS_MmuGetAccess`
-- and the part of `USLOSS_MmuHandler` that decides what a fault means.
use Prim.Native.Nat.{bit_or}
use usloss.Base.{
  ℕ, zero, suc, ◌/◌, ◌%◌, Bool, not, Option, none, some, leb, ltb, ◌==◌, if◌then◌else◌, get_or, set,
  ℤ, pos, out_of_range, index, eq_ℤ, Result, done, fault, Fault, check, ◌>>=◌, ◌>>◌, minus_one,
}
use usloss.Mmu.Types.{
  Status, Prot, prot_none, prot_read, prot_rw, is_mapped, Cause, Vm, virt_none, virt_read, virt_rw,
}
use usloss.Mmu.Pages.{Mmu, Outcome, current_page, set_real_prot}

-- USLOSS_MMU_REF and USLOSS_MMU_DIRTY.
abbrev pub ref_bit : ℕ
ref_bit = 1

abbrev pub dirty_bit : ℕ
dirty_bit = 2

abbrev pub has_ref : ℕ → Bool
has_ref access = access % 2 == 1

abbrev pub has_dirty : ℕ → Bool
has_dirty access = access / 2 % 2 == 1

-- The protection that makes the next access to a frame with these bits fault, if there is one.
abbrev pub watch_prot : ℕ → Option Prot
watch_prot access =
    if not (has_ref access)
    then some prot_none
    else if not (has_dirty access)
    then some prot_read
    else none

-- What `USLOSS_MmuHandler` does about the real and the asked protection of the page: the `switch`.
pub data Action : Type 0 where
  violation set_dirty set_ref impossible : Action

unfoldable pub action : Prot → ℕ → Action
action prot_none virt =
    if virt == virt_none
    then Action.violation
    else if virt == virt_read
    then Action.set_ref
    else if virt == virt_rw
    then Action.set_ref
    else Action.impossible
action prot_read virt =
    if virt == virt_read
    then Action.violation
    else if virt == virt_rw
    then Action.set_dirty
    else Action.impossible
action prot_rw virt = if virt == virt_rw then Action.violation else Action.impossible

-- What follows a fault: the access is made again, the operating system's MMU interrupt handler is
-- called, or the host's own handler gets the signal.
pub data Verdict : Type 0 where
  resume interrupt real_segv : Verdict

module _ (vm : Vm) where
  -- The loop of `USLOSS_MmuSetAccess`, with `n` pages left from page i on.
  unfoldable pub protect_frame : ℕ → ℕ → ℕ → Prot → Mmu vm → Result (Mmu vm)
  protect_frame zero i frame prot m = done m
  protect_frame (suc n) i frame prot m =
      (if eq_ℤ (current_page vm m i).frame (pos frame) then set_real_prot vm m i prot else done m)
      >>= protect_frame n (suc i) frame prot

  -- `USLOSS_MmuSetAccess`, with the MMU on. The access bits are a 32-bit pattern.
  unfoldable pub set_access : Mmu vm → ℤ → ℕ → Outcome vm
  set_access m frame access =
      if out_of_range frame m.num_frames
      then done (Status.err_frame, m)
      else if ltb 3 access
      then done (Status.err_acc, m)
      else let m' = record m { frames = set m.frames (index frame) access } in
        elim (watch_prot access) [
          | none ↦ done (Status.ok, m')
          | some prot ↦
              protect_frame m.num_pages 0 (index frame) prot m' >>= λ m''. done (Status.ok, m'')
        ]

  -- `USLOSS_MmuGetAccess`, with the MMU on: the status, and what goes through `accessPtr`, which is
  -- NULL if `wanted` is false.
  unfoldable pub get_access : Mmu vm → ℤ → Bool → Status × Option ℕ
  get_access m frame wanted =
      if out_of_range frame m.num_frames
      then (Status.err_frame, none)
      else if wanted
      then (Status.ok, some (get_or m.frames (index frame) 0))
      else (Status.err_null, none)

  abbrev pub add_bit : Mmu vm → ℕ → ℕ → Mmu vm
  add_bit m frame bit = record m {
    frames = set m.frames frame (bit_or (get_or m.frames frame 0) bit);
  }

  -- The `switch` on a page that is mapped.
  unfoldable pub take_action : Action → Mmu vm → ℕ → ℕ → Result (Verdict × Mmu vm)
  take_action Action.violation m page frame =
      done (Verdict.interrupt, record m { cause = Cause.access_cause })
  take_action Action.set_dirty m page frame =
      set_real_prot vm m page prot_rw >>= λ m'. done (Verdict.resume, add_bit m' frame dirty_bit)
  take_action Action.set_ref m page frame =
      set_real_prot vm m page prot_read >>= λ m'. done (Verdict.resume, add_bit m' frame ref_bit)
  take_action Action.impossible m page frame = fault Fault.aborted

  -- `USLOSS_MmuHandler`, for a fault on a page number while the MMU is on and no touch is under
  -- way.
  unfoldable pub mmu_handler : Mmu vm → ℤ → Result (Verdict × Mmu vm)
  mmu_handler m page =
      if out_of_range page m.num_pages
      then done (Verdict.real_segv, m)
      else let p = current_page vm m (index page) in
        if eq_ℤ m.tag minus_one
        then done (Verdict.interrupt, record m { cause = Cause.fault_cause })
        else if not (is_mapped p)
        then done (Verdict.interrupt, record m { cause = Cause.fault_cause })
        else (check (leb p.virt_prot 3) Fault.assertion
            >> take_action (action p.real_prot p.virt_prot) m (index page) (index p.frame))
