-- ===== src/System/Answers.antt =====
-- The functions of src/devices.c, src/globals.c and src/mmu.c that change the state, called on
-- devices in agreement with the queue and an MMU that is off or in a sound state.
use usloss.Base.{ℕ, ◌≡◌, refl, none, some, true, Result, done}
use usloss.Devices.Disk.{Memory}
use usloss.Psr.{Cpu, is_valid, int_off, int_on_if, PsrStatus}
use usloss.Psr.Laws.{PsrEnd, psr_set-PsrEnd}
use usloss.Board.{Board}
use usloss.Clock.{usloss_clock}
use usloss.Board.Inv.{Consistent, same-Consistent}
use usloss.Board.Questions.{device_input-returns}
use usloss.Board.Requests.{device_output-Answered}
use usloss.Mmu.Types.{Status, tlb, pagetable, Vm}
use usloss.Mmu.Config.{MmuPtr, mmu_map, mmu_unmap}
use usloss.Mmu.Api.{usloss_mmu_set_access, usloss_mmu_set_tag, usloss_mmu_set_page_table}
use usloss.Mmu.Life.{Fine}
use usloss.Kernel.{KernelCall, Reply, World, CallEnd, carry_out, mmu_answer}
use usloss.System.{Sparing}
use usloss.System.Registers.{int_on_if-psr}
use usloss.System.Calls.{
  Kept, when_on-Kept, when_mode-Kept, map_page-Ends, unmap_page-Ends, mmu_set_tag-Ends,
  set_access-Ends, set_page_table-Ends, mmu_init-Kept, mmu_done-Kept,
}

module _ (memory : Memory) (vm : Vm) (Os : Type 0) where
  -- What a call needs and keeps: a valid register, devices in agreement with the queue, and an MMU
  -- that is off or in a sound state.
  pub record Good (c : Cpu) (w : World memory vm Os) : Type 0 where
    pub valid : is_valid c.psr ≡ true
    pub consistent : Consistent memory w.0
    pub fine : Fine vm w.1

  -- A call that returns in a good state, with the operating system as it was.
  pub record Answers (os : Os) (out : CallEnd memory vm Os) : Type 0 where
    pub reply : Reply
    pub cpu : Cpu
    pub board : Board memory
    pub mmu : MmuPtr vm
    pub returns : out ≡ some (done (reply, cpu, (board, mmu, os)))
    pub good : Good cpu (board, mmu, os)

  mmu-Answers :
      (c : Cpu) (b : Board memory) (p : MmuPtr vm) (os : Os) (r : Result (Status × MmuPtr vm))
      → Good c (b, p, os)
      → Kept vm r
      → Answers os (mmu_answer memory vm Os c b os r)
  mmu-Answers c b p os r g k = record {
    reply = Reply.mmu k.status;
    cpu = c;
    board = b;
    mmu = k.mmu;
    returns = rw k.returns refl;
    good = record { valid = g.valid; consistent = g.consistent; fine = k.fine };
  }

  psr_set-Answers :
      (new : ℕ) (c : Cpu) (b : Board memory) (p : MmuPtr vm) (os : Os)
      → Good c (b, p, os)
      → Answers os (carry_out memory vm Os (KernelCall.set_psr new) c (b, p, os))
  unfolding carry_out
  psr_set-Answers new c b p os g = elim (psr_set-PsrEnd new c g.valid) [
    | PsrEnd.refused _ e ↦ record {
      reply = Reply.psr PsrStatus.invalid_psr;
      cpu = record c { alarm_blocked = true; usr1_blocked = true };
      board = b;
      mmu = p;
      returns = rw e refl;
      good = record { valid = g.valid; consistent = g.consistent; fine = g.fine };
    }
    | PsrEnd.accepted c' _ e a _ ↦ record {
      reply = Reply.psr PsrStatus.ok;
      cpu = c';
      board = b;
      mmu = p;
      returns = rw e refl;
      good = record { valid = a.valid; consistent = g.consistent; fine = g.fine };
    }
  ]

  clock-Answers :
      (random : ℕ) (c : Cpu) (b : Board memory) (p : MmuPtr vm) (os : Os)
      → Good c (b, p, os)
      → Answers os (carry_out memory vm Os (KernelCall.clock random) c (b, p, os))
  unfolding carry_out int_off
  clock-Answers random c b p os g = record {
    reply = Reply.time (usloss_clock random b.ticks).0;
    cpu = int_on_if (int_off c).0 (int_off c).1;
    board = record b { ticks = (usloss_clock random b.ticks).1 };
    mmu = p;
    returns = refl;
    good = record {
      valid = rw (int_on_if-psr (int_off c).0 (int_off c).1) g.valid;
      consistent = same-Consistent memory b _ g.consistent refl refl refl (λ k. refl);
      fine = g.fine;
    };
  }

  pub carry_out-Answers :
      (k : KernelCall) (c : Cpu) (b : Board memory) (p : MmuPtr vm) (os : Os)
      → Good c (b, p, os)
      → Sparing k b.armed
      → Answers os (carry_out memory vm Os k c (b, p, os))
  unfolding carry_out mmu_map mmu_unmap usloss_mmu_set_tag usloss_mmu_set_access
      usloss_mmu_set_page_table
  carry_out-Answers (KernelCall.input dev unit random) c b p os g _ =
      let (code, status, b', e, co) = device_input-returns memory dev unit random b g.consistent in
      record {
        reply = Reply.device code status;
        cpu = c;
        board = b';
        mmu = p;
        returns = rw e refl;
        good = record { valid = g.valid; consistent = co; fine = g.fine };
      }
  carry_out-Answers (KernelCall.output dev unit arg) c b p os g spare =
      let a = device_output-Answered memory dev unit arg b g.consistent spare in
      record {
        reply = Reply.device a.code none;
        cpu = c;
        board = a.board;
        mmu = p;
        returns = rw (carry_out, a.returns) refl;
        good = record { valid = g.valid; consistent = a.consistent; fine = g.fine };
      }
  carry_out-Answers (KernelCall.clock random) c b p os g _ = clock-Answers random c b p os g
  carry_out-Answers (KernelCall.set_psr new) c b p os g _ = psr_set-Answers new c b p os g
  carry_out-Answers (KernelCall.init host maps pages frames mode) c b p os g _ =
      mmu-Answers c b p os _ g (mmu_init-Kept vm host maps pages frames mode p g.fine)
  carry_out-Answers KernelCall.finish c b p os g _ =
      mmu-Answers c b p os _ g (mmu_done-Kept vm p g.fine)
  carry_out-Answers (KernelCall.map tag page frame protection) c b p os g _ =
      mmu-Answers c b p os _ g
        (when_mode-Kept vm tlb p _ g.fine (map_page-Ends vm tag page frame protection))
  carry_out-Answers (KernelCall.unmap tag page) c b p os g _ =
      mmu-Answers c b p os _ g (when_mode-Kept vm tlb p _ g.fine (unmap_page-Ends vm tag page))
  carry_out-Answers (KernelCall.set_tag tag) c b p os g _ =
      mmu-Answers c b p os _ g (when_mode-Kept vm tlb p _ g.fine (mmu_set_tag-Ends vm tag))
  carry_out-Answers (KernelCall.set_access frame access) c b p os g _ =
      mmu-Answers c b p os _ g (when_on-Kept vm p _ g.fine (set_access-Ends vm frame access))
  carry_out-Answers (KernelCall.set_page_table pointer table) c b p os g _ =
      mmu-Answers c b p os _ g
        (when_mode-Kept vm pagetable p _ g.fine (set_page_table-Ends vm pointer table))
