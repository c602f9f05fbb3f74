-- ===== src/System/Reachable.antt =====
-- The states that the simulator can get into, from the start of the operating system on.
use mathlib.Core.Path.{subst}
use usloss.Base.{
  ℕ, ◌≡◌, refl, sym, ◌∙◌, ap, true, Option, some, some_inj, List, [], ◌∷◌, ◌==◌, if_ind, done,
  done_inj, done≢fault, arith,
}
use usloss.Devices.Disk.{Memory}
use usloss.Psr.{Cpu, is_valid}
use usloss.Traps.Served.{entered}
use usloss.Board.{Board}
use usloss.Board.Inv.{Consistent, same-Consistent}
use usloss.Board.Runs.{Step as BoardStep, alarm_signal-Consistent, Step-Consistent}
use usloss.Mmu.Types.{Vm}
use usloss.Mmu.Access.{Verdict}
use usloss.Mmu.Config.{MmuPtr}
use usloss.Mmu.Api.{usloss_mmu_handler}
use usloss.Mmu.Life.{Fine, Lives, handler-Lives}
use usloss.Contexts.{resumed}
use usloss.Kernel.{KernelCall, Reply, World, carry_out}
use usloss.System.{
  Frame, signal_frame, fault_frame, Thread, Threads, put, leave_frame, Sparing, State, Step,
}
use usloss.System.Registers.{
  psr_get-psr, enter_handler-entered, leave_handler-old, resumed-psr, context_init-psr,
  context_switch-kept,
}
use usloss.System.Answers.{Good, carry_out-Answers}

-- The registers that handlers have saved are valid.
abbrev pub SavedIn : Frame → Type 0
SavedIn (signal_frame old) = is_valid old.psr ≡ true
SavedIn (fault_frame old entry) = (is_valid old.psr ≡ true) × (is_valid entry.psr ≡ true)

abbrev pub Saved : List Frame → Type 0
Saved [] = Unit {0}
Saved (f ∷ fs) = SavedIn f × Saved fs

-- The registers that a handler has interrupted.
abbrev pub saved_cpu : Frame → Cpu
saved_cpu (signal_frame old) = old
saved_cpu (fault_frame old entry) = old

saved_cpu-valid : (f : Frame) → SavedIn f → is_valid (saved_cpu f).psr ≡ true
saved_cpu-valid (signal_frame old) v = v
saved_cpu-valid (fault_frame old entry) v = v.0

leave_frame-saved_cpu : (f : Frame) (c c' : Cpu) → leave_frame f c ≡ done c' → c' ≡ saved_cpu f
unfolding leave_frame
leave_frame-saved_cpu (signal_frame old) c c' e = leave_handler-old old c c' e
leave_frame-saved_cpu (fault_frame old entry) c c' e = leave_handler-old old _ c' e

entered-valid : (c : Cpu) → is_valid (entered c).psr ≡ true
entered-valid c = ground arith

abbrev pub AllSaved : Threads → Type 0
AllSaved threads = (i : ℕ) (t : Thread) → threads i ≡ some t → Saved t.frames

put-AllSaved :
    (i : ℕ) (t : Thread) (threads : Threads)
    → Saved t.frames
    → AllSaved threads
    → AllSaved (put i t threads)
put-AllSaved i t threads v all j t' =
    if_ind (λ (x : Option Thread). x ≡ some t' → Saved t'.frames) (j == i)
      (λ _ e. subst (λ (x : Thread). Saved x.frames) (some_inj e) v) (λ _ e. all j t' e)

module _ (memory : Memory) (vm : Vm) (Os : Type 0) where
  -- The invariant: the register and the registers that handlers have saved, of every context, are
  -- valid, the devices agree with the queue, and the MMU is off or in a sound state.
  pub record Healthy (s : State memory vm Os) : Type 0 where
    pub good : Good memory vm Os s.cpu s.world
    pub frames : Saved s.frames
    pub threads : AllSaved s.threads

  -- A signal that a handler has been entered for.
  entered-Healthy :
      (s : State memory vm Os) (f : Frame) (k : Cpu) (w : World memory vm Os)
      → Healthy s
      → k ≡ entered s.cpu
      → SavedIn f
      → Consistent memory w.0
      → Fine vm w.1
      → Healthy (record s { cpu = k; world = w; frames = f ∷ s.frames })
  entered-Healthy s f k w h e v co fine = record {
    good = record { valid = rw e (entered-valid s.cpu); consistent = co; fine = fine };
    frames = (v, h.frames);
    threads = h.threads;
  }

  -- The same context goes on, with another world.
  going_on :
      (s : State memory vm Os) (c : Cpu) (w : World memory vm Os)
      → Healthy s
      → c.psr ≡ s.cpu.psr
      → Consistent memory w.0
      → Fine vm w.1
      → Healthy (record s { cpu = c; world = w })
  going_on s c w h e co fine = record {
    good = record { valid = rw e h.good.valid; consistent = co; fine = fine };
    frames = h.frames;
    threads = h.threads;
  }

  called :
      (s : State memory vm Os) (k : KernelCall) (r : Reply) (c : Cpu) (w : World memory vm Os)
      → Healthy s
      → Sparing k s.world.0.armed
      → carry_out memory vm Os k s.cpu s.world ≡ some (done (r, c, w))
      → Good memory vm Os c w
  called s k r c w h spare e =
      let a = carry_out-Answers memory vm Os k s.cpu s.world.0 s.world.1 s.world.2 h.good spare in
      subst (λ (x : Reply × Cpu × World memory vm Os). Good memory vm Os x.1 x.2)
        (done_inj (some_inj (sym a.returns ∙ e))) a.good

  handled-Fine :
      (p p' : MmuPtr vm) (addr : ℕ) (v : Verdict)
      → Fine vm p
      → usloss_mmu_handler vm p addr ≡ done (v, p')
      → Fine vm p'
  handled-Fine p p' addr v f e = elim (rw e at (handler-Lives vm addr p f)) [
    | Lives.off r ↦ subst (Fine vm) (sym (done_inj r)) tt
    | Lives.on m r s ↦ subst (Fine vm) (sym (done_inj r)) s
    | Lives.impossible r ↦ done≢fault r
  ]

  pub Step-Healthy : (s s' : State memory vm Os) → Healthy s → Step memory vm Os s s' → Healthy s'
  Step-Healthy s _ h (Step.check bits c e) =
      going_on s c s.world h (psr_get-psr s.cpu c bits e) h.good.consistent h.good.fine
  Step-Healthy s _ h (Step.call k r c w spare e) = record {
    good = called s k r c w h spare e;
    frames = h.frames;
    threads = h.threads;
  }
  Step-Healthy s _ h (Step.compute mem os) =
      going_on s s.cpu _ h refl
        (same-Consistent memory s.world.0 _ h.good.consistent refl refl refl (λ k. refl))
        h.good.fine
  Step-Healthy s _ h (Step.wait on) =
      going_on s s.cpu _ h refl
        (same-Consistent memory s.world.0 _ h.good.consistent refl refl refl (λ k. refl))
        h.good.fine
  Step-Healthy s _ h (Step.alarm k dev unit b open_mask e i) =
      entered-Healthy s (signal_frame s.cpu) k _ h (enter_handler-entered s.cpu k e) h.good.valid
        (Step-Consistent memory h.good.consistent (BoardStep.signal _ b i)) h.good.fine
  Step-Healthy s _ h (Step.quiet_alarm k c b open_mask e i l) =
      going_on s c _ h (ap (λ (x : Cpu). x.psr) (leave_handler-old s.cpu k c l))
        (Step-Consistent memory h.good.consistent (BoardStep.signal _ b i)) h.good.fine
  Step-Healthy s _ h (Step.delayed_alarm k c open_mask e l) =
      going_on s c _ h (ap (λ (x : Cpu). x.psr) (leave_handler-old s.cpu k c l))
        (alarm_signal-Consistent memory s.world.0 h.good.consistent) h.good.fine
  Step-Healthy s _ h (Step.trap k user open_mask e) =
      entered-Healthy s (signal_frame s.cpu) k s.world h (enter_handler-entered s.cpu k e)
        h.good.valid h.good.consistent h.good.fine
  Step-Healthy s _ h (Step.page_fault addr k p e m) =
      let entry = enter_handler-entered s.cpu k e in
      entered-Healthy s (fault_frame s.cpu k) k _ h entry
        (h.good.valid, rw entry (entered-valid s.cpu)) h.good.consistent
        (handled-Fine s.world.1 p addr Verdict.interrupt h.good.fine m)
  Step-Healthy s _ h (Step.mended_fault addr k c p e m l) =
      going_on s c _ h (ap (λ (x : Cpu). x.psr) (leave_handler-old s.cpu k c l)) h.good.consistent
        (handled-Fine s.world.1 p addr Verdict.resume h.good.fine m)
  Step-Healthy s _ h (Step.return f fs c top e) =
      let v : Saved (f ∷ fs) = subst Saved top h.frames in
      record {
        good = record {
          valid = rw (leave_frame-saved_cpu f s.cpu c e) (saved_cpu-valid f v.0);
          consistent = h.good.consistent;
          fine = h.good.fine;
        };
        frames = v.1;
        threads = h.threads;
      }
  Step-Healthy s _ h (Step.make_context i stack_size page_table pc new c e) =
      let same = context_init-psr (World memory vm Os) stack_size page_table pc s.cpu c _ _ new e in
      let g = going_on s c s.world h same h.good.consistent h.good.fine in
      record { good = g.good; frames = h.frames; threads = put-AllSaved i _ s.threads tt h.threads }
  Step-Healthy s _ h (Step.switch tables i j old new enabled p c there e) =
      let (fine, same) =
        context_switch-kept vm (Board memory × Os) tables new.context s.world.1 p s.cpu c _ _
          enabled h.good.fine e in
      let g =
        going_on s (resumed new.target c) (s.world.0, p, s.world.2) h
          (resumed-psr new.target c ∙ same) h.good.consistent fine in
      record {
        good = g.good;
        frames = h.threads j new there;
        threads = put-AllSaved i _ s.threads h.frames h.threads;
      }
