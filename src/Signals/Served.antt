-- ===== src/Signals/Served.antt =====
-- What an alarm signal of src/sig_ints.c does to a machine whose operating system handles its
-- interrupts.
use usloss.Base.{
  Bool, ◌≤◌, ℕ, ◌<◌, ◌≡◌, refl, true, false, Option, none, some, ℤ, Result, done, fault, Fault,
  ◌>>=◌, arith,
}
use usloss.Psr.{Cpu, is_valid, enter_handler, leave_handler}
use usloss.Traps.Served.{entered}
use usloss.Devices.Disk.{Memory, disk_at, perform}
use usloss.Board.{Board, Handler, alarm_signal, dispatch_int, call_handler}
use usloss.Board.Inv.{Consistent, busy_at, same-Consistent}
use usloss.Board.Dispatch.{Ticked, next_interrupt-Ticked}
use usloss.Board.Calm.{next_interrupt-calm, next_interrupt-device}
use usloss.EventQueue.{low_pri_dev}
use usloss.Signals.{Vector, Machine, sighandler}

module _ (memory : Memory) (Os : Type 0) where
  -- What the simulator asks of an operating system: each device that interrupts has a handler, and
  -- the handler, called in kernel mode, returns with a valid register and the requests in agreement
  -- with the queue, and does not leave the machine waiting.
  pub record Handles (vector : Vector memory Os) : Type 0 where
    pub returns :
        (dev : ℕ) (unit : ℤ) (b : Board memory) (k : Cpu) (os : Os)
        → dev ≤ low_pri_dev
        → Consistent memory b
        → is_valid k.psr ≡ true
        → b.waiting ≡ false
        → (h : Handler memory (Cpu × Os)) × (b' : Board memory) × (k' : Cpu) × (os' : Os) × (vector
              dev
            ≡ some h)
          × (h dev unit b (k, os) ≡ done (b', (k', os')))
          × Consistent memory b'
          × (is_valid k'.psr ≡ true)
          × (b'.waiting ≡ false)

  -- How an alarm signal ends: it is served, with the registers as they were, or the action of a
  -- disk whose request is pending ends the simulator.
  pub data Alarmed (trap_pending : Bool) (c : Cpu) (b : Board memory) (os : Os)
      (out : Result (Machine memory Os)) : Type 0 where
    postponed :
        trap_pending ≡ true
        → out ≡ done (c, alarm_signal memory b, os)
        → Consistent memory (alarm_signal memory b)
        → Alarmed trap_pending c b os out
    served :
        trap_pending ≡ false
        → (b' : Board memory) (os' : Os) → out ≡ done (c, b', os')
        → Consistent memory b'
        → b'.waiting ≡ false
        → Alarmed trap_pending c b os out
    failed :
        trap_pending ≡ false
        → (u : ℕ) (f : Fault) → u < 2
        → busy_at memory b.disks u ≡ true
        → perform memory (disk_at memory b.disks u) b.mem ≡ fault f
        → out ≡ fault f
        → Alarmed trap_pending c b os out

  unfoldable handled :
      Vector memory Os
      → Cpu × Os
      → Option (ℕ × ℤ) × Board memory
      → Result (Board memory × (Cpu × Os))
  handled vector k r = elim r.0 [
    | none ↦ done (r.1, k)
    | some (dev, unit) ↦ call_handler memory (Cpu × Os) (vector dev) dev unit r.1 k
  ]

  unfoldable back : Cpu → Board memory × (Cpu × Os) → Result (Machine memory Os)
  back c r = leave_handler c r.1.0 >>= λ c'. done (c', r.0, r.1.1)

  handled-back :
      (vector : Vector memory Os) (c k : Cpu) (os : Os) (call : Option (ℕ × ℤ)) (b' : Board memory)
      → Handles vector
      → ((dev : ℕ) (unit : ℤ) → call ≡ some (dev, unit) → dev ≤ low_pri_dev)
      → is_valid k.psr ≡ true
      → Consistent memory b'
      → b'.waiting ≡ false
      → (b'' : Board memory) × (os'' : Os) × ((handled vector (k, os) (call, b') >>= back c)
          ≡ done (c, b'', os''))
        × Consistent memory b''
        × (b''.waiting ≡ false)
  unfolding handled back leave_handler
  handled-back vector c k os none b' hs known v co w = (b', os, rw v refl, co, w)
  handled-back vector c k os (some (dev, unit)) b' hs known v co w =
      let (h, b'', k', os'', eh, er, co', v', w') =
        hs.returns dev unit b' k os (known dev unit refl) co v w in
      (b'', os'', rw (eh, er, v') refl, co', w')

  entered-valid : (c : Cpu) → is_valid (entered c).psr ≡ true
  entered-valid c = ground arith

  alarm_signal-Consistent :
      (b : Board memory) → Consistent memory b → Consistent memory (alarm_signal memory b)
  unfolding alarm_signal
  alarm_signal-Consistent b co = same-Consistent memory b _ co refl refl refl (λ k. refl)

  pub sighandler-Alarmed :
      (vector : Vector memory Os) (trap_pending : Bool) (c : Cpu) (b : Board memory) (os : Os)
      → Handles vector
      → Consistent memory b
      → is_valid c.psr ≡ true
      → Alarmed trap_pending c b os (sighandler memory Os vector trap_pending (c, b, os))
  unfolding sighandler enter_handler leave_handler dispatch_int handled back alarm_signal
  sighandler-Alarmed vector true c b os hs co v =
      postponed refl (rw (v, entered-valid c) refl) (alarm_signal-Consistent b co)
  sighandler-Alarmed vector false c b os hs co v =
      let b1 = alarm_signal memory b in
      let co1 = alarm_signal-Consistent b co in
      elim (next_interrupt-Ticked memory b1 co1) [
        | Ticked.failed u f h busy p e ↦ failed refl u f h busy p (rw (v, e) refl)
        | Ticked.ticked call b' e co' ↦
            let (b'', os'', e'', co'', w) =
              handled-back vector c (entered c) os call b' hs
                (λ dev unit q. next_interrupt-device memory b1 co1.queue (rw q at e))
                (entered-valid c) co' (next_interrupt-calm memory b1 refl e) in
            served refl b'' os'' (rw (v, e) e'') co'' w
      ]
