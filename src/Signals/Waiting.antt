-- ===== src/Signals/Waiting.antt =====
-- `USLOSS_WaitInt` of src/sig_ints.c: when it returns.
use mathlib.Core.Path.{subst}
use usloss.Base.{
  bool_clash, ℕ, zero, suc, ◌+◌, ◌<◌, ◌≡◌, refl, ◌∙◌, ap, true, false, not, Option, none, some,
  Result, done, fault, Fault, arith, if_ind,
}
use usloss.Psr.{Cpu, int_enabled, PsrStatus, is_refused, psr_set}
use usloss.Psr.Laws.{Agrees, psr_set-desyncs}
use usloss.Devices.Disk.{Memory, disk_at, perform}
use usloss.Board.{Board}
use usloss.Board.Inv.{Consistent, busy_at, same-Consistent}
use usloss.Signals.{Vector, Machine, sighandler, raise_alarm, wait_loop, wait_int, resumed}
use usloss.Signals.Served.{Handles, Alarmed, sighandler-Alarmed}

module _ (memory : Memory) (Os : Type 0) where
  -- How `USLOSS_WaitInt` ends: with the registers as they were after an alarm signal that was
  -- served, or with the end of the simulator in the action of a disk.
  pub data Waited (c : Cpu) (b : Board memory) (out : Option (Result (Machine memory Os)))
      : Type 0 where
    woken :
        (b' : Board memory) (os' : Os)
        → out ≡ some (done (c, b', os'))
        → Consistent memory b'
        → Waited c b out
    failed :
        (u : ℕ) (f : Fault)
        → u < 2
        → busy_at memory b.disks u ≡ true
        → perform memory (disk_at memory b.disks u) b.mem ≡ fault f
        → out ≡ some (fault f)
        → Waited c b out

  loop_on :
      (fuel : ℕ) (vector : Vector memory Os) (c : Cpu) (b : Board memory) (os : Os)
      → b.waiting ≡ true
      → wait_loop memory Os (suc fuel) vector (c, b, os)
        ≡ resumed memory Os
            (wait_loop memory Os fuel vector)
            (raise_alarm memory Os vector (c, b, os))
  unfolding wait_loop
  loop_on fuel vector c b os w =
      if_ind
        (λ x.
          x
          ≡ resumed memory Os (wait_loop memory Os fuel vector)
              (raise_alarm memory Os vector (c, b, os)))
        (not b.waiting) (λ h. let clash : false ≡ true = rw w at h in bool_clash clash refl)
        (λ _. refl)

  loop_end :
      (fuel : ℕ) (vector : Vector memory Os) (c : Cpu) (b : Board memory) (os : Os)
      → b.waiting ≡ false
      → wait_loop memory Os (suc fuel) vector (c, b, os) ≡ some (done (c, b, os))
  unfolding wait_loop
  loop_end fuel vector c b os w =
      if_ind (λ x. x ≡ some (done (c, b, os))) (not b.waiting) (λ _. refl)
        (λ h. let clash : true ≡ false = rw w at h in bool_clash refl clash)

  delivered :
      (vector : Vector memory Os) (c : Cpu) (b : Board memory) (os : Os)
      → c.alarm_blocked ≡ false
      → raise_alarm memory Os vector (c, b, os) ≡ sighandler memory Os vector false (c, b, os)
  unfolding raise_alarm
  delivered vector c b os u =
      if_ind (λ x. x ≡ sighandler memory Os vector false (c, b, os)) c.alarm_blocked
        (λ h. bool_clash h u) (λ _. refl)

  not_delivered :
      (vector : Vector memory Os) (c : Cpu) (b : Board memory) (os : Os)
      → c.alarm_blocked ≡ true
      → raise_alarm memory Os vector (c, b, os) ≡ done (c, b, os)
  unfolding raise_alarm
  not_delivered vector c b os bl =
      if_ind (λ x. x ≡ done (c, b, os)) c.alarm_blocked (λ _. refl) (λ h. bool_clash bl h)

  enabled_loop :
      (fuel : ℕ) (vector : Vector memory Os) (c : Cpu) (b : Board memory) (os : Os)
      → int_enabled c.psr ≡ true
      → wait_int memory Os fuel vector (c, b, os)
        ≡ wait_loop memory Os fuel vector (c, record b { waiting = true }, os)
  unfolding wait_int
  enabled_loop fuel vector c b os on = rw on refl

  -- `USLOSS_WaitInt`, called with interrupts on, a register that agrees with the signal mask,
  -- devices in agreement with the queue and an operating system that handles its interrupts,
  -- returns after one alarm signal, whatever the event of that tick; two rounds of the loop
  -- suffice.
  pub wait_int-Waited :
      (n : ℕ) (vector : Vector memory Os) (c : Cpu) (b : Board memory) (os : Os)
      → Handles memory Os vector
      → Consistent memory b
      → Agrees c
      → int_enabled c.psr ≡ true
      → Waited c b (wait_int memory Os (n + 2) vector (c, b, os))
  unfolding wait_int
  wait_int-Waited n vector c b os hs co a on =
      let b1 = record b { waiting = true } in
      let co1 = same-Consistent memory b b1 co refl refl refl (λ k. refl) in
      let unblocked : c.alarm_blocked ≡ false = a.alarm ∙ ap not on in
      elim (sighandler-Alarmed memory Os vector false c b1 os hs co1 a.valid) [
        | Alarmed.postponed trap _ _ ↦ absurd (cc)
        | Alarmed.served _ b' os' e co' w ↦
            let run =
              loop_on (suc n) vector c b1 os refl
              ∙ ap (resumed memory Os (wait_loop memory Os (suc n) vector))
                  (delivered vector c b1 os unblocked ∙ e) in
            woken b' os'
              (subst (λ k. wait_int memory Os k vector (c, b, os) ≡ some (done (c, b', os')))
                (omega arith)
                (enabled_loop (suc (suc n)) vector c b os on
                  ∙ (run ∙ loop_end n vector c b' os' w)))
              co'
        | Alarmed.failed _ u f h busy p e ↦
            let run =
              loop_on (suc n) vector c b1 os refl
              ∙ ap (resumed memory Os (wait_loop memory Os (suc n) vector))
                  (delivered vector c b1 os unblocked ∙ e) in
            failed u f h busy p (
              subst (λ k. wait_int memory Os k vector (c, b, os) ≡ some (fault f)) (omega arith)
                (enabled_loop (suc (suc n)) vector c b os on ∙ run))
      ]

  blocked_loop :
      (fuel : ℕ) (vector : Vector memory Os) (c : Cpu) (b : Board memory) (os : Os)
      → c.alarm_blocked ≡ true
      → b.waiting ≡ true
      → wait_loop memory Os fuel vector (c, b, os) ≡ none
  unfolding wait_loop
  blocked_loop zero vector c b os bl w = refl
  blocked_loop (suc fuel) vector c b os bl w =
      loop_on fuel vector c b os w
      ∙ (ap (resumed memory Os (wait_loop memory Os fuel vector)) (not_delivered vector c b os bl)
          ∙ blocked_loop fuel vector c b os bl w)

  -- After a `USLOSS_PsrSet` that was refused while interrupts were on, `USLOSS_WaitInt` does not
  -- return, whatever the number of rounds of its loop: the register says that interrupts are on,
  -- and the alarm is blocked.
  pub wait_int-hangs :
      (new : ℕ) (vector : Vector memory Os) (c : Cpu) (b : Board memory) (os : Os)
      → Agrees c
      → int_enabled c.psr ≡ true
      → is_refused new ≡ true
      → (c' : Cpu) × (psr_set new c ≡ done (PsrStatus.invalid_psr, c'))
        × ((fuel : ℕ) → wait_int memory Os fuel vector (c', b, os) ≡ none)
  wait_int-hangs new vector c b os a on e =
      let (c', r, on', blocked, _) = psr_set-desyncs new c a on e in
      (
        c',
        r,
        λ fuel.
            enabled_loop fuel vector c' b os on'
            ∙ blocked_loop fuel vector c' (record b { waiting = true }) os blocked refl,
      )
