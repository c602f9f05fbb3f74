-- ===== src/Board/Dispatch.antt =====
-- `dispatch_int` of src/devices.c on devices in agreement with the queue: which actions it can
-- take, and that they keep the agreement.
use usloss.Base.{
  ℕ, ◌<◌, ◌≡◌, refl, ap, true, false, not, if_ind, arith, some, none, Option, Bool-cases, inl, inr,
  ◌==◌, ==_iff, ltb, ltb→lt, Result-cases, ℤ, pos, Result, done, fault, Fault, ◌>>=◌, minus_one,
  eq_ℤ,
}
use mathlib.Core.Path.{subst}
use usloss.EventQueue.{Slot, Queue, alarm_dev, disk_dev, term_dev, next_event}
use usloss.EventQueue.Delivery.{event}
use usloss.Devices.Alarm.{alarm_action}
use usloss.Devices.Disk.{Memory, disk_at, disk_action, perform}
use usloss.Devices.Disk.Laws.{perform-idle}
use usloss.Board.{Board, act, next_interrupt, call_of}
use usloss.Board.Census.{kind, weight, kind-free}
use usloss.Board.Inv.{busy_at, Consistent, same-Consistent}
use usloss.Board.Keep.{Taken, next_event-Taken, Taken-alarm, Taken-disk, busy}

module _ (memory : Memory) where
  open memory use {Mem}

  -- What the action of an event that was taken out of the queue does.
  pub data Acted (b : Board memory) (out : Result (ℤ × Board memory)) : Type 0 where
    acted : (i : ℤ) (b' : Board memory) → out ≡ done (i, b') → Consistent memory b' → Acted b out
    failed :
        (u : ℕ) (f : Fault)
        → u < 2
        → busy_at memory b.disks u ≡ true
        → perform memory (disk_at memory b.disks u) b.mem ≡ fault f
        → out ≡ fault f
        → Acted b out

  stray_impossible :
      (b : Board memory) (e : Slot) (q : Queue) {C : Type 0} → Taken memory b e q → kind e ≡ 4 → C
  stray_impossible b e q t h =
      let w : weight 4 e ≡ 1 = rw h in absurd (omega (arith, w, t.left 4 (omega arith)))

  stray_device :
      (e : Slot)
      → (e.device == alarm_dev) ≡ false
      → (e.device == disk_dev) ≡ false
      → (e.device == term_dev) ≡ false
      → kind e ≡ 4
  unfolding kind
  stray_device e a d t = rw (a, d, t)

  stray_disk : (u : ℕ) → ltb u 2 ≡ false → kind (event disk_dev u) ≡ 4
  unfolding kind
  stray_disk u h = ground arith

  same_slot : (e : Slot) (device : ℕ) → (e.device == device) ≡ true → e ≡ event device e.arg
  same_slot e device h = ap (λ x. event x e.arg) ((==_iff _ _).0 h)

  disk_action-Acted :
      (b : Board memory) (u : ℕ) (q : Queue)
      → Taken memory b (event disk_dev u) q
      → Acted b (
          disk_action memory u b.disks b.mem >>= λ r.
          done (pos r.0, record b { queue = q; disks = r.1; mem = r.2 }))
  unfolding disk_action
  disk_action-Acted b u q t = elim (Bool-cases (ltb u 2)) [
    | inr out ↦ stray_impossible b (event disk_dev u) q t (stray_disk u out)
    | inl inside ↦ elim (Result-cases (perform memory (disk_at memory b.disks u) b.mem)) [
      | inr (f, e) ↦
          failed u f (ltb→lt u 2 inside) (busy memory b u q (ltb→lt u 2 inside) t) e
            (rw (inside, e))
      | inl ((d', mem'), e) ↦ acted (pos u) _ (rw (inside, e) refl) (
          Taken-disk memory b u q d' mem' (ltb→lt u 2 inside) t
            (perform-idle memory (disk_at memory b.disks u) b.mem e))
    ]
  ]

  act-Acted :
      (b : Board memory) (e : Slot) (q : Queue)
      → Taken memory b e q
      → Acted b (act memory e (record b { queue = q }))
  unfolding act alarm_action
  act-Acted b e q t =
      if_ind (Acted b) (e.device == alarm_dev)
        (λ h. acted (pos 0) _ refl (
          Taken-alarm memory b e.arg q
            (subst (λ x. Taken memory b x q) (same_slot e alarm_dev h) t)))
        (λ a.
          if_ind (Acted b) (e.device == disk_dev)
            (λ h.
              disk_action-Acted b e.arg q
                (subst (λ x. Taken memory b x q) (same_slot e disk_dev h) t))
            (λ d.
              if_ind (Acted b) (e.device == term_dev)
                (λ h. acted _ _ refl (record {
                  queue = t.valid;
                  two = t.two;
                  counted = λ k hk. omega (arith, t.left k hk, kind-free e k ((==_iff _ _).0 h) hk);
                }))
                (λ h. stray_impossible b e q t (stray_device e a d h))))

  -- What `dispatch_int` does on a board, up to the call of a handler.
  pub data Ticked (b : Board memory) (out : Result (Option (ℕ × ℤ) × Board memory)) : Type 0 where
    ticked :
        (call : Option (ℕ × ℤ)) (b' : Board memory)
        → out ≡ done (call, b')
        → Consistent memory b'
        → Ticked b out
    failed :
        (u : ℕ) (f : Fault)
        → u < 2
        → busy_at memory b.disks u ≡ true
        → perform memory (disk_at memory b.disks u) b.mem ≡ fault f
        → out ≡ fault f
        → Ticked b out

  call-Ticked :
      (b : Board memory) (device : ℕ) (out : Result (ℤ × Board memory))
      → Acted b out
      → Ticked b (out >>= call_of memory device)
  unfolding call_of
  call-Ticked b device out (acted i b' e c) = rw e (
      if_ind (Ticked b) (eq_ℤ i minus_one) (λ _. ticked none b' refl c)
        (λ _.
          ticked (some (device, i)) _ refl
            (same-Consistent memory b' _ c refl refl refl (λ k. refl))))
  call-Ticked b device out (failed u f h busy p e) = failed u f h busy p (rw e)

  -- `dispatch_int` keeps the requests that are pending in agreement with the queue, on every
  -- branch. It ends the simulator before the call of a handler only where the action of one of the
  -- two disks does, for a request that is pending: it never meets an event of another device or
  -- unit.
  pub next_interrupt-Ticked :
      (b : Board memory) → Consistent memory b → Ticked b (next_interrupt memory b)
  unfolding next_interrupt
  next_interrupt-Ticked b c =
      let e = next_event b.queue in
      let b' = record b { tick = not b.tick } in
      let c' = same-Consistent memory b b' c refl refl refl (λ k. refl) in
      if_ind (Ticked b) (not b.tick) (λ _. ticked _ b' refl c')
        (λ _.
          let t = next_event-Taken memory b' c' in
          elim (call-Ticked b' e.0.device _ (act-Acted b' e.0 e.1 t)) [
            | ticked call b'' e' c'' ↦ ticked call b'' e' c''
            | failed u f h busy p e' ↦ failed u f h busy p e'
          ])
