-- ===== src/Board/Calm.antt =====
-- What `dispatch_int` of src/devices.c calls a handler with: a device that exists, and a machine
-- that does not wait.
use mathlib.Core.Path.{subst}
use usloss.Base.{
  ℕ, ◌≡◌, refl, false, not, Option, List, ◌==◌, ℤ, pos, minus_one, eq_ℤ, Result, done, fault, ◌>>=◌,
  if_ind, none, some, ◌≤◌, ◌+◌, arith,
}
use usloss.EventQueue.{Slot, Queue, next_event, u8, alarm_dev, disk_dev, term_dev, low_pri_dev}
use usloss.EventQueue.Delivery.{IsValid}
use usloss.Devices.Disk.{Memory, Disk, disk_action}
use usloss.Board.{Board, act, next_interrupt, call_of}

module _ (memory : Memory) where
  open memory use {Mem}

  -- A board that comes out does not wait.
  Calm : {A : Type 0} → Result (A × Board memory) → Type 0
  Calm (done r) = r.1.waiting ≡ false
  Calm (fault f) = Unit {0}

  disk_action-Calm :
      (b : Board memory) (r : Result (ℕ × List (Disk memory) × Mem))
      → b.waiting ≡ false
      → Calm (r >>= λ r. done (pos r.0, record b { disks = r.1; mem = r.2 }))
  unfolding Calm
  disk_action-Calm b (done r) h = h
  disk_action-Calm b (fault f) h = tt

  act-Calm : (e : Slot) (b : Board memory) → b.waiting ≡ false → Calm (act memory e b)
  unfolding act Calm
  act-Calm e b h =
      if_ind Calm (e.device == alarm_dev) (λ _. h)
        (λ _.
          if_ind Calm (e.device == disk_dev)
            (λ _. disk_action-Calm b (disk_action memory e.arg b.disks b.mem) h)
            (λ _. if_ind Calm (e.device == term_dev) (λ _. h) (λ _. tt)))

  call-Calm :
      (device : ℕ) (out : Result (ℤ × Board memory))
      → Calm out
      → Calm (out >>= call_of memory device)
  unfolding Calm call_of
  call-Calm device (done r) h = if_ind Calm (eq_ℤ r.0 minus_one) (λ _. h) (λ _. refl)
  call-Calm device (fault f) h = tt

  next_interrupt-Calm : (b : Board memory) → b.waiting ≡ false → Calm (next_interrupt memory b)
  unfolding next_interrupt Calm
  next_interrupt-Calm b h =
      let e = next_event b.queue in
      if_ind Calm (not b.tick) (λ _. h)
        (λ _. call-Calm e.0.device _ (act-Calm e.0 (record b { tick = not b.tick; queue = e.1 }) h))

  pub next_interrupt-calm :
      (b : Board memory) {call : Option (ℕ × ℤ)} {b' : Board memory}
      → b.waiting ≡ false
      → next_interrupt memory b ≡ done (call, b')
      → b'.waiting ≡ false
  unfolding Calm
  next_interrupt-calm b h e = subst Calm e (next_interrupt-Calm b h)

  -- The handler that is called, if one is, is that of one of the four devices.
  Known : Result (Option (ℕ × ℤ) × Board memory) → Type 0
  Known (done (none, _)) = Unit {0}
  Known (done (some (device, _), _)) = device ≤ low_pri_dev
  Known (fault f) = Unit {0}

  call-Known :
      (device : ℕ) (out : Result (ℤ × Board memory))
      → device ≤ low_pri_dev
      → Known (out >>= call_of memory device)
  unfolding Known call_of
  call-Known device (done r) h = if_ind Known (eq_ℤ r.0 minus_one) (λ _. tt) (λ _. h)
  call-Known device (fault f) h = tt

  next_event-device : (q : Queue) → IsValid q → (next_event q).0.device ≤ low_pri_dev
  unfolding next_event
  next_event-device q v = v.queue.devices (u8 (q.ptr + 1))

  next_interrupt-Known : (b : Board memory) → IsValid b.queue → Known (next_interrupt memory b)
  unfolding next_interrupt Known
  next_interrupt-Known b v =
      if_ind Known (not b.tick) (λ _. omega arith)
        (λ _. call-Known (next_event b.queue).0.device _ (next_event-device b.queue v))

  pub next_interrupt-device :
      (b : Board memory) {device : ℕ} {unit : ℤ} {b' : Board memory}
      → IsValid b.queue
      → next_interrupt memory b ≡ done (some (device, unit), b')
      → device ≤ low_pri_dev
  unfolding Known
  next_interrupt-device b v e = subst Known e (next_interrupt-Known b v)
