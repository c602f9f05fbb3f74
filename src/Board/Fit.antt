-- ===== src/Board/Fit.antt =====
-- Disks whose files are whole and whose requests are well formed, under the operations of
-- src/devices.c.
use mathlib.Core.Path.{subst}
use usloss.Base.{
  ℕ, zero, suc, ◌≤◌, ◌≡◌, sym, ◌∙◌, ap, true, not, Option, List, [], ◌∷◌, set, ◌==◌, ==_iff, ltb,
  ltb→lt, ℤ, pos, minus_one, eq_ℤ, Result, done, fault, ◌>>=◌, if_ind, bool_clash, Bool-cases, inl,
  inr, done≢fault,
}
use usloss.EventQueue.{Slot, Queue, next_event, alarm_dev, disk_dev, term_dev}
use usloss.EventQueue.Delivery.{event}
use usloss.Devices.Codes.{int_of}
use usloss.Devices.Disk.{Memory, Disk, Request, disk_at, disk_action, perform, is_busy}
use usloss.Devices.Disk.Laws.{IsDisk, perform-Performed}
use usloss.Board.{Board, act, call_of, next_interrupt}
use usloss.Board.Inv.{Consistent}
use usloss.Board.Keep.{Taken, next_event-Taken, busy}
use usloss.Board.Dispatch.{Ticked, next_interrupt-Ticked}

-- One of the four operations, with a register that is not negative.
pub record Sane (r : Request) : Type 0 where
  pub opr : r.opr ≤ 3
  pub reg1 : (x : ℕ) × (int_of r.reg1 ≡ pos x)

module _ (memory : Memory) where
  open memory use {Mem, load_request}

  pub record FitDisk (d : Disk memory) : Type 0 where
    pub shape : d.is_open ≡ true → IsDisk memory d
    pub opened : is_busy d.status ≡ true → d.is_open ≡ true
    pub sane : is_busy d.status ≡ true → Sane d.request

  unfoldable pub Fit : List (Disk memory) → Type 0
  Fit disks = (u : ℕ) → FitDisk (disk_at memory disks u)

  pub set-Fit :
      (disks : List (Disk memory)) (v : ℕ) (d : Disk memory)
      → Fit disks
      → FitDisk d
      → Fit (set disks v d)
  unfolding Fit
  set-Fit [] v d all here u = all u
  set-Fit (x ∷ xs) zero d all here zero = here
  set-Fit (x ∷ xs) zero d all here (suc u) = all (suc u)
  set-Fit (x ∷ xs) (suc v) d all here zero = all 0
  set-Fit (x ∷ xs) (suc v) d all here (suc u) = set-Fit xs v d (λ w. all (suc w)) here u

  -- The action on a disk with a request pending returns, and leaves it fit.
  perform-Fit :
      (d : Disk memory) (mem : Mem)
      → FitDisk d
      → is_busy d.status ≡ true
      → (d' : Disk memory) × (mem' : Mem) × (perform memory d mem ≡ done (d', mem')) × FitDisk d'
  perform-Fit d mem f b =
      let s = f.sane b in
      let (x, e) = s.reg1 in
      let (d', mem', r, p) = perform-Performed memory d x mem (f.shape (f.opened b)) s.opr e in
      (
        d',
        mem',
        r,
        record {
          shape = λ _. p.disk;
          opened = λ h. bool_clash h p.idle;
          sane = λ h. bool_clash h p.idle;
        },
      )

  -- The boards that come out have fit disks.
  FitOut : {A : Type 0} → Result (A × Board memory) → Type 0
  FitOut (done r) = Fit r.1.disks
  FitOut (fault f) = Unit {0}

  disk_action-FitOut :
      (b : Board memory) (u : ℕ) (q : Queue)
      → Taken memory b (event disk_dev u) q
      → Fit b.disks
      → FitOut (
          disk_action memory u b.disks b.mem >>= λ r.
          done (pos r.0, record b { queue = q; disks = r.1; mem = r.2 }))
  unfolding FitOut disk_action Fit
  disk_action-FitOut b u q t all = elim (Bool-cases (ltb u 2)) [
    | inr out ↦ rw out tt
    | inl inside ↦
        let (d', mem', e, f) =
          perform-Fit (disk_at memory b.disks u) b.mem (all u)
            (busy memory b u q (ltb→lt u 2 inside) t) in
        rw (inside, e) (set-Fit b.disks u d' all f)
  ]

  act-FitOut :
      (b : Board memory) (e : Slot) (q : Queue)
      → Taken memory b e q
      → Fit b.disks
      → FitOut (act memory e (record b { queue = q }))
  unfolding act FitOut
  act-FitOut b e q t all =
      if_ind FitOut (e.device == alarm_dev) (λ _. all)
        (λ _.
          if_ind FitOut (e.device == disk_dev)
            (λ h.
              let same : e ≡ event disk_dev e.arg = ap (λ x. event x e.arg) ((==_iff _ _).0 h) in
              disk_action-FitOut b e.arg q (subst (λ x. Taken memory b x q) same t) all)
            (λ _. if_ind FitOut (e.device == term_dev) (λ _. all) (λ _. tt)))

  call-FitOut :
      (device : ℕ) (out : Result (ℤ × Board memory))
      → FitOut out
      → FitOut (out >>= call_of memory device)
  unfolding FitOut call_of
  call-FitOut device (done r) h = if_ind FitOut (eq_ℤ r.0 minus_one) (λ _. h) (λ _. h)
  call-FitOut device (fault f) h = tt

  next_interrupt-FitOut :
      (b : Board memory) → Consistent memory b → Fit b.disks → FitOut (next_interrupt memory b)
  unfolding next_interrupt FitOut
  next_interrupt-FitOut b c all =
      let e = next_event b.queue in
      if_ind FitOut (not b.tick) (λ _. all)
        (λ _.
          let t = next_event-Taken memory b c in
          call-FitOut e.0.device _ (
            act-FitOut (record b { tick = not b.tick }) e.0 e.1
              (record { valid = t.valid; two = t.two; left = t.left }) all))

  -- With fit disks `dispatch_int` gets as far as the call of the handler.
  pub next_interrupt-fits :
      (b : Board memory)
      → Consistent memory b
      → Fit b.disks
      → (call : Option (ℕ × ℤ)) × (b' : Board memory) × (next_interrupt memory b ≡ done (call, b'))
        × Consistent memory b'
        × Fit b'.disks
  unfolding FitOut Fit
  next_interrupt-fits b c all = elim (next_interrupt-Ticked memory b c) [
    | Ticked.ticked call b' e c' ↦ (call, b', e, c', subst FitOut e (next_interrupt-FitOut b c all))
    | Ticked.failed u f h bu p e ↦
        let (d', mem', r, _) = perform-Fit (disk_at memory b.disks u) b.mem (all u) bu in
        done≢fault (sym r ∙ p)
  ]
