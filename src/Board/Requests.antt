-- ===== src/Board/Requests.antt =====
-- `USLOSS_DeviceOutput` of src/devices.c on devices in agreement with the
-- queue.
use usloss.Base.{
  ℕ, ◌+◌, ◌<◌, ◌≤◌, ◌≡◌, refl, sym, ◌∙◌, true, false, not, List, length-set, set, if_ind, arith,
  some, none, some_inj, Option, Bool-cases, inl, inr, bool_clash, ◌==◌, ==_iff, ℤ, pos, index, eq_ℤ,
  out_of_range, in_range,
}
use usloss.EventQueue.{Queue, clock_dev, alarm_dev, disk_dev, term_dev, low_pri_dev, schedule_int}
use usloss.EventQueue.Delivery.{IsValid, event, schedule_int-total}
use usloss.Devices.Codes.{Code, ok, invalid}
use usloss.Devices.Alarm.{Alarm, alarm_request}
use usloss.Devices.Disk.{Memory, Disk, Request, disk_at, disk_request, no_disk, disk_delay}
use usloss.Devices.Disk.Requests.{RequestEnd, disk_request-RequestEnd}
use usloss.Board.{Board, device_output}
use usloss.Board.Census.{weight, census, census-schedule_int}
use usloss.Board.Inv.{
  pending, Consistent, same-Consistent, Consistent-free, pending-set, pending-armed,
}

module _ (memory : Memory) where
  open memory use {Mem, load_request}

  -- The call returns, and leaves the requests in agreement with the queue.
  pub record Answered (out : Option (Code × Board memory)) : Type 0 where
    pub code : Code
    pub board : Board memory
    pub returns : out ≡ some (code, board)
    pub consistent : Consistent memory board

  same-Answered : (b : Board memory) (code : Code) → Consistent memory b → Answered (some (code, b))
  same-Answered b code c = record { code = code; board = b; returns = refl; consistent = c }

  -- An event that is put into the queue of a consistent board.
  pub scheduled :
      (b : Board memory) (device arg t : ℕ)
      → Consistent memory b
      → device < low_pri_dev
      → (q' : Queue) × (schedule_int b.queue device arg t ≡ some q')
        × IsValid q'
        × ((k : ℕ)
            → 1 ≤ k
            → census k q'.slots ≡ weight k (event device arg) + pending memory b.armed b.disks k)
  scheduled b device arg t c lt =
      let (j, hj, free) = Consistent-free memory b c in
      let (q', e, v) = schedule_int-total b.queue device arg t j c.queue lt hj free in
      (
        q',
        e,
        v,
        λ k h. omega (
          arith,
          census-schedule_int b.queue q' device arg t k c.queue (omega arith) e h,
          c.counted k h,
        ),
      )

  alarm_answer : Board memory → Option (Code × Alarm × Queue) → Option (Code × Board memory)
  alarm_answer b o = elim o [
    | none ↦ none
    | some r ↦ some (r.0, record b { armed = r.1; queue = r.2 })
  ]

  alarm_request-Answered :
      (b : Board memory) (unit : ℤ) (arg : ℕ)
      → Consistent memory b
      → b.armed ≡ false
      → Answered (alarm_answer b (alarm_request unit arg b.armed b.queue))
  unfolding alarm_request alarm_answer
  alarm_request-Answered b unit arg c off =
      if_ind (λ x. Answered (alarm_answer b x)) (not (eq_ℤ unit (pos 0)))
        (λ _. same-Answered b invalid c)
        (λ _.
          let (q', e, v, counted) = scheduled b alarm_dev 0 arg c (omega arith) in
          record {
            code = ok;
            board = record b { armed = true; queue = q' };
            returns = rw e;
            consistent = record {
              queue = v;
              two = c.two;
              counted =
                  λ k h. omega (arith, rw off at (counted k h), pending-armed memory b.disks k 0);
            };
          })

  disk_answer :
      Board memory → Option (Code × List (Disk memory) × Queue) → Option (Code × Board memory)
  disk_answer b o = elim o [
    | none ↦ none
    | some r ↦ some (r.0, record b { disks = r.1; queue = r.2 })
  ]

  -- A unit that passes the guard is that of one of the two disks.
  pub disk_unit :
      (unit : ℤ) (disks : List (Disk memory)) → no_disk memory unit disks ≡ false → index unit < 2
  disk_unit unit disks h = elim (Bool-cases (out_of_range unit 2)) [
    | inl out ↦ let clash : true ≡ false = rw out at h in bool_clash refl clash
    | inr inside ↦ (in_range unit 2 inside).1
  ]

  disk_request-Answered :
      (b : Board memory) (unit : ℤ) (r : Request)
      → Consistent memory b
      → Answered (disk_answer b (disk_request memory unit r b.disks b.queue))
  unfolding disk_answer
  disk_request-Answered b unit r c =
      let (j, hj, free) = Consistent-free memory b c in
      elim (disk_request-RequestEnd memory unit r b.disks b.queue j c.queue hj free) [
        | RequestEnd.absent _ e ↦ rw e (same-Answered b invalid c)
        | RequestEnd.pending _ _ e ↦ rw e (same-Answered b Code.busy c)
        | RequestEnd.started q' n idle e _ _ _ e' ↦
            let u = index unit in
            let d = record (disk_at memory b.disks u) { status = Code.busy; request = r } in
            let (q'', e'', v, counted) =
              scheduled b disk_dev u (disk_delay memory (disk_at memory b.disks u) r) c
                (omega arith) in
            let same : q'' ≡ q' = some_inj (sym e'' ∙ e) in
            rw e' (record {
              code = ok;
              board = record b { disks = set b.disks u d; queue = q' };
              returns = refl;
              consistent = record {
                queue = rw same at v;
                two = length-set b.disks u d ∙ c.two;
                counted = λ k h.
                    let change =
                      rw idle at (
                        pending-set memory b.armed b.disks u d k c.two
                          (disk_unit unit b.disks n)) in
                    omega (arith, rw same at (counted k h), change);
              };
            })
      ]

  -- On devices in agreement with the queue `USLOSS_DeviceOutput` returns, whatever the device, the
  -- unit and the argument, and leaves them in agreement, provided that no alarm is requested while
  -- one is pending.
  pub device_output-Answered :
      (dev : ℕ) (unit : ℤ) (arg : ℕ) (b : Board memory)
      → Consistent memory b
      → (dev ≡ alarm_dev → b.armed ≡ false)
      → Answered (device_output memory dev unit arg b)
  unfolding device_output alarm_answer disk_answer
  device_output-Answered dev unit arg b c off =
      if_ind Answered (dev == clock_dev) (λ _. same-Answered b _ c)
        (λ _.
          if_ind Answered (dev == alarm_dev)
            (λ h. alarm_request-Answered b unit arg c (off ((==_iff _ _).0 h)))
            (λ _.
              if_ind Answered (dev == disk_dev)
                (λ _. disk_request-Answered b unit (load_request b.mem arg) c)
                (λ _.
                  if_ind Answered (dev == term_dev)
                    (λ _. record {
                      code = _;
                      board = _;
                      returns = refl;
                      consistent = same-Consistent memory b _ c refl refl refl (λ k. refl);
                    })
                    (λ _. same-Answered b Code.error c))))
