-- ===== src/Board/Questions.antt =====
-- `USLOSS_DeviceInput` of src/devices.c on devices in agreement with the queue.
use usloss.Base.{
  ℕ, ◌<◌, ◌≡◌, refl, false, not, List, length, length-set, set, if_ind, arith, some, Option, ◌==◌,
  ℤ, pos, index, done, eq_ℤ, out_of_range,
}
use usloss.EventQueue.{clock_dev, alarm_dev, disk_dev, term_dev}
use usloss.Devices.Codes.{Code, ok}
use usloss.Devices.Alarm.{Alarm}
use usloss.Devices.Disk.{Memory, Disk, disk_at, no_disk, is_busy, disk_get_status}
use usloss.Board.{Board, device_input, get_status, status_of}
use usloss.Board.Inv.{busy_at, pending, Consistent, same-Consistent, pending-set}
use usloss.Clock.{Ticks, clock_get_status}
use usloss.Devices.Alarm.{alarm_get_status}
use usloss.Devices.Term.{Terminal, term_get_status, term_units}
use usloss.Board.Requests.{disk_unit}

module _ (memory : Memory) where
  -- What a question to a device leaves.
  pub record Asked (b : Board memory) (out : Code × Option ℕ × Board memory) : Type 0 where
    pub consistent : Consistent memory out.2
    pub no_busy : is_busy out.0 ≡ false

  disk_status-pending :
      (armed : Alarm) (disks : List (Disk memory)) (u k : ℕ)
      → length disks ≡ 2
      → u < 2
      → (disk_at memory disks u).status ≡ Code.error
      → pending memory armed
          (set disks u (record (disk_at memory disks u) { status = Code.ready }))
          k
        ≡ pending memory armed disks k
  disk_status-pending armed disks u k two h e =
      let idle : busy_at memory disks u ≡ false = rw e refl in
      let change = rw idle at (
        pending-set memory armed disks u (record (disk_at memory disks u) { status = Code.ready }) k
          two h) in
      omega (arith, change)

  abbrev disk_reply :
      Board memory → Code × Option Code × List (Disk memory) → Code × Option ℕ × Board memory
  disk_reply b (code, status, disks) = (code, status_of memory status, record b { disks = disks })

  abbrev status_reply :
      (unit : ℤ) → List (Disk memory) → Code → Code × Option Code × List (Disk memory)
  status_reply unit disks s = elim s [
    | Code.error ↦ (
      ok,
      some Code.error,
      set disks (index unit) (record (disk_at memory disks (index unit)) { status = Code.ready }),
    )
    | s ↦ (ok, some s, disks)
  ]

  abbrev clock_reply : Board memory → Code × Option ℕ × Ticks → Code × Option ℕ × Board memory
  clock_reply b (code, time, t) = (code, time, record b { ticks = t })

  abbrev alarm_reply : Board memory → Code × Option Code → Code × Option ℕ × Board memory
  alarm_reply b (code, status) = (code, status_of memory status, b)

  abbrev term_reply :
      Board memory → Code × Option ℕ × List Terminal → Code × Option ℕ × Board memory
  term_reply b (code, status, terms) = (code, status, record b { terms = terms })

  status_reply-Asked :
      (b : Board memory) (unit : ℤ) (s : Code)
      → Consistent memory b
      → index unit < 2
      → (disk_at memory b.disks (index unit)).status ≡ s
      → Asked b (disk_reply b (status_reply unit b.disks s))
  status_reply-Asked b unit Code.ready c h e = record { consistent = c; no_busy = refl }
  status_reply-Asked b unit Code.busy c h e = record { consistent = c; no_busy = refl }
  status_reply-Asked b unit Code.error c h e =
      let u = index unit in
      record {
        consistent =
            same-Consistent memory b _ c refl refl (length-set b.disks u _)
              (λ k. disk_status-pending b.armed b.disks u k c.two h e);
        no_busy = refl;
      }

  disk_get_status-Asked :
      (b : Board memory) (unit : ℤ)
      → Consistent memory b
      → Asked b (disk_reply b (disk_get_status memory unit b.disks))
  unfolding disk_get_status
  disk_get_status-Asked b unit c =
      if_ind (λ x. Asked b (disk_reply b x)) (no_disk memory unit b.disks)
        (λ _. record { consistent = c; no_busy = refl })
        (λ n.
          status_reply-Asked b unit (disk_at memory b.disks (index unit)).status c
            (disk_unit memory unit b.disks n) refl)

  clock_get_status-Asked :
      (b : Board memory) (unit : ℤ) (random : ℕ)
      → Consistent memory b
      → Asked b (clock_reply b (clock_get_status unit random b.ticks))
  unfolding clock_get_status
  clock_get_status-Asked b unit random c =
      if_ind (λ x. Asked b (clock_reply b x)) (not (eq_ℤ unit (pos 0)))
        (λ _. record {
          consistent = same-Consistent memory b _ c refl refl refl (λ k. refl);
          no_busy = refl;
        })
        (λ _. record {
          consistent = same-Consistent memory b _ c refl refl refl (λ k. refl);
          no_busy = refl;
        })

  alarm_get_status-Asked :
      (b : Board memory) (unit : ℤ)
      → Consistent memory b
      → Asked b (alarm_reply b (alarm_get_status unit b.armed))
  unfolding alarm_get_status
  alarm_get_status-Asked b unit c =
      if_ind (λ x. Asked b (alarm_reply b x)) (not (eq_ℤ unit (pos 0)))
        (λ _. record { consistent = c; no_busy = refl })
        (λ _. record { consistent = c; no_busy = refl })

  term_get_status-Asked :
      (b : Board memory) (unit : ℤ)
      → Consistent memory b
      → Asked b (term_reply b (term_get_status unit b.terms))
  unfolding term_get_status
  term_get_status-Asked b unit c =
      if_ind (λ x. Asked b (term_reply b x)) (out_of_range unit term_units)
        (λ _. record {
          consistent = same-Consistent memory b _ c refl refl refl (λ k. refl);
          no_busy = refl;
        })
        (λ _. record {
          consistent = same-Consistent memory b _ c refl refl refl (λ k. refl);
          no_busy = refl;
        })

  get_status-Asked :
      (dev : ℕ) (unit : ℤ) (random : ℕ) (b : Board memory)
      → Consistent memory b
      → Asked b (get_status memory dev unit random b)
  unfolding get_status
  get_status-Asked dev unit random b c =
      if_ind (Asked b) (dev == clock_dev) (λ _. clock_get_status-Asked b unit random c)
        (λ _.
          if_ind (Asked b) (dev == alarm_dev) (λ _. alarm_get_status-Asked b unit c)
            (λ _.
              if_ind (Asked b) (dev == disk_dev) (λ _. disk_get_status-Asked b unit c)
                (λ _.
                  if_ind (Asked b) (dev == term_dev) (λ _. term_get_status-Asked b unit c)
                    (λ _. record { consistent = c; no_busy = refl }))))

  -- `USLOSS_DeviceInput` returns, whatever the device and the unit: its assertion on the return
  -- code holds, and it leaves devices in agreement with the queue in agreement.
  pub device_input-returns :
      (dev : ℕ) (unit : ℤ) (random : ℕ) (b : Board memory)
      → Consistent memory b
      → (code : Code) × (status : Option ℕ) × (b' : Board memory) × (device_input memory dev unit
            random b
          ≡ done (code, status, b'))
        × Consistent memory b'
  unfolding device_input
  device_input-returns dev unit random b c =
      let a = get_status-Asked dev unit random b c in
      let r = get_status memory dev unit random b in
      (r.0, r.1, r.2, rw a.no_busy refl, a.consistent)
