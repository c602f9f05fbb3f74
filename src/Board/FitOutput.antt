-- ===== src/Board/FitOutput.antt =====
-- `USLOSS_DeviceOutput` of src/devices.c with a well formed request keeps the disks fit.
use usloss.Base.{
  ℕ, ◌≡◌, refl, true, false, Option, none, some, List, ◌==◌, ==_iff, ℤ, index, if_ind, bool_clash,
  Bool-cases, inl, inr, out_of_range,
}
use usloss.EventQueue.{Queue, clock_dev, alarm_dev, disk_dev, term_dev}
use usloss.Devices.Codes.{Code}
use usloss.Devices.Alarm.{Alarm, alarm_request}
use usloss.Devices.Disk.{Memory, Disk, Request, disk_at, disk_request, no_disk}
use usloss.Devices.Disk.Requests.{RequestEnd, disk_request-RequestEnd}
use usloss.Board.{Board, device_output}
use usloss.Board.Inv.{Consistent, Consistent-free}
use usloss.Board.Fit.{Sane, FitDisk, Fit, set-Fit}

module _ (memory : Memory) where
  open memory use {Mem, Sector, load_request}

  open_disk :
      (unit : ℤ) (disks : List (Disk memory))
      → no_disk memory unit disks ≡ false
      → (disk_at memory disks (index unit)).is_open ≡ true
  open_disk unit disks h = elim (Bool-cases (disk_at memory disks (index unit)).is_open) [
    | inl yes_open ↦ yes_open
    | inr closed ↦ elim (Bool-cases (out_of_range unit 2)) [
      | inl out ↦ let clash : true ≡ false = rw out at h in bool_clash refl clash
      | inr inside ↦ let clash : true ≡ false = rw (inside, closed) at h in bool_clash refl clash
    ]
  ]

  -- A disk takes a well formed request.
  asked-FitDisk :
      (d : Disk memory) (r : Request)
      → FitDisk memory d
      → d.is_open ≡ true
      → Sane r
      → FitDisk memory (record d { status = Code.busy; request = r })
  asked-FitDisk d r f is_open s = record {
    shape = λ h.
        let v = f.shape is_open in
        record { is_open = v.is_open; full = v.full; on_track = v.on_track };
    opened = λ _. is_open;
    sane = λ _. s;
  }

  unfoldable pub FitAnswer : Option (Code × Board memory) → Type 0
  FitAnswer none = Unit {0}
  FitAnswer (some r) = Fit memory r.1.disks

  abbrev disk_answer :
      Board memory → Option (Code × List (Disk memory) × Queue) → Option (Code × Board memory)
  disk_answer b o = elim o [
    | none ↦ none
    | some r ↦ some (r.0, record b { disks = r.1; queue = r.2 })
  ]

  abbrev alarm_answer : Board memory → Option (Code × Alarm × Queue) → Option (Code × Board memory)
  alarm_answer b o = elim o [
    | none ↦ none
    | some r ↦ some (r.0, record b { armed = r.1; queue = r.2 })
  ]

  alarm-FitAnswer :
      (b : Board memory) (o : Option (Code × Alarm × Queue))
      → Fit memory b.disks
      → FitAnswer (alarm_answer b o)
  unfolding FitAnswer
  alarm-FitAnswer b none all = tt
  alarm-FitAnswer b (some r) all = all

  disk_request-FitAnswer :
      (b : Board memory) (unit : ℤ) (r : Request)
      → Consistent memory b
      → Fit memory b.disks
      → Sane r
      → FitAnswer (disk_answer b (disk_request memory unit r b.disks b.queue))
  unfolding FitAnswer Fit
  disk_request-FitAnswer b unit r c all s =
      let (j, hj, free) = Consistent-free memory b c in
      elim (disk_request-RequestEnd memory unit r b.disks b.queue j c.queue hj free) [
        | RequestEnd.absent _ e ↦ rw e all
        | RequestEnd.pending _ _ e ↦ rw e all
        | RequestEnd.started q' n idle e _ _ _ e' ↦ rw e' (
            set-Fit memory b.disks (index unit) _ all (
              asked-FitDisk (disk_at memory b.disks (index unit)) r (all (index unit))
                (open_disk unit b.disks n) s))
      ]

  pub device_output-FitAnswer :
      (dev : ℕ) (unit : ℤ) (arg : ℕ) (b : Board memory)
      → Consistent memory b
      → Fit memory b.disks
      → (dev ≡ disk_dev → Sane (load_request b.mem arg))
      → FitAnswer (device_output memory dev unit arg b)
  unfolding device_output FitAnswer
  device_output-FitAnswer dev unit arg b c all s =
      if_ind FitAnswer (dev == clock_dev) (λ _. all)
        (λ _.
          if_ind FitAnswer (dev == alarm_dev)
            (λ _. alarm-FitAnswer b (alarm_request unit arg b.armed b.queue) all)
            (λ _.
              if_ind FitAnswer (dev == disk_dev)
                (λ h.
                  disk_request-FitAnswer b unit (load_request b.mem arg) c all
                    (s ((==_iff _ _).0 h)))
                (λ _. if_ind FitAnswer (dev == term_dev) (λ _. all) (λ _. all))))
