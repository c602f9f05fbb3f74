-- ===== src/Board/FitInput.antt =====
-- `USLOSS_DeviceInput` of src/devices.c keeps the disks fit.
use usloss.Base.{
  ℕ, refl, Option, some, List, set, ◌==◌, ℤ, index, Result, done, fault, if_ind, bool_clash,
  Bool-cases, inl, inr,
}
use usloss.EventQueue.{clock_dev, alarm_dev, disk_dev, term_dev}
use usloss.Devices.Codes.{Code, ok}
use usloss.Devices.Disk.{Memory, Disk, disk_at, disk_get_status, no_disk, is_busy}
use usloss.Board.{Board, Answer, device_input, get_status, status_of}
use usloss.Board.Fit.{FitDisk, Fit, set-Fit}

module _ (memory : Memory) where
  -- A question changes the disks only in that an error is taken back.
  unfoldable pub FitReply : Answer memory → Type 0
  FitReply a = Fit memory a.2.disks

  abbrev disk_reply : Board memory → Code × Option Code × List (Disk memory) → Answer memory
  disk_reply b (code, status, disks) = (code, status_of memory status, record b { disks = disks })

  ready_FitDisk :
      (d : Disk memory) → FitDisk memory d → FitDisk memory (record d { status = Code.ready })
  ready_FitDisk d f = record {
    shape = λ h.
        let v = f.shape h in record { is_open = v.is_open; full = v.full; on_track = v.on_track };
    opened = λ h. bool_clash h refl;
    sane = λ h. bool_clash h refl;
  }

  abbrev status_reply : ℤ → List (Disk memory) → Code → Code × Option Code × List (Disk memory)
  status_reply unit disks s = elim s [
    | Code.error ↦ (
      ok,
      some Code.error,
      set disks (index unit) (record (disk_at memory disks (index unit)) { status = Code.ready }),
    )
    | s ↦ (ok, some s, disks)
  ]

  status-FitReply :
      (b : Board memory) (unit : ℤ) (s : Code)
      → Fit memory b.disks
      → FitReply (disk_reply b (status_reply unit b.disks s))
  unfolding FitReply Fit
  status-FitReply b unit Code.ready all = all
  status-FitReply b unit Code.busy all = all
  status-FitReply b unit Code.error all =
      set-Fit memory b.disks (index unit) _ all
        (ready_FitDisk (disk_at memory b.disks (index unit)) (all (index unit)))

  disk_get_status-FitReply :
      (b : Board memory) (unit : ℤ)
      → Fit memory b.disks
      → FitReply (disk_reply b (disk_get_status memory unit b.disks))
  unfolding disk_get_status FitReply
  disk_get_status-FitReply b unit all =
      if_ind (λ x. FitReply (disk_reply b x)) (no_disk memory unit b.disks) (λ _. all)
        (λ _. status-FitReply b unit (disk_at memory b.disks (index unit)).status all)

  pub get_status-FitReply :
      (dev : ℕ) (unit : ℤ) (random : ℕ) (b : Board memory)
      → Fit memory b.disks
      → FitReply (get_status memory dev unit random b)
  unfolding get_status FitReply
  get_status-FitReply dev unit random b all =
      if_ind FitReply (dev == clock_dev) (λ _. all)
        (λ _.
          if_ind FitReply (dev == alarm_dev) (λ _. all)
            (λ _.
              if_ind FitReply (dev == disk_dev) (λ _. disk_get_status-FitReply b unit all)
                (λ _. if_ind FitReply (dev == term_dev) (λ _. all) (λ _. all))))

  -- What `USLOSS_DeviceInput` returns keeps the disks fit.
  unfoldable pub FitInput : Result (Answer memory) → Type 0
  FitInput (done a) = FitReply a
  FitInput (fault f) = Unit {0}

  pub device_input-FitInput :
      (dev : ℕ) (unit : ℤ) (random : ℕ) (b : Board memory)
      → Fit memory b.disks
      → FitInput (device_input memory dev unit random b)
  unfolding device_input FitInput
  device_input-FitInput dev unit random b all =
      elim (Bool-cases (is_busy (get_status memory dev unit random b).0)) [
        | inl stop ↦ rw stop tt
        | inr go ↦ rw go (get_status-FitReply dev unit random b all)
      ]
