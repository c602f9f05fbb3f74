-- ===== src/Board/Fair.antt =====
-- Runs of the devices of src/devices.c in which every request to a disk is well formed.
use usloss.Base.{ℕ, ◌≡◌, refl, false, Option, some, List, [], ◌∷◌, ℤ, done, bool_clash}
use usloss.EventQueue.{alarm_dev, disk_dev}
use usloss.Devices.Codes.{Code}
use usloss.Devices.Disk.{Memory, Disk, disk_open, closed_disk}
use usloss.Devices.Term.{Terminal}
use usloss.Board.{Board, init_board, next_interrupt, device_output, device_input, alarm_signal}
use usloss.Board.Fit.{Sane, FitDisk, Fit}
use usloss.Board.FitInput.{FitInput}

module _ (memory : Memory) where
  open memory use {Mem, Sector, load_request}

  -- A step as in Board/Runs in which a request to a disk is well formed.
  pub data FairStep (b : Board memory) : Board memory → Type 0 where
    input :
        (dev : ℕ) (unit : ℤ) (random : ℕ) (code : Code) (status : Option ℕ) (b' : Board memory)
        → device_input memory dev unit random b ≡ done (code, status, b')
        → FairStep b b'
    output :
        (dev : ℕ) (unit : ℤ) (arg : ℕ) (code : Code) (b' : Board memory)
        → (dev ≡ alarm_dev → b.armed ≡ false)
        → (dev ≡ disk_dev → Sane (load_request b.mem arg))
        → device_output memory dev unit arg b ≡ some (code, b')
        → FairStep b b'
    signal :
        (call : Option (ℕ × ℤ)) (b' : Board memory)
        → next_interrupt memory (alarm_signal memory b) ≡ done (call, b')
        → FairStep b b'
    compute : (mem : Mem) → FairStep b (record b { mem = mem })

  pub data FairReach (f0 f1 : Option (ℕ × List Sector)) (terms : List Terminal) (mem : Mem)
      : Board memory → Type 0 where
    start :
        FairReach f0 f1 terms mem
          (init_board memory (disk_open memory f0 ∷ disk_open memory f1 ∷ []) terms mem)
    step :
        {b b' : Board memory}
        → FairReach f0 f1 terms mem b
        → FairStep b b'
        → FairReach f0 f1 terms mem b'

  pub closed_FitDisk : FitDisk memory (closed_disk memory)
  closed_FitDisk = record {
    shape = λ h. bool_clash h refl;
    opened = λ h. bool_clash h refl;
    sane = λ h. bool_clash h refl;
  }
