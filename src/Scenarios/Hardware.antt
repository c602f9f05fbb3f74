-- ===== src/Scenarios/Hardware.antt =====
-- The theorems on the devices, on a disk of two tracks and a terminal with two characters of input.
use usloss.Base.{ℕ, ◌*◌, ◌≡◌, ◌≢◌, ◌∷◌, [], List, refl, true, some, replicate, get_or, done, arith}
use usloss.Scenarios.HostMemory.{memory}
use usloss.Devices.Codes.{Code}
use usloss.Devices.Disk.{Disk, disk_read, disk_write, disk_seek, perform}
use usloss.Devices.Disk.Laws.{IsDisk, asking, perform-write_read, perform-read_negative}
use usloss.Devices.Term.{Terminal}

abbrev cells : ℕ → ℕ
cells a = a * a

abbrev disk : Disk memory
disk = record {
  is_open = true;
  file = replicate 32 0;
  tracks = 2;
  current_track = 1;
  status = Code.ready;
  request = record { opr = disk_seek; reg1 = 1; reg2 = 0 };
}

disk-IsDisk : IsDisk memory disk
disk-IsDisk = record { is_open = refl; full = refl; on_track = omega arith }

perform-write_read_example :
    (d' : Disk memory) × (d'' : Disk memory) × (mem' : ℕ → ℕ) × (perform memory
        (asking memory disk disk_write 3 10)
        cells
      ≡ done (d', cells))
    × (perform memory (asking memory d' disk_read 3 20) cells ≡ done (d'', mem'))
    × (mem' 20 ≡ cells 10)
    × IsDisk memory d'
    × ((j : ℕ) → 19 ≢ j → get_or d'.file j 0 ≡ get_or disk.file j 0)
perform-write_read_example = perform-write_read memory disk 3 10 20 cells disk-IsDisk (omega arith)

-- 4294967295 is the word of the number -1.
perform-read_negative_example :
    perform memory (asking memory disk disk_read 4294967295 20) cells
    ≡ done (
      record (asking memory disk disk_read 4294967295 20) { status = Code.ready },
      memory.store cells 20 0,
    )
perform-read_negative_example =
    perform-read_negative memory disk 0 4294967295 20 cells disk-IsDisk refl (omega arith)

abbrev terminal : Terminal
terminal = record { input = some 97 ∷ some 64 ∷ []; output = []; status = 0; control = 2 }

-- "hi" to terminal 2.
abbrev consoles : List Terminal
consoles = terminal ∷ terminal ∷ terminal ∷ terminal ∷ []
