-- ===== src/LibDisk/Make.antt =====
-- libdisk/makedisk.c: which disk the command makes. What `sscanf` and `scanf` read in the arguments
-- and in the input is an argument: a number, or none where there is none.
use usloss.Base.{
  ℕ, Bool, true, false, Option, none, some, List, [], ◌∷◌, ◌≡◌, ◌≤◌, ◌<◌, ◌%◌, ◌^◌, ◌-◌, arith,
  refl, ℤ, pos, negsuc, if◌then◌else◌, ◌==◌, not,
}
use usloss.Devices.Disk.{Memory, disk_open}
use usloss.Devices.Disk.Laws.{IsDisk}
use usloss.LibDisk.{File, track_bytes, disk_create}
use usloss.LibDisk.Laws.{disk_open-disk_create}

-- A number that is asked for.
abbrev ask : List (Option ℤ) → Option ℤ × List (Option ℤ)
ask [] = (none, [])
ask (n ∷ typed) = (n, typed)

abbrev both : Option ℤ → Option ℤ → Option (ℤ × ℤ)
both (some unit) (some tracks) = some (unit, tracks)
both _ _ = none

-- The unit and the number of tracks, or none where the usage is printed. The second argument is
-- taken only if it is the last.
unfoldable pub choose_disk : Bool → List (Option ℤ) → List (Option ℤ) → Option (ℤ × ℤ)
choose_disk true args typed = none
choose_disk false [] typed = both (ask typed).0 (ask (ask typed).1).0
choose_disk false (unit ∷ tracks ∷ []) typed = both unit tracks
choose_disk false (unit ∷ rest) typed = both unit (ask typed).0

-- A conversion of an `int` to `unsigned int`.
abbrev unsigned : ℤ → ℕ
unsigned (pos n) = n % 2 ^ 32
unsigned (negsuc n) = 2 ^ 32 - 1 - n % 2 ^ 32

module _ (memory : Memory) where
  abbrev made : ℕ × Option (File memory) → ℕ × Option (File memory)
  made r = ((if not (r.0 == 0) then 1 else 0), r.1)

  abbrev run_choice : Bool → (ℕ → ℕ) → Option (ℤ × ℤ) → ℕ × Option (File memory)
  run_choice opened write none = (1, none)
  run_choice opened write (some (unit, tracks)) =
      made (disk_create memory opened write (unsigned tracks))

  -- `main`: the exit status, and the file, for the answers of the host to `Disk_Create`.
  unfoldable pub make_disk :
      Bool → List (Option ℤ) → List (Option ℤ) → Bool → (ℕ → ℕ) → ℕ × Option (File memory)
  make_disk error args typed opened write = run_choice opened write (choose_disk error args typed)

  -- Called with a unit and a number of tracks, from 1 to 2^31 - 1, the command returns 0 and makes
  -- a file that `disk_init` opens as a well formed disk of that many tracks, if the file can be
  -- opened and written.
  pub make_disk-makes :
      (unit : ℤ) (tracks : ℕ) (typed : List (Option ℤ)) (write : ℕ → ℕ)
      → 1 ≤ tracks
      → tracks < 2 ^ 31
      → ((k : ℕ) → k < tracks → write k ≡ track_bytes)
      → (file : File memory) × (make_disk false
            (some unit ∷ some (pos tracks) ∷ [])
            typed
            true
            write
          ≡ (0, some file))
        × IsDisk memory (disk_open memory (some file))
        × ((disk_open memory (some file)).tracks ≡ tracks)
  unfolding make_disk choose_disk
  make_disk-makes unit tracks typed write lo hi all =
      let (file, e, v, n, _, _) = disk_open-disk_create memory write tracks lo all in
      let fits : tracks % 2 ^ 32 ≡ tracks = omega arith in (file, rw (fits, e) refl, v, n)
