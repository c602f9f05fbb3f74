-- ===== src/LibDisk.antt =====
-- libdisk/disk.c: `Disk_Create`. What `open` and `write` of the host return is an argument; a file
-- is its size in bytes with its whole sectors, as `disk_open` of Devices/Disk takes it.
pub mod Laws
pub mod Make
use usloss.Base.{
  ℕ, zero, suc, ◌+◌, ◌*◌, ◌/◌, Bool, Option, none, some, List, [], ◌++◌, replicate, ◌==◌,
  if◌then◌else◌,
}
use usloss.Devices.Disk.{Memory, sector_size, track_size}

-- `sizeof(track)`
abbrev pub track_bytes : ℕ
track_bytes = track_size * sector_size

module _ (memory : Memory) where
  open memory use {Sector, zeros}

  abbrev pub File : Type 0
  File = ℕ × List Sector

  -- The file after a `write` of n bytes of zeros, of which whole sectors were in the file before.
  abbrev pub extend : ℕ → File → File
  extend n file = (file.0 + n, file.1 ++ replicate (n / sector_size) zeros)

  -- The loop from track i on, with `left` tracks left: 0 or 1, and the file.
  unfoldable pub write_tracks : (ℕ → ℕ) → ℕ → ℕ → File → ℕ × File
  write_tracks write zero i file = (0, file)
  write_tracks write (suc left) i file =
      let rest = write_tracks write left (i + 1) (extend (write i) file) in
      if write i == track_bytes then rest else (1, extend (write i) file)

  -- `Disk_Create`, for what `open` and the calls of `write` return; a `write` that fails writes 0
  -- bytes.
  unfoldable pub disk_create : Bool → (ℕ → ℕ) → ℕ → ℕ × Option File
  disk_create opened write tracks =
      if opened then (let r = write_tracks write tracks 0 (0, []) in (r.0, some r.1)) else (1, none)
