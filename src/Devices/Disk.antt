-- ===== src/Devices/Disk.antt =====
-- src/dev_disk.c. The memory of the operating system, which the requests point into, is the
-- interface `Memory`; the file of a disk is the list of its sectors.
pub mod Laws
pub mod Requests
use mathlib.Core.Path.{◌≡◌}
use usloss.Base.{
  ℕ, ◌+◌, ◌-◌, ◌*◌, ◌/◌, ◌%◌, Bool, true, false, not, ◌&&◌, ◌||◌, Option, none, some, List, [], ◌∷◌,
  ◌++◌, length, get_or, set, replicate, ltb, leb, ◌==◌, if◌then◌else◌, ℤ, pos, negsuc, sub_ℕ,
  out_of_range, index, Result, done, fault, Fault, check, ◌>>=◌, ◌>>◌,
}
use usloss.EventQueue.{Queue, disk_dev, schedule_int}
use usloss.Devices.Codes.{Code, ok, invalid, int_of}

-- USLOSS_DISK_SECTOR_SIZE, USLOSS_DISK_TRACK_SIZE and USLOSS_DISK_UNITS.
abbrev pub sector_size : ℕ
sector_size = 512

abbrev pub track_size : ℕ
track_size = 16

abbrev pub disk_units : ℕ
disk_units = 2

abbrev pub disk_read : ℕ
disk_read = 0

abbrev pub disk_write : ℕ
disk_write = 1

abbrev pub disk_seek : ℕ
disk_seek = 2

abbrev pub disk_tracks : ℕ
disk_tracks = 3

abbrev pub is_busy : Code → Bool
is_busy Code.busy = true
is_busy _ = false

-- `USLOSS_DeviceRequest`; the registers are machine words.
pub record Request : Type 0 where
  pub opr : ℕ
  pub reg1 : ℕ
  pub reg2 : ℕ

-- The memory behind the pointers: the sector and the request at an address, and the writes of a
-- sector and an `int`.
pub record Memory : Type 1 where
  pub Mem : Type 0
  pub Sector : Type 0
  pub zeros : Sector
  pub load : Mem → ℕ → Sector
  pub store : Mem → ℕ → Sector → Mem
  pub store_int : Mem → ℕ → ℕ → Mem
  pub load_request : Mem → ℕ → Request
  pub load-store : (m : Mem) (a : ℕ) (s : Sector) → load (store m a s) a ≡ s

module _ (memory : Memory) where
  open memory use {Mem, Sector, zeros, load, store, store_int}

  -- `DiskInfo`; the descriptor is open or -1.
  pub record Disk : Type 0 where
    pub is_open : Bool
    pub file : List Sector
    pub tracks : ℕ
    pub current_track : ℕ
    pub status : Code
    pub request : Request

  abbrev pub no_request : Request
  no_request = record { opr = 0; reg1 = 0; reg2 = 0 }

  abbrev pub closed_disk : Disk
  closed_disk = record {
    is_open = false;
    file = [];
    tracks = 0;
    current_track = 0;
    status = Code.ready;
    request = no_request;
  }

  -- The body of the loop of `disk_init`, for a unit whose file is missing or has a size in bytes
  -- and its whole sectors.
  unfoldable pub disk_open : Option (ℕ × List Sector) → Disk
  disk_open none = closed_disk
  disk_open (some (size, sectors)) = record closed_disk {
    is_open = size % (track_size * sector_size) == 0;
    file = sectors;
    tracks = size / (track_size * sector_size);
  }

  abbrev pub disk_at : List Disk → ℕ → Disk
  disk_at disks unit = get_or disks unit closed_disk

  -- `(unit < 0) || (unit >= USLOSS_DISK_UNITS) || (disks[unit].fd == -1)`
  abbrev pub no_disk : ℤ → List Disk → Bool
  no_disk unit disks = out_of_range unit disk_units || not (disk_at disks (index unit)).is_open

  -- `disk_get_status`: the return code, what goes through `statusPtr`, and the disks; an error is
  -- reported once.
  unfoldable pub disk_get_status : ℤ → List Disk → Code × Option Code × List Disk
  disk_get_status unit disks =
      let d = disk_at disks (index unit) in
      if no_disk unit disks then (invalid, none, disks) else elim d.status [
        | Code.error ↦
            (ok, some Code.error, set disks (index unit) (record d { status = Code.ready }))
        | s ↦ (ok, some s, disks)
      ]

  -- `abs(a - x)`
  abbrev pub distance : ℕ → ℤ → ℕ
  distance a (pos x) = (a - x) + (x - a)
  distance a (negsuc x) = a + x + 1

  -- The ticks that a request takes.
  unfoldable pub disk_delay : Disk → Request → ℕ
  disk_delay d r =
      let delay =
        if r.opr == disk_seek then 1 + distance d.current_track (int_of r.reg1) % 10 else 1 in
      if ltb 3 delay then 3 else delay

  -- `disk_request`; there is no result if `schedule_int` does not return.
  unfoldable pub disk_request : ℤ → Request → List Disk → Queue → Option (Code × List Disk × Queue)
  disk_request unit r disks q =
      let d = disk_at disks (index unit) in
      if no_disk unit disks
      then some (invalid, disks, q)
      else if is_busy d.status
      then some (Code.busy, disks, q)
      else elim (schedule_int q disk_dev (index unit) (disk_delay d r)) [
        | none ↦ none
        | some q' ↦
            some (ok, set disks (index unit) (record d { status = Code.busy; request = r }), q')
      ]

  -- `currentTrack * USLOSS_DISK_TRACK_SIZE + reg1`, the sector that `lseek` goes to.
  abbrev pub sector_of : ℕ → ℤ → ℤ
  sector_of track (pos k) = pos (track * track_size + k)
  sector_of track (negsuc k) = sub_ℕ (track * track_size) (k + 1)

  -- A write of a sector of the file, which grows where it has to.
  abbrev pub write_sector : List Sector → ℕ → Sector → List Sector
  write_sector file k s =
      if ltb k (length file)
      then set file k s
      else file ++ (replicate (k - length file) zeros ++ (s ∷ []))

  -- The transfer of the sector at a place: a negative place or a closed file fails in `lseek`, and
  -- a read behind the end in `read`.
  unfoldable pub transfer : Disk → Mem → ℤ → Result (Disk × Mem)
  transfer d mem (negsuc _) = fault Fault.sys_error
  transfer d mem (pos k) =
      if not d.is_open
      then fault Fault.sys_error
      else if d.request.opr == disk_write
      then done (record d { file = write_sector d.file k (load mem d.request.reg2) }, mem)
      else if ltb k (length d.file)
      then done (d, store mem d.request.reg2 (get_or d.file k zeros))
      else fault Fault.sys_error

  -- `(int) reg1 >= n`
  abbrev pub int_above : ℤ → ℕ → Bool
  int_above (pos x) n = leb n x
  int_above (negsuc _) n = false

  abbrev pub with_status : Code → Disk → Disk
  with_status s d = record d { status = s }

  -- `disk_action` on one disk.
  unfoldable pub perform : Disk → Mem → Result (Disk × Mem)
  perform d mem =
      let reg1 = int_of d.request.reg1 in
      if d.request.opr == disk_seek
      then (if out_of_range reg1 d.tracks
          then done (with_status Code.error d, mem)
          else done (with_status Code.ready (record d { current_track = index reg1 }), mem))
      else if (d.request.opr == disk_read) || (d.request.opr == disk_write)
      then (if int_above reg1 track_size
          then done (with_status Code.error d, mem)
          else (transfer d mem (sector_of d.current_track reg1) >>= λ r.
              done (with_status Code.ready r.0, r.1)))
      else if d.request.opr == disk_tracks
      then done (with_status Code.ready d, store_int mem d.request.reg1 d.tracks)
      else fault Fault.sim_trap

  -- `disk_action`
  unfoldable pub disk_action : ℕ → List Disk → Mem → Result (ℕ × List Disk × Mem)
  disk_action unit disks mem =
      check (ltb unit disk_units) Fault.sys_error
      >> (perform (disk_at disks unit) mem >>= λ r. done (unit, set disks unit r.0, r.1))
