-- ===== src/LibDisk/Laws.antt =====
-- A disk that `Disk_Create` of libdisk/disk.c has made, as `disk_init` of src/dev_disk.c opens it.
use mathlib.Core.Path.{subst}
use usloss.Base.{
  ℕ, zero, suc, ◌+◌, ◌*◌, ◌/◌, ◌%◌, ◌<◌, ◌≤◌, ◌≡◌, refl, ◌∙◌, true, some, List, [], ◌++◌, length,
  length-replicate, get_or-replicate, ◌∷◌, replicate, get_or, arith,
}
use usloss.Devices.Codes.{Code}
use usloss.Devices.Disk.{Memory, disk_open}
use usloss.Devices.Disk.Laws.{IsDisk}
use usloss.LibDisk.{File, track_bytes, extend, write_tracks, disk_create}

module _ (memory : Memory) where
  open memory use {Sector, zeros}

  -- A file of whole tracks that are all zero.
  record Blank (file : File memory) (tracks : ℕ) : Type 0 where
    size : file.0 ≡ tracks * 8192
    full : length file.1 ≡ tracks * 16
    blank : (i : ℕ) → get_or file.1 i zeros ≡ zeros

  length-append : (xs ys : List Sector) → length (xs ++ ys) ≡ length xs + length ys
  length-append [] ys = omega arith
  length-append (x ∷ xs) ys = omega (arith, length-append xs ys)

  get_or-append_blank :
      (xs : List Sector) (n i : ℕ)
      → ((j : ℕ) → get_or xs j zeros ≡ zeros)
      → get_or (xs ++ replicate n zeros) i zeros ≡ zeros
  get_or-append_blank [] n i all = get_or-replicate n i zeros
  get_or-append_blank (x ∷ xs) n zero all = all 0
  get_or-append_blank (x ∷ xs) n (suc i) all = get_or-append_blank xs n i (λ j. all (suc j))

  extend-Blank :
      (n : ℕ) (file : File memory) → Blank file n → Blank (extend memory track_bytes file) (suc n)
  extend-Blank n file b = record {
    size = omega (arith, b.size);
    full =
        length-append file.1 (replicate 16 zeros)
        ∙ omega (arith, b.full, length-replicate 16 zeros);
    blank = λ i. get_or-append_blank file.1 16 i b.blank;
  }

  -- The loop on writes that all succeed.
  write_tracks-Blank :
      (write : ℕ → ℕ) (left i : ℕ) (file : File memory)
      → ((k : ℕ) → k < i + left → write k ≡ track_bytes)
      → Blank file i
      → (file' : File memory) × (write_tracks memory write left i file ≡ (0, file'))
        × Blank file' (i + left)
  unfolding write_tracks
  write_tracks-Blank write zero i file all b = (file, refl, subst (Blank file) (omega arith) b)
  write_tracks-Blank write (suc left) i file all b =
      let (file', e, b') =
        write_tracks-Blank write left (i + 1) (extend memory track_bytes file)
          (λ k h. all k (omega arith))
          (subst (Blank (extend memory track_bytes file)) (omega arith) (extend-Blank i file b)) in
      (file', rw (all i (omega arith)) e, subst (Blank file') (omega arith) b')

  -- If the file can be opened and each track be written whole, then `Disk_Create` returns 0, and
  -- `disk_init` opens the file as a well formed disk that is ready, with as many tracks as were
  -- asked for, one at least, and with all sectors zero.
  pub disk_open-disk_create :
      (write : ℕ → ℕ) (tracks : ℕ)
      → 1 ≤ tracks
      → ((k : ℕ) → k < tracks → write k ≡ track_bytes)
      → (file : File memory) × (disk_create memory true write tracks ≡ (0, some file))
        × IsDisk memory (disk_open memory (some file))
        × ((disk_open memory (some file)).tracks ≡ tracks)
        × ((disk_open memory (some file)).status ≡ Code.ready)
        × ((i : ℕ) → get_or (disk_open memory (some file)).file i zeros ≡ zeros)
  unfolding disk_create disk_open
  disk_open-disk_create write tracks le all =
      let empty : Blank (0, []) 0 = record { size = refl; full = refl; blank = λ i. refl } in
      let (file, e, b) =
        write_tracks-Blank write tracks 0 (0, []) (λ k h. all k (omega arith)) empty in
      let count : file.0 / 8192 ≡ tracks = omega (arith, b.size) in
      let whole : file.0 % 8192 ≡ 0 = omega (arith, b.size) in
      (
        file,
        rw e refl,
        record {
          is_open = rw whole refl;
          full = omega (arith, b.full, count);
          on_track = omega (arith, count);
        },
        count,
        refl,
        b.blank,
      )
