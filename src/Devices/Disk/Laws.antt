-- ===== src/Devices/Disk/Laws.antt =====
-- What `disk_action` and `disk_request` of src/dev_disk.c do to a disk and to the memory.
use mathlib.Core.Path.{subst}
use usloss.Base.{
  ℕ, ◌+◌, ◌-◌, ◌*◌, ◌^◌, ◌<◌, ◌≤◌, ◌≡◌, ◌≢◌, ◌||◌, in_range, ◌>>=◌, inl, inr, refl, ◌∙◌, true,
  false, length, get_or, set, length-set, get_or-set_self, get_or-set_ne, ltb, leb, ◌==◌, if_ind,
  pos, negsuc, sub_ℕ, out_of_range, Result, done, fault, Bool-cases, arith,
}
use usloss.Devices.Codes.{Code, int_of}
use usloss.Devices.Disk.{
  Memory, Disk, Request, disk_read, disk_write, disk_seek, disk_tracks, track_size, disk_delay,
  is_busy, transfer, perform, with_status, int_above,
}

int_of-small : (w : ℕ) → w < 2 ^ 31 → int_of w ≡ pos w
int_of-small w h = ground arith

sub_ℕ-le : (a b : ℕ) → b ≤ a → sub_ℕ a b ≡ pos (a - b)
sub_ℕ-le a b h = ground arith

-- A request takes one tick, two or three.
pub disk_delay-bounds :
    (memory : Memory) (d : Disk memory) (r : Request)
    → (1 ≤ disk_delay memory d r) × (disk_delay memory d r ≤ 3)
unfolding disk_delay
disk_delay-bounds memory d r = (ground arith, ground arith)

module _ (memory : Memory) where
  open memory use {Mem, Sector, zeros, load, store, store_int, load-store}

  -- The file of an open disk has its whole tracks, and the head is on one of them.
  pub record IsDisk (d : Disk memory) : Type 0 where
    pub is_open : d.is_open ≡ true
    pub full : length d.file ≡ d.tracks * 16
    pub on_track : d.current_track < d.tracks

  -- The disk with a request to read or write sector k of the track.
  abbrev pub asking : Disk memory → ℕ → ℕ → ℕ → Disk memory
  asking d opr k buffer = record d { request = record { opr = opr; reg1 = k; reg2 = buffer } }

  -- The disk after a write of sector k of the track.
  abbrev pub written : Disk memory → ℕ → ℕ → Mem → Disk memory
  written d k buffer mem = record (asking d disk_write k buffer) {
    file = set d.file (d.current_track * 16 + k) (load mem buffer);
    status = Code.ready;
  }

  in_file :
      (d : Disk memory) (k n : ℕ)
      → d.current_track < d.tracks
      → n ≡ d.tracks * 16
      → k < 16
      → ltb (d.current_track * 16 + k) n ≡ true
  in_file d k n h e lt = let le : d.current_track * 16 + k < n = omega arith in ground arith

  perform-write :
      (d : Disk memory) (k buffer : ℕ) (mem : Mem)
      → IsDisk d
      → k < 16
      → perform memory (asking d disk_write k buffer) mem ≡ done (written d k buffer mem, mem)
  unfolding perform transfer
  perform-write d k buffer mem v h =
      let small : leb 16 k ≡ false = ground arith in
      rw (
        int_of-small k (omega arith),
        small,
        v.is_open,
        in_file d k (length d.file) v.on_track v.full h,
      )

  perform-read :
      (d : Disk memory) (k buffer : ℕ) (mem : Mem)
      → IsDisk d
      → k < 16
      → perform memory (asking d disk_read k buffer) mem
        ≡ done (
          record (asking d disk_read k buffer) { status = Code.ready },
          store mem buffer (get_or d.file (d.current_track * 16 + k) zeros),
        )
  unfolding perform transfer
  perform-read d k buffer mem v h =
      let small : leb 16 k ≡ false = ground arith in
      rw (
        int_of-small k (omega arith),
        small,
        v.is_open,
        in_file d k (length d.file) v.on_track v.full h,
      )

  written-IsDisk :
      (d : Disk memory) (k buffer : ℕ) (mem : Mem) → IsDisk d → IsDisk (written d k buffer mem)
  written-IsDisk d k buffer mem v = record {
    is_open = v.is_open;
    full = length-set d.file (d.current_track * 16 + k) (load mem buffer) ∙ v.full;
    on_track = v.on_track;
  }

  -- After a write of sector k of the track from one buffer, a read of that sector into another puts
  -- the data of the first buffer there. The disk stays well formed, and the write changes no other
  -- sector.
  pub perform-write_read :
      (d : Disk memory) (k from to : ℕ) (mem : Mem)
      → IsDisk d
      → k < 16
      → (d' : Disk memory) × (d'' : Disk memory) × (mem' : Mem) × (perform memory
            (asking d disk_write k from)
            mem
          ≡ done (d', mem))
        × (perform memory (asking d' disk_read k to) mem ≡ done (d'', mem'))
        × (load mem' to ≡ load mem from)
        × IsDisk d'
        × ((j : ℕ) → d.current_track * 16 + k ≢ j → get_or d'.file j zeros ≡ get_or d.file j zeros)
  perform-write_read d k from to mem v h =
      let v' = written-IsDisk d k from mem v in
      (
        written d k from mem,
        _,
        _,
        perform-write d k from mem v h,
        perform-read (written d k from mem) k to mem v' h,
        load-store mem to _
            ∙ get_or-set_self d.file (d.current_track * 16 + k) (load mem from) zeros
                (omega (arith, v.full, v.on_track)),
        v',
        λ j ne. get_or-set_ne d.file (d.current_track * 16 + k) j (load mem from) zeros ne,
      )

  -- A read whose sector number is negative, -(n + 1) with n + 1 up to the number of sectors before
  -- the head, succeeds: it gives a sector of a track before the one that the head is on.
  pub perform-read_negative :
      (d : Disk memory) (n w buffer : ℕ) (mem : Mem)
      → IsDisk d
      → int_of w ≡ negsuc n
      → n + 1 ≤ d.current_track * 16
      → perform memory (asking d disk_read w buffer) mem
        ≡ done (
          record (asking d disk_read w buffer) { status = Code.ready },
          store mem buffer (get_or d.file (d.current_track * 16 - (n + 1)) zeros),
        )
  unfolding perform transfer
  perform-read_negative d n w buffer mem v e h =
      let room : ltb (d.current_track * 16 - (n + 1)) (length d.file) ≡ true =
        (let le : d.current_track * 16 - (n + 1) < length d.file =
            omega (arith, v.full, v.on_track) in
          ground arith) in
      rw (e, sub_ℕ-le (d.current_track * 16) (n + 1) h, v.is_open, room)

  -- What the action on a disk keeps, and that the disk is not busy afterwards.
  pub record Performed (d d' : Disk memory) : Type 0 where
    pub disk : IsDisk d'
    pub tracks : d'.tracks ≡ d.tracks
    pub idle : is_busy d'.status ≡ false

  abbrev Ends : Disk memory → Result (Disk memory × Mem) → Type 0
  Ends d out = (d' : Disk memory) × (mem' : Mem) × (out ≡ done (d', mem')) × Performed d d'

  unmoved :
      (d d' : Disk memory)
      → IsDisk d
      → d'.is_open ≡ d.is_open
      → length d'.file ≡ length d.file
      → d'.tracks ≡ d.tracks
      → d'.current_track ≡ d.current_track
      → is_busy d'.status ≡ false
      → Performed d d'
  unmoved d d' v eo ef et ec idle = record {
    disk = record {
      is_open = eo ∙ v.is_open;
      full = omega (arith, v.full);
      on_track = omega (arith, v.on_track);
    };
    tracks = et;
    idle = idle;
  }

  transfer-Ends :
      (d : Disk memory) (x : ℕ) (mem : Mem)
      → IsDisk d
      → x < 16
      → Ends d (
          transfer memory d mem (pos (d.current_track * 16 + x)) >>= λ r.
          done (with_status memory Code.ready r.0, r.1))
  unfolding transfer
  transfer-Ends d x mem v h =
      let room = in_file d x (length d.file) v.on_track v.full h in
      elim (Bool-cases (d.request.opr == disk_write)) [
        | inl e ↦ (
          record d {
            file = set d.file (d.current_track * 16 + x) (load mem d.request.reg2);
            status = Code.ready;
          },
          mem,
          rw (v.is_open, e, room) refl,
          unmoved d _ v refl (length-set d.file (d.current_track * 16 + x) _) refl refl refl,
        )
        | inr e ↦ (
          record d { status = Code.ready },
          store mem d.request.reg2 (get_or d.file (d.current_track * 16 + x) zeros),
          rw (v.is_open, e, room) refl,
          unmoved d _ v refl refl refl refl refl,
        )
      ]

  -- On a well formed disk, and for one of the four operations with a register that is not negative,
  -- the action does not end the simulator: it returns, with a status other than busy, and the disk
  -- stays well formed with its number of tracks.
  pub perform-Performed :
      (d : Disk memory) (x : ℕ) (mem : Mem)
      → IsDisk d
      → d.request.opr ≤ 3
      → int_of d.request.reg1 ≡ pos x
      → (d' : Disk memory) × (mem' : Mem) × (perform memory d mem ≡ done (d', mem'))
        × Performed d d'
  unfolding perform
  perform-Performed d x mem v le e =
      if_ind (Ends d) (d.request.opr == disk_seek)
        (λ _.
          if_ind (Ends d) (out_of_range (int_of d.request.reg1) d.tracks)
            (λ _. (_, mem, refl, unmoved d _ v refl refl refl refl refl))
            (λ inside. (
              _,
              mem,
              refl,
              record {
                disk = record {
                  is_open = v.is_open;
                  full = v.full;
                  on_track = (in_range (int_of d.request.reg1) d.tracks inside).1;
                };
                tracks = refl;
                idle = refl;
              },
            )))
        (λ n2.
          if_ind (Ends d) ((d.request.opr == disk_read) || (d.request.opr == disk_write))
            (λ _.
              if_ind (Ends d) (int_above memory (int_of d.request.reg1) track_size)
                (λ _. (_, mem, refl, unmoved d _ v refl refl refl refl refl))
                (λ below.
                  let b : leb 16 x ≡ false = rw e at below in
                  rw e (transfer-Ends d x mem v (ground arith))))
            (λ n01.
              if_ind (Ends d) (d.request.opr == disk_tracks)
                (λ _. (_, _, refl, unmoved d _ v refl refl refl refl refl))
                (λ n3. absurd (ground arith))))

  Idle : Result (Disk memory × Mem) → Type 0
  Idle (done (d', _)) = is_busy d'.status ≡ false
  Idle (fault _) = Unit {0}

  transfer-Idle :
      (r : Result (Disk memory × Mem))
      → Idle (r >>= λ r. done (with_status memory Code.ready r.0, r.1))
  unfolding Idle
  transfer-Idle (done _) = refl
  transfer-Idle (fault _) = tt

  perform-Idle : (d : Disk memory) (mem : Mem) → Idle (perform memory d mem)
  unfolding perform Idle
  perform-Idle d mem =
      if_ind Idle (d.request.opr == disk_seek)
        (λ _. if_ind Idle (out_of_range (int_of d.request.reg1) d.tracks) (λ _. refl) (λ _. refl))
        (λ _.
          if_ind Idle ((d.request.opr == disk_read) || (d.request.opr == disk_write))
            (λ _.
              if_ind Idle (int_above memory (int_of d.request.reg1) track_size) (λ _. refl)
                (λ _. transfer-Idle _))
            (λ _. if_ind Idle (d.request.opr == disk_tracks) (λ _. refl) (λ _. tt)))

  -- A disk whose action returns is not busy afterwards.
  pub perform-idle :
      (d : Disk memory) (mem : Mem) {d' : Disk memory} {mem' : Mem}
      → perform memory d mem ≡ done (d', mem')
      → is_busy d'.status ≡ false
  unfolding Idle
  perform-idle d mem e = subst Idle e (perform-Idle d mem)
