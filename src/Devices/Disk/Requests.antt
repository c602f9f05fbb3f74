-- ===== src/Devices/Disk/Requests.antt =====
-- What `disk_request` of src/dev_disk.c promises: a disk takes one request at a time, and an
-- accepted one has its event in the queue.
use usloss.Base.{
  ℕ, ◌<◌, ◌≤◌, ◌≡◌, refl, true, false, Option, some, List, set, if_ind, ℤ, index, arith,
}
use usloss.EventQueue.{Queue, slot_at, low_pri_dev, disk_dev, schedule_int}
use usloss.EventQueue.Delivery.{IsValid, schedule_int-total}
use usloss.Devices.Codes.{Code, ok, invalid}
use usloss.Devices.Disk.Laws.{disk_delay-bounds}
use usloss.Devices.Disk.{Memory, Disk, Request, disk_at, no_disk, is_busy, disk_delay, disk_request}

module _ (memory : Memory) where
  pub data RequestEnd (unit : ℤ) (r : Request) (disks : List (Disk memory)) (q : Queue)
      (out : Option (Code × List (Disk memory) × Queue)) : Type 0 where
    absent :
        no_disk memory unit disks ≡ true
        → out ≡ some (invalid, disks, q)
        → RequestEnd unit r disks q out
    pending :
        no_disk memory unit disks ≡ false
        → is_busy (disk_at memory disks (index unit)).status ≡ true
        → out ≡ some (Code.busy, disks, q)
        → RequestEnd unit r disks q out
    started :
        (q' : Queue)
        → no_disk memory unit disks ≡ false
        → is_busy (disk_at memory disks (index unit)).status ≡ false
        → schedule_int q disk_dev
            (index unit)
            (disk_delay memory (disk_at memory disks (index unit)) r)
          ≡ some q'
        → 1 ≤ disk_delay memory (disk_at memory disks (index unit)) r
        → disk_delay memory (disk_at memory disks (index unit)) r ≤ 3
        → IsValid q'
        → out
          ≡ some (
            ok,
            set disks
                (index unit)
                (record (disk_at memory disks (index unit)) { status = Code.busy; request = r }),
            q',
          )
        → RequestEnd unit r disks q out

  pub disk_request-RequestEnd :
      (unit : ℤ) (r : Request) (disks : List (Disk memory)) (q : Queue) (j : ℕ)
      → IsValid q
      → j < 256
      → (slot_at q.slots j).device ≡ low_pri_dev
      → RequestEnd unit r disks q (disk_request memory unit r disks q)
  unfolding disk_request
  disk_request-RequestEnd unit r disks q j v hj free =
      if_ind (RequestEnd unit r disks q) (no_disk memory unit disks) (λ e. absent e refl)
        (λ n.
          if_ind (RequestEnd unit r disks q) (is_busy (disk_at memory disks (index unit)).status)
            (λ e. pending n e refl)
            (λ idle.
              let (q', e, v') =
                schedule_int-total q disk_dev (index unit)
                  (disk_delay memory (disk_at memory disks (index unit)) r) j v (omega arith) hj
                  free in
              (let (lo, hi) = disk_delay-bounds memory (disk_at memory disks (index unit)) r in
                started q' n idle e lo hi v' (rw e refl))))
