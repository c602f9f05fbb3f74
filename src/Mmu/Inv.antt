-- ===== src/Mmu/Inv.antt =====
-- The invariant of the MMU of src/mmu.c: the tables have their sizes, `numMaps` counts the mapped
-- pages, and the region shows what the tables of the current tag say.
use usloss.Base.{List, ℕ, ◌<◌, ◌≤◌, ◌≡◌, ◌≢◌, false, length, pos}
use usloss.Mmu.Types.{
  Cause, prot_none, MmuPage, no_page, is_mapped, num_tag, page_of, set_page, in_frame, Mapping, Vm,
  page_addr,
}
use usloss.Mmu.Pages.{Mmu}
use usloss.Mmu.Grid.{IsGrid, written, kept, read_back, set_page-IsGrid, mapped}

-- An entry is empty, or names a frame that exists and a protection that `Map` accepts.
pub data IsEntry (num_frames : ℕ) (p : MmuPage) : Type 0 where
  empty : p ≡ no_page → IsEntry num_frames p
  filled : (f : ℕ) → p.frame ≡ pos f → f < num_frames → p.virt_prot ≤ 3 → IsEntry num_frames p

-- What the region shows for an entry: nothing that can be accessed, or its frame with its real
-- protection.
pub data Shows (p : MmuPage) (v : Mapping) : Type 0 where
  hidden : is_mapped p ≡ false → v.prot ≡ prot_none → Shows p v
  shown :
      (f : ℕ)
      → p.frame ≡ pos f
      → v ≡ record { backing = in_frame f; prot = p.real_prot }
      → Shows p v

module _ (vm : Vm) where
  open vm use {View, at}

  -- The invariant, of the tables, the counts, the current tag and the view apart.
  pub record Inv (m : Mmu vm) : Type 0 where
    pub now : ℕ
    pub now_in : now < num_tag
    pub tag_now : m.tag ≡ pos now
    pub grid : IsGrid m.pages m.num_pages
    pub frames_full : length m.frames ≡ m.num_frames
    pub counted : m.num_maps ≡ mapped m.pages
    pub room : m.num_maps ≤ m.max_maps
    pub entries :
        (t i : ℕ) → t < num_tag → i < m.num_pages → IsEntry m.num_frames (page_of m.pages (pos t) i)
    pub idle :
        (t i : ℕ)
        → t < num_tag
        → i < m.num_pages
        → t ≢ now
        → (page_of m.pages (pos t) i).real_prot ≡ prot_none
    pub view :
        (i : ℕ) → i < m.num_pages → Shows (page_of m.pages (pos now) i) (at m.view (page_addr i))

  -- A write of one entry keeps the invariant, if the view follows it where its tag is the current
  -- one and stays where it is not.
  pub write-Inv :
      (m : Mmu vm) (t i k : ℕ) (p : MmuPage) (v : View)
      → (h : Inv m) → t < num_tag
      → i < m.num_pages
      → IsEntry m.num_frames p
      → (t ≢ h.now → p.real_prot ≡ prot_none)
      → k ≡ mapped (set_page m.pages (pos t) i p)
      → k ≤ m.max_maps
      → ((j : ℕ) → (i ≡ j → t ≢ h.now) → at v (page_addr j) ≡ at m.view (page_addr j))
      → (t ≡ h.now → Shows p (at v (page_addr i)))
      → Inv (record m { pages = set_page m.pages (pos t) i p; num_maps = k; view = v })
  write-Inv m t i k p v h ht hi e idle ek le same here = record {
    now = h.now;
    now_in = h.now_in;
    tag_now = h.tag_now;
    grid = set_page-IsGrid m.pages m.num_pages h.grid t i p ht;
    frames_full = h.frames_full;
    counted = ek;
    room = le;
    entries = λ u j hu hj. elim (read_back m.pages m.num_pages t i p u j h.grid ht hi) [
      | written _ _ r ↦ rw r e
      | kept _ r ↦ rw r (h.entries u j hu hj)
    ];
    idle = λ u j hu hj ne. elim (read_back m.pages m.num_pages t i p u j h.grid ht hi) [
      | written et _ r ↦ rw r (idle (rw et ne))
      | kept _ r ↦ rw r (h.idle u j hu hj ne)
    ];
    view = λ j hj. elim (read_back m.pages m.num_pages t i p h.now j h.grid ht hi) [
      | written et ei r ↦ rw (r, ← ei) (here et)
      | kept ne r ↦ rw (r, same j ne) (h.view j hj)
    ];
  }

  -- The access bits, the cause and the page table pointer are not what the invariant is about.
  pub frames-Inv :
      (m : Mmu vm) (fs : List ℕ) → length fs ≡ m.num_frames → Inv m → Inv (record m { frames = fs })
  frames-Inv m fs e h = record {
    now = h.now;
    now_in = h.now_in;
    tag_now = h.tag_now;
    grid = h.grid;
    frames_full = e;
    counted = h.counted;
    room = h.room;
    entries = h.entries;
    idle = h.idle;
    view = h.view;
  }

  pub cause-Inv : (m : Mmu vm) (c : Cause) → Inv m → Inv (record m { cause = c })
  cause-Inv m c h = record {
    now = h.now;
    now_in = h.now_in;
    tag_now = h.tag_now;
    grid = h.grid;
    frames_full = h.frames_full;
    counted = h.counted;
    room = h.room;
    entries = h.entries;
    idle = h.idle;
    view = h.view;
  }
