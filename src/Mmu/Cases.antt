-- ===== src/Mmu/Cases.antt =====
-- `Map` and `Unmap` of src/mmu.c, branch by branch: which status answers which mistake of the
-- caller, and what remains to be done when there is none.
use usloss.Base.{
  ℕ, ◌<◌, ◌≤◌, ◌≡◌, ◌≢◌, refl, true, false, ℤ, pos, arith, ltb→lt, ltb→ge, if_ind, bool_clash,
  ==_iff, out_of_range, in_range, index, done,
}
use usloss.Mmu.Types.{Status, is_mapped, num_tag, page_of, Vm}
use usloss.Mmu.Pages.{Mmu, Outcome, do_map, map_page, do_unmap, unmap_page}

-- An `int` that is an index below a bound.
abbrev pub Within : ℤ → ℕ → Type 0
Within x bound = (n : ℕ) × (x ≡ pos n) × (n < bound)

out-Within : (x : ℤ) (bound : ℕ) → out_of_range x bound ≡ true → ¬ Within x bound
out-Within x bound e (n, ex, lt) =
    let e' : out_of_range (pos n) bound ≡ true = rw ex at e in ground arith

in-Within : (x : ℤ) (bound : ℕ) → out_of_range x bound ≡ false → Within x bound
in-Within x bound e = let (ex, lt) = in_range x bound e in (index x, ex, lt)

module _ (vm : Vm) where
  -- Why `Map` refuses, by its status.
  pub data MapError (m : Mmu vm) (tag page frame : ℤ) (protection : ℕ) : Status → Type 0 where
    bad_page : ¬ Within page m.num_pages → MapError m tag page frame protection Status.err_page
    bad_frame : ¬ Within frame m.num_frames → MapError m tag page frame protection Status.err_frame
    no_room : m.num_maps ≡ m.max_maps → MapError m tag page frame protection Status.err_maps
    bad_prot : 3 < protection → MapError m tag page frame protection Status.err_prot
    bad_tag : ¬ Within tag num_tag → MapError m tag page frame protection Status.err_tag
    remap :
        (t i : ℕ)
        → tag ≡ pos t
        → page ≡ pos i
        → is_mapped (page_of m.pages (pos t) i) ≡ true
        → MapError m tag page frame protection Status.err_remap

  pub data MapCase (m : Mmu vm) (tag page frame : ℤ) (protection : ℕ) (out : Outcome vm)
      : Type 0 where
    refused :
        (s : Status)
        → MapError m tag page frame protection s
        → out ≡ done (s, m)
        → MapCase m tag page frame protection out
    entered :
        (t i f : ℕ)
        → tag ≡ pos t
        → page ≡ pos i
        → frame ≡ pos f
        → t < num_tag
        → i < m.num_pages
        → f < m.num_frames
        → protection ≤ 3
        → m.num_maps ≢ m.max_maps
        → is_mapped (page_of m.pages (pos t) i) ≡ false
        → out ≡ do_map vm m (pos t) i f protection
        → MapCase m tag page frame protection out

  pub map_page-MapCase :
      (m : Mmu vm) (tag page frame : ℤ) (protection : ℕ)
      → MapCase m tag page frame protection (map_page vm m tag page frame protection)
  unfolding map_page
  map_page-MapCase m tag page frame protection =
      if_ind Case _ (λ e. refused _ (bad_page (out-Within page m.num_pages e)) refl)
        λ e1.
          if_ind Case _ (λ e. refused _ (bad_frame (out-Within frame m.num_frames e)) refl)
            λ e2.
              if_ind Case _ (λ e. refused _ (no_room ((==_iff _ _).0 e)) refl)
                λ e3.
                  if_ind Case _ (λ e. refused _ (bad_prot (ltb→lt _ _ e)) refl)
                    λ e4.
                      if_ind Case _ (λ e. refused _ (bad_tag (out-Within tag num_tag e)) refl)
                        λ e5.
                          let (t, et, ht) = in-Within tag num_tag e5 in
                          let (ei, hi) = in_range page m.num_pages e1 in
                          let (ef, hf) = in_range frame m.num_frames e2 in
                          if_ind Case (is_mapped (page_of m.pages tag (index page)))
                            (λ e. refused _ (remap t (index page) et ei (rw et at e)) refl)
                            λ e6.
                              entered t (index page) (index frame) et ei ef ht hi hf (ltb→ge _ _ e4)
                                (λ q. bool_clash ((==_iff _ _).1 q) e3) (rw et at e6) (rw et)
    where
      Case : Outcome vm → Type 0
      Case = MapCase m tag page frame protection

  -- Why `Unmap` refuses, by its status.
  pub data UnmapError (m : Mmu vm) (tag page : ℤ) : Status → Type 0 where
    bad_page : ¬ Within page m.num_pages → UnmapError m tag page Status.err_page
    bad_tag : ¬ Within tag num_tag → UnmapError m tag page Status.err_tag
    no_map :
        (t i : ℕ)
        → tag ≡ pos t
        → page ≡ pos i
        → is_mapped (page_of m.pages (pos t) i) ≡ false
        → UnmapError m tag page Status.err_nomap

  pub data UnmapCase (m : Mmu vm) (tag page : ℤ) (out : Outcome vm) : Type 0 where
    refused : (s : Status) → UnmapError m tag page s → out ≡ done (s, m) → UnmapCase m tag page out
    cleared :
        (t i : ℕ)
        → tag ≡ pos t
        → page ≡ pos i
        → t < num_tag
        → i < m.num_pages
        → is_mapped (page_of m.pages (pos t) i) ≡ true
        → out ≡ do_unmap vm m (pos t) i
        → UnmapCase m tag page out

  pub unmap_page-UnmapCase :
      (m : Mmu vm) (tag page : ℤ) → UnmapCase m tag page (unmap_page vm m tag page)
  unfolding unmap_page
  unmap_page-UnmapCase m tag page =
      if_ind Case _
        (λ e. UnmapCase.refused _ (UnmapError.bad_page (out-Within page m.num_pages e)) refl)
        λ e1.
          if_ind Case _
            (λ e. UnmapCase.refused _ (UnmapError.bad_tag (out-Within tag num_tag e)) refl)
            λ e2.
              let (t, et, ht) = in-Within tag num_tag e2 in
              let (ei, hi) = in_range page m.num_pages e1 in
              if_ind Case (is_mapped (page_of m.pages tag (index page)))
                (λ e. cleared t (index page) et ei ht hi (rw et at e) (rw et))
                (λ e. UnmapCase.refused _ (no_map t (index page) et ei (rw et at e)) refl)
    where
      Case : Outcome vm → Type 0
      Case = UnmapCase m tag page
