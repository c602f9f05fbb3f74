-- ===== src/Mmu/Addresses.antt =====
-- `PageIndex` of src/mmu.c: which page of the region an address is taken for.
use native.Mathlib.Nat.{mul-add-div_right, div-eq_of_lt}
use usloss.Base.{ℕ, ◌+◌, ◌-◌, ◌*◌, ◌/◌, ◌<◌, ◌≤◌, ◌≡◌, refl, ap, ◌∙◌, leb, true, pos, arith, if_ind}
use usloss.Mmu.Api.{page_index}

at_page : (region size i off : ℕ) → off < size → (region + (i * size + off) - region) / size ≡ i
at_page region size i off h =
    let start : region + (i * size + off) - region ≡ i * size + off = omega arith in
    ap (λ x. x / size) start
    ∙ (mul-add-div_right {m = size} (omega arith) i off
        ∙ omega (arith, div-eq_of_lt {n = off} {m = size} h))

-- An address at an offset in page i of the region is taken for page i; an address below the region,
-- by less than the size of a page, is taken for page 0 too.
pub page_index-places :
    (region size : ℕ)
    → ((i off : ℕ) → off < size → page_index region size (region + (i * size + off)) ≡ pos i)
      × ((k : ℕ) → k < size → k ≤ region → page_index region size (region - k) ≡ pos 0)
unfolding page_index
page_index-places region size = (
  λ i off h.
      let here : leb region (region + (i * size + off)) ≡ true = ground arith in
      rw (here, at_page region size i off h) refl,
  λ k h le. below k h le,
)
  where
    small : (k : ℕ) → k < size → k / size ≡ 0
    small k h = div-eq_of_lt {n = k} {m = size} h

    below : (k : ℕ) → k < size → k ≤ region → page_index region size (region - k) ≡ pos 0
    below k h le =
        if_ind (λ x. x ≡ pos 0) (leb region (region - k))
          (λ _.
            let zero_off : region - k - region ≡ 0 = omega arith in
            rw (zero_off, small 0 (omega arith)) refl)
          (λ _. let gap : region - (region - k) ≡ k = omega arith in rw (gap, small k h) refl)
