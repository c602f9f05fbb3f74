-- ===== src/Mmu/Grid.antt =====
-- The page tables of all tags as a grid: reading back what is written, and the number of mapped
-- pages, which `numMaps` of src/mmu.c is to equal.
use usloss.Base.{
  ℕ, zero, suc, ◌+◌, ◌<◌, ◌≡◌, ◌≢◌, refl, ap, ◌∙◌, List, [], ◌∷◌, length, get_or, set, length-set,
  get_or-set_self, get_or-set_ne, replicate, length-replicate, if◌then◌else◌, pos, arith,
}
use native.Mathlib.Decide.{ℕ_discrete}
use usloss.Mmu.Types.{MmuPage, no_page, is_mapped, num_tag, page_of, set_page}

abbrev Row : Type 0
Row = List MmuPage

abbrev pub Grid : Type 0
Grid = List Row

-- One row for each tag, of one entry for each page.
pub record IsGrid (pages : Grid) (n : ℕ) : Type 0 where
  pub tags : length pages ≡ num_tag
  pub rows : (t : ℕ) → t < num_tag → length (get_or pages t []) ≡ n

module _ (pages : Grid) (n : ℕ) (g : IsGrid pages n) (t i : ℕ) (p : MmuPage)
    (ht : t < num_tag) where
  pub page_of-set_page_self : i < n → page_of (set_page pages (pos t) i p) (pos t) i ≡ p
  page_of-set_page_self hi =
      ap (λ (r : Row). get_or r i no_page) (get_or-set_self pages t _ [] (omega (arith, g.tags)))
      ∙ get_or-set_self (get_or pages t []) i p no_page (omega (arith, g.rows t ht))

  pub page_of-set_page_ne :
      (j : ℕ) → i ≢ j → page_of (set_page pages (pos t) i p) (pos t) j ≡ page_of pages (pos t) j
  page_of-set_page_ne j ne =
      ap (λ (r : Row). get_or r j no_page) (get_or-set_self pages t _ [] (omega (arith, g.tags)))
      ∙ get_or-set_ne (get_or pages t []) i j p no_page ne

  pub page_of-set_page_tag :
      (u j : ℕ) → t ≢ u → page_of (set_page pages (pos t) i p) (pos u) j ≡ page_of pages (pos u) j
  page_of-set_page_tag u j ne =
      ap (λ (r : Row). get_or r j no_page) (get_or-set_ne pages t u _ [] ne)

  pub set_page-IsGrid : IsGrid (set_page pages (pos t) i p) n
  set_page-IsGrid = record {
    tags = length-set pages t _ ∙ g.tags;
    rows = λ u hu. elim (ℕ_discrete t u) [
      | yes e ↦ rw (← e) (
          ap length (get_or-set_self pages t _ [] (omega (arith, g.tags)))
          ∙ (length-set (get_or pages t []) i p ∙ g.rows t ht))
      | no ne ↦ ap length (get_or-set_ne pages t u _ [] ne) ∙ g.rows u hu
    ];
  }

-- What a read finds after a write: what was written, or what was there.
pub data ReadBack (pages : Grid) (t i : ℕ) (p : MmuPage) (u j : ℕ) : Type 0 where
  written :
      t ≡ u → i ≡ j → page_of (set_page pages (pos t) i p) (pos u) j ≡ p → ReadBack pages t i p u j
  kept :
      (i ≡ j → t ≢ u)
      → page_of (set_page pages (pos t) i p) (pos u) j ≡ page_of pages (pos u) j
      → ReadBack pages t i p u j

pub read_back :
    (pages : Grid) (n t i : ℕ) (p : MmuPage) (u j : ℕ)
    → IsGrid pages n
    → t < num_tag
    → i < n
    → ReadBack pages t i p u j
read_back pages n t i p u j g ht hi = elim (ℕ_discrete t u) [
  | no ne ↦ kept (λ _. ne) (page_of-set_page_tag pages n g t i p ht u j ne)
  | yes e ↦ elim (ℕ_discrete i j) [
    | yes e' ↦ written e e' (rw (← e, ← e') (page_of-set_page_self pages n g t i p ht hi))
    | no ne ↦ kept (λ e'. absurd (ne e')) (rw (← e) (page_of-set_page_ne pages n g t i p ht j ne))
  ]
]

pub replicate-IsGrid : (n : ℕ) → IsGrid (replicate num_tag (replicate n no_page)) n
replicate-IsGrid n = record {
  tags = refl;
  rows = λ t ht. ap length (get_row t ht) ∙ length-replicate n no_page;
}
  where
    get_row :
        (t : ℕ)
        → t < 4
        → get_or (replicate num_tag (replicate n no_page)) t [] ≡ replicate n no_page
    get_row zero h = refl
    get_row (suc zero) h = refl
    get_row (suc (suc zero)) h = refl
    get_row (suc (suc (suc zero))) h = refl
    get_row (suc (suc (suc (suc t)))) h = absurd (omega arith)

abbrev pub bit : MmuPage → ℕ
bit p = if is_mapped p then 1 else 0

abbrev pub mapped_row : Row → ℕ
mapped_row [] = 0
mapped_row (p ∷ ps) = bit p + mapped_row ps

-- The number of mapped pages under all tags.
abbrev pub mapped : Grid → ℕ
mapped [] = 0
mapped (r ∷ rs) = mapped_row r + mapped rs

mapped_row-set :
    (r : Row) (i : ℕ) (p : MmuPage)
    → i < length r
    → mapped_row (set r i p) + bit (get_or r i no_page) ≡ mapped_row r + bit p
mapped_row-set [] i p h = absurd (omega arith)
mapped_row-set (q ∷ r) zero p h = omega arith
mapped_row-set (q ∷ r) (suc i) p h = omega (arith, mapped_row-set r i p (omega arith))

mapped-set :
    (g : Grid) (t : ℕ) (r : Row)
    → t < length g
    → mapped (set g t r) + mapped_row (get_or g t []) ≡ mapped g + mapped_row r
mapped-set [] t r h = absurd (omega arith)
mapped-set (q ∷ g) zero r h = omega arith
mapped-set (q ∷ g) (suc t) r h = omega (arith, mapped-set g t r (omega arith))

pub mapped-set_page :
    (pages : Grid) (n : ℕ) (t i : ℕ) (p : MmuPage)
    → IsGrid pages n
    → t < num_tag
    → i < n
    → mapped (set_page pages (pos t) i p) + bit (page_of pages (pos t) i) ≡ mapped pages + bit p
mapped-set_page pages n t i p g ht hi = omega (
  arith,
  g.tags,
  g.rows t ht,
  mapped-set pages t (set (get_or pages t []) i p) (omega (arith, g.tags)),
  mapped_row-set (get_or pages t []) i p (omega (arith, g.rows t ht)),
)

mapped_row-replicate : (n : ℕ) → mapped_row (replicate n no_page) ≡ 0
mapped_row-replicate zero = refl
mapped_row-replicate (suc n) = omega (arith, mapped_row-replicate n)

pub mapped-replicate : (k n : ℕ) → mapped (replicate k (replicate n no_page)) ≡ 0
mapped-replicate zero n = refl
mapped-replicate (suc k) n = omega (arith, mapped_row-replicate n, mapped-replicate k n)
