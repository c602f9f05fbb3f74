-- ===== src/Mmu/Track.antt =====
-- The access bits of src/mmu.c record every access: what a page lets through, its frame's bits
-- show.
use Prim.Native.Nat.{bit_or}
use usloss.Base.{
  ℕ, zero, suc, ◌<◌, ◌≤◌, ◌≡◌, ◌≢◌, refl, sym, ap, ◌∙◌, ◌⊎◌, inl, inr, true, get_or, set,
  get_or-set_self, get_or-set_ne, pos, arith, pos_inj,
}
use mathlib.Core.Path.{subst}
use native.Mathlib.Decide.{ℕ_discrete}
use usloss.Mmu.Types.{Prot, prot_none, prot_read, prot_rw, MmuPage, page_of, set_page, Vm}
use usloss.Mmu.Pages.{Mmu, current_page, write_real_prot}
use usloss.Mmu.Access.{has_ref, has_dirty, ref_bit, dirty_bit, add_bit}
use usloss.Mmu.Grid.{read_back, written, kept}
use usloss.Mmu.Inv.{Inv}

-- What the bits of a frame say if a page that shows it has this real protection.
abbrev pub Recorded : Prot → ℕ → Type 0
Recorded prot_none access = Unit
Recorded prot_read access = has_ref access ≡ true
Recorded prot_rw access = (has_ref access ≡ true) × (has_dirty access ≡ true)

pub add_ref : (a : ℕ) → a ≤ 3 → (bit_or a ref_bit ≤ 3) × (has_ref (bit_or a ref_bit) ≡ true)
add_ref zero h = (omega arith, refl)
add_ref (suc zero) h = (omega arith, refl)
add_ref (suc (suc zero)) h = (omega arith, refl)
add_ref (suc (suc (suc zero))) h = (omega arith, refl)
add_ref (suc (suc (suc (suc a)))) h = absurd (omega arith)

pub add_dirty : (a : ℕ) → a ≤ 3 → (bit_or a dirty_bit ≤ 3) × (has_dirty (bit_or a dirty_bit) ≡ true)
add_dirty zero h = (omega arith, refl)
add_dirty (suc zero) h = (omega arith, refl)
add_dirty (suc (suc zero)) h = (omega arith, refl)
add_dirty (suc (suc (suc zero))) h = (omega arith, refl)
add_dirty (suc (suc (suc (suc a)))) h = absurd (omega arith)

-- Setting a bit keeps what is recorded.
pub Recorded-ref : (q : Prot) (a : ℕ) → a ≤ 3 → Recorded q a → Recorded q (bit_or a ref_bit)
Recorded-ref prot_none a h r = tt
Recorded-ref prot_read a h r = (add_ref a h).1
Recorded-ref prot_rw zero h r = absurd (cc r.0)
Recorded-ref prot_rw (suc zero) h r = absurd (cc r.1)
Recorded-ref prot_rw (suc (suc zero)) h r = (refl, refl)
Recorded-ref prot_rw (suc (suc (suc zero))) h r = (refl, refl)
Recorded-ref prot_rw (suc (suc (suc (suc a)))) h r = absurd (omega arith)

pub Recorded-dirty : (q : Prot) (a : ℕ) → a ≤ 3 → Recorded q a → Recorded q (bit_or a dirty_bit)
Recorded-dirty prot_none a h r = tt
Recorded-dirty prot_read zero h r = absurd (cc r)
Recorded-dirty prot_read (suc zero) h r = refl
Recorded-dirty prot_read (suc (suc zero)) h r = absurd (cc r)
Recorded-dirty prot_read (suc (suc (suc zero))) h r = refl
Recorded-dirty prot_read (suc (suc (suc (suc a)))) h r = absurd (omega arith)
Recorded-dirty prot_rw zero h r = absurd (cc r.0)
Recorded-dirty prot_rw (suc zero) h r = (refl, refl)
Recorded-dirty prot_rw (suc (suc zero)) h r = absurd (cc r.0)
Recorded-dirty prot_rw (suc (suc (suc zero))) h r = (refl, refl)
Recorded-dirty prot_rw (suc (suc (suc (suc a)))) h r = absurd (omega arith)

module _ (vm : Vm) where
  open vm use {View}

  abbrev pub access_of : Mmu vm → ℕ → ℕ
  access_of m f = get_or m.frames f 0

  -- The access bits are in range, and every page of the current tag is recorded.
  pub record Tracks (m : Mmu vm) : Type 0 where
    pub bits : (f : ℕ) → access_of m f ≤ 3
    pub recorded :
        (i f : ℕ)
        → i < m.num_pages
        → (current_page vm m i).frame ≡ pos f
        → Recorded (current_page vm m i).real_prot (access_of m f)

  -- What `SetRealProt` does to the pages of the current tag.
  pub current_page-write :
      (m : Mmu vm) (i j : ℕ) (prot : Prot)
      → Inv vm m
      → i < m.num_pages
      → ((i ≡ j)
          × (current_page vm (write_real_prot vm m i prot) j
              ≡ record (current_page vm m i) { real_prot = prot }))
        ⊎ ((i ≢ j) × (current_page vm (write_real_prot vm m i prot) j ≡ current_page vm m j))
  unfolding write_real_prot
  current_page-write m i j prot h hi =
      let p : MmuPage = record (current_page vm m i) { real_prot = prot } in
      elim (read_back m.pages m.num_pages h.now i p h.now j h.grid h.now_in hi) [
        | written _ e r ↦
            inl (e, subst (λ t. page_of (set_page m.pages t i p) t j ≡ p) (sym h.tag_now) r)
        | kept ne r ↦ inr (
          (λ e. ne e refl),
          subst (λ t. page_of (set_page m.pages t i p) t j ≡ page_of m.pages t j) (sym h.tag_now) r,
        )
      ]

  -- Raising the protection of a page and setting a bit of its frame keeps the record, if the bit
  -- keeps it for any protection and gives it for the new one.
  pub raise-Tracks :
      (m : Mmu vm) (i f : ℕ) (prot : Prot) (bit : ℕ)
      → Inv vm m
      → Tracks m
      → i < m.num_pages
      → f < m.num_frames
      → (current_page vm m i).frame ≡ pos f
      → bit_or (access_of m f) bit ≤ 3
      → Recorded prot (bit_or (access_of m f) bit)
      → ((q : Prot) → Recorded q (access_of m f) → Recorded q (bit_or (access_of m f) bit))
      → Tracks (add_bit vm (write_real_prot vm m i prot) f bit)
  unfolding write_real_prot
  raise-Tracks m i f prot bit h tr hi hf ef le new mono = record {
    bits = λ g. elim (ℕ_discrete f g) [
      | yes e ↦ rw (← e, new_bits) le
      | no ne ↦ rw (get_or-set_ne m.frames f g _ 0 ne) (tr.bits g)
    ];
    recorded = λ j g hj ej. elim (current_page-write m i j prot h hi) [
      | inl (e, w) ↦
          let eg : f ≡ g = pos_inj (sym ef ∙ (sym (ap (λ (p : MmuPage). p.frame) w) ∙ ej)) in
          rw (w, ← eg, new_bits) new
      | inr (ne, w) ↦ rw w (old j g hj (sym (ap (λ (p : MmuPage). p.frame) w) ∙ ej))
    ];
  }
    where
      new_bits :
          get_or (set m.frames f (bit_or (access_of m f) bit)) f 0 ≡ bit_or (access_of m f) bit
      new_bits = get_or-set_self m.frames f _ 0 (omega (arith, h.frames_full))

      old :
          (j g : ℕ)
          → j < m.num_pages
          → (current_page vm m j).frame ≡ pos g
          → Recorded
              (current_page vm m j).real_prot
              (get_or (set m.frames f (bit_or (access_of m f) bit)) g 0)
      old j g hj ej = elim (ℕ_discrete f g) [
        | yes e ↦ rw (← e, new_bits) (mono _ (tr.recorded j f hj (ej ∙ ap pos (sym e))))
        | no ne ↦ rw (get_or-set_ne m.frames f g _ 0 ne) (tr.recorded j g hj ej)
      ]
