-- ===== src/Mmu/Table.antt =====
-- `USLOSS_MmuSetPageTable` of src/mmu.c: the mappings of tag 0 afterwards are those of the page
-- table.
use usloss.Base.{
  ℕ, zero, suc, ◌+◌, ◌<◌, ◌≤◌, ◌≡◌, ◌≢◌, refl, sym, ◌∙◌, inl, inr, true, false, ℤ, pos, arith,
  Option, Bool-cases, if◌then◌else◌, if_ind, some_inj, none≢some, some, none, done, ◌==◌, pos_inj,
  ◌>>=◌,
}
use native.Mathlib.Decide.{ℕ_discrete}
use usloss.Mmu.Types.{Status, Vm}
use usloss.Mmu.Pages.{Mmu, Outcome, enter_page}
use usloss.Mmu.Cases.{MapError}
use usloss.Mmu.Sound.{Sound}
use usloss.Mmu.Switch.{Pte, pte_protection, map_entry, unless_failed, map_all, set_page_table}
use usloss.Mmu.Mapping.{MapEnd, map_page-MapEnd, MapError-ne_ok, enter_page-Changed}
use usloss.Mmu.Clearing.{nothing, answer, Kept, unmap_all-frees}

-- What it is to answer about a page with this entry: the frame, with the protection that the read
-- and write bits ask for, if the entry is in core.
abbrev pub expected : Pte → Status × Option (ℤ × ℕ)
expected e =
    if e.incore
    then (Status.ok, some (pos e.frame, (if e.read then 1 else 0) + (if e.write then 2 else 0)))
    else nothing

pte_protection-bits :
    (e : Pte) {p : ℕ}
    → pte_protection e ≡ some p
    → p ≡ (if e.read then 1 else 0) + (if e.write then 2 else 0)
unfolding pte_protection
pte_protection-bits e h = elim (Bool-cases e.read) [
  | inl r ↦ elim (Bool-cases e.write) [
    | inl w ↦ rw (r, w) (sym (some_inj (rw (r, w) at h)))
    | inr w ↦ rw (r, w) (sym (some_inj (rw (r, w) at h)))
  ]
  | inr r ↦ elim (Bool-cases e.write) [
    | inl w ↦ none≢some (rw (r, w) at h)
    | inr w ↦ rw (r, w) (sym (some_inj (rw (r, w) at h)))
  ]
]

module _ (vm : Vm) (table : ℕ → Pte) where
  -- How the second loop ends: every page from i on answers what its entry says; or an entry was
  -- refused, in a sound state.
  data Filling (n i : ℕ) (m : Mmu vm) (out : Outcome vm) : Type 0 where
    filled :
        (m' : Mmu vm)
        → out ≡ done (Status.ok, m')
        → Kept vm m m' i
        → ((j : ℕ) → i ≤ j → j < i + n → answer vm m' j ≡ expected (table j))
        → Filling n i m out
    stopped :
        (s : Status) (m' : Mmu vm)
        → s ≢ Status.ok
        → out ≡ done (s, m')
        → Sound vm m'
        → Filling n i m out

  -- One page filled in front of the rest.
  Filling-suc :
      (n i : ℕ) (m m1 : Mmu vm) (out : Outcome vm)
      → m1.num_pages ≡ m.num_pages
      → answer vm m1 i ≡ expected (table i)
      → ((j : ℕ) → i ≢ j → answer vm m1 j ≡ answer vm m j)
      → Filling n (suc i) m1 out
      → Filling (suc n) i m out
  Filling-suc n i m m1 out ep here others (stopped s m' ne e sound) = stopped s m' ne e sound
  Filling-suc n i m m1 out ep here others (filled m' e k all) =
      filled m' e
        (record {
          sound = k.sound;
          pages = k.pages ∙ ep;
          before = λ j lt. k.before j (omega arith) ∙ others j (omega arith);
        })
        (λ j lo hi. elim (ℕ_discrete i j) [
          | yes q ↦ rw (← q) (k.before i (omega arith) ∙ here)
          | no ne ↦ all j (omega arith) (omega arith)
        ])

  refused-stops :
      (m : Mmu vm) (tag page frame : ℤ) (protection : ℕ) (rest : Mmu vm → Outcome vm) {st : Status}
      → MapError vm m tag page frame protection st
      → unless_failed vm rest st m ≡ done (st, m)
  refused-stops m tag page frame protection rest (MapError.bad_page _) = refl
  refused-stops m tag page frame protection rest (MapError.bad_frame _) = refl
  refused-stops m tag page frame protection rest (MapError.no_room _) = refl
  refused-stops m tag page frame protection rest (MapError.bad_prot _) = refl
  refused-stops m tag page frame protection rest (MapError.bad_tag _) = refl
  refused-stops m tag page frame protection rest (MapError.remap _ _ _ _ _) = refl

  -- An entry in core, in front of a rest that fills the pages behind it.
  map_entry-fills :
      (n i : ℕ) (m : Mmu vm) (rest : Mmu vm → Outcome vm) (o : Option ℕ)
      → Sound vm m
      → i + suc n ≤ m.num_pages
      → (table i).incore ≡ true
      → pte_protection (table i) ≡ o
      → ((j : ℕ) → i ≤ j → j < i + suc n → answer vm m j ≡ nothing)
      → ((m1 : Mmu vm)
          → Sound vm m1
          → suc i + n ≤ m1.num_pages
          → ((j : ℕ) → suc i ≤ j → j < suc i + n → answer vm m1 j ≡ nothing)
          → Filling n (suc i) m1 (rest m1))
      → Filling
          (suc n)
          i
          m
          (map_entry vm m i (table i).frame o >>= λ r. unless_failed vm rest r.0 r.1)
  unfolding map_entry
  map_entry-fills n i m rest none s le in_core q free ih =
      stopped Status.err_prot m (λ e. cc) refl s
  map_entry-fills n i m rest (some p) s le in_core q free ih =
      elim (map_page-MapEnd vm m (pos 0) (pos i) (pos (table i).frame) p s) [
        | MapEnd.refused st why r ↦
            stopped st m (MapError-ne_ok vm m (pos 0) (pos i) (pos (table i).frame) p why)
              (rw r (refused-stops m (pos 0) (pos i) (pos (table i).frame) p rest why)) s
        | MapEnd.entered t k f et ek ef ht hk hf hp fr room r s' ↦
            let m1 = enter_page vm m (pos t) k f p in
            let c = enter_page-Changed vm m t k f p s.inv ht hk in
            let same : m1.num_pages ≡ m.num_pages = unfold enter_page in refl in
            let here : answer vm m1 i ≡ (Status.ok, some (pos f, p)) = rw (et, pos_inj ek) c.here in
            let others : (j : ℕ) → i ≢ j → answer vm m1 j ≡ answer vm m j =
              (λ j ne. rw et (c.others t j (inr (rw (pos_inj ek) at ne)))) in
            Filling-suc n i m m1 _ same
              (here ∙ rw (in_core, ef, pte_protection-bits (table i) q) refl) others
              (rw r (
                ih m1 s' (omega (arith, same))
                  (λ j lo hi. others j (omega arith) ∙ free j (omega arith) (omega arith))))
      ]

  map_all-fills :
      (n i : ℕ) (m : Mmu vm)
      → Sound vm m
      → i + n ≤ m.num_pages
      → ((j : ℕ) → i ≤ j → j < i + n → answer vm m j ≡ nothing)
      → Filling n i m (map_all vm table n i m)
  unfolding map_all
  map_all-fills zero i m s le free =
      filled m refl (record { sound = s; pages = refl; before = λ j lt. refl })
        (λ j lo hi. absurd (omega arith))
  map_all-fills (suc n) i m s le free =
      if_ind (Filling (suc n) i m) (table i).incore
        (λ in_core.
          map_entry-fills n i m (map_all vm table n (suc i)) (pte_protection (table i)) s le in_core
            refl free (map_all-fills n (suc i)))
        (λ out.
          Filling-suc n i m m _ refl (free i (omega arith) (omega arith) ∙ rw out) (λ j ne. refl)
            (map_all-fills n (suc i) m s (omega arith)
              (λ j lo hi. free j (omega arith) (omega arith))))

  table-Sound :
      (m : Mmu vm) (pointer : ℕ) → Sound vm m → Sound vm (record m { page_table = pointer })
  table-Sound m pointer s = record {
    inv = record {
      now = s.inv.now;
      now_in = s.inv.now_in;
      tag_now = s.inv.tag_now;
      grid = s.inv.grid;
      frames_full = s.inv.frames_full;
      counted = s.inv.counted;
      room = s.inv.room;
      entries = s.inv.entries;
      idle = s.inv.idle;
      view = s.inv.view;
    };
    tracks = record { bits = s.tracks.bits; recorded = s.tracks.recorded };
  }

  -- How `USLOSS_MmuSetPageTable` ends.
  pub data TableEnd (m : Mmu vm) (pointer : ℕ) (out : Outcome vm) : Type 0 where
    installed :
        (m' : Mmu vm)
        → out ≡ done (Status.ok, m')
        → Sound vm m'
        → ((j : ℕ)
            → j < m.num_pages
            → answer vm m' j ≡ (if pointer == 0 then nothing else expected (table j)))
        → TableEnd m pointer out
    stopped :
        (s : Status) (m' : Mmu vm)
        → s ≢ Status.ok
        → (pointer == 0) ≡ false
        → out ≡ done (s, m')
        → Sound vm m'
        → TableEnd m pointer out

  -- From a sound state, `USLOSS_MmuSetPageTable` fails no assertion and ends in a sound state. If
  -- it returns USLOSS_MMU_OK then, for every page, tag 0 has the frame and the protection of its
  -- entry in the table mapped if the entry is in core, and nothing otherwise; nothing at all for
  -- NULL, which always succeeds.
  pub set_page_table-TableEnd :
      (m : Mmu vm) (pointer : ℕ)
      → Sound vm m
      → TableEnd m pointer (set_page_table vm m pointer table)
  unfolding set_page_table
  set_page_table-TableEnd m pointer s =
      let m0 = record m { page_table = pointer } in
      let (m1, e, k, free) =
        unmap_all-frees vm m.num_pages 0 m0 (table-Sound m pointer s) (omega arith) in
      rw e (
        if_ind (TableEnd m pointer) (pointer == 0)
          (λ null. installed m1 refl k.sound (λ j h. rw null (free j (omega arith) (omega arith))))
          (λ some_table.
            elim (map_all-fills m.num_pages 0 m1 k.sound (omega (arith, k.pages))
              (λ j lo hi. free j (omega arith) (omega arith))) [
                | Filling.stopped st m2 ne e2 sound ↦ stopped st m2 ne some_table e2 sound
                | Filling.filled m2 e2 k2 all ↦
                    installed m2 e2 k2.sound
                      (λ j h. rw some_table (all j (omega arith) (omega arith)))
              ]))
