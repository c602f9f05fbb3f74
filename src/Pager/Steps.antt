-- ===== src/Pager/Steps.antt =====
-- The faults of one access to a page of src/mmu.c, one by one.
use usloss.Base.{
  ℕ, zero, suc, ◌+◌, ◌*◌, ◌%◌, ◌<◌, ◌≡◌, ◌⊎◌, refl, sym, ◌∙◌, inl, inr, true, false, Bool-cases,
  some, Option, pos, sub_ℕ, arith, done, fault, Fault, ◌>>=◌, none≢some,
}
use usloss.Psr.{Cpu, psr_magic, is_valid, enter_handler, leave_handler}
use usloss.Traps.Served.{entered}
use usloss.Mmu.Types.{Vm, prot_read, prot_rw, page_addr}
use usloss.Mmu.Pages.{Mmu, write_real_prot}
use usloss.Mmu.Access.{Verdict, ref_bit, dirty_bit, mmu_handler}
use usloss.Mmu.Inv.{Inv}
use usloss.Mmu.Track.{Tracks}
use usloss.Mmu.Faults.{raised, Served, mmu_handler-Served}
use usloss.Mmu.Api.{usloss_mmu_handler}
use usloss.Mmu.Addresses.{page_index-places}
use usloss.Mmu.Cpu.{Kind, lets, Seen, attempt, attempt_granted, attempt_interrupted, attempt_again}
use usloss.Pager.{FaultHandler, Process, interrupt_os, page_fault, access}

entered_valid : (w : ℕ) → is_valid (psr_magic + w % 4 * 4 + 1) ≡ true
entered_valid w = ground arith

module _ (vm : Vm) (Os : Type 0) where
  -- The address of an offset in page i.
  abbrev pub addr_in : Mmu vm → ℕ → ℕ → ℕ
  addr_in m i off = m.region + (i * m.page_size + off)

  handler_at :
      (m : Mmu vm) (i off : ℕ)
      → off < m.page_size
      → usloss_mmu_handler vm (some m) (addr_in m i off)
        ≡ (mmu_handler vm m (pos i) >>= λ r. done (r.0, some r.1))
  unfolding usloss_mmu_handler
  handler_at m i off h = rw ((page_index-places m.region m.page_size).0 i off h) refl

  -- A fault after which the access is made again at once.
  page_fault_resumed :
      (h : Option (FaultHandler vm Os)) (m m' : Mmu vm) (i off : ℕ) (c : Cpu) (os : Os)
      → is_valid c.psr ≡ true
      → off < m.page_size
      → mmu_handler vm m (pos i) ≡ done (Verdict.resume, m')
      → page_fault vm Os h (addr_in m i off) (c, some m, os)
        ≡ done (Verdict.resume, (c, some m', os))
  unfolding page_fault enter_handler leave_handler interrupt_os
  page_fault_resumed h m m' i off c os v lt e =
      rw (v, handler_at m i off lt, e, entered_valid c.psr) refl

  -- A fault that the operating system's handler serves.
  pub page_fault_served :
      (f : FaultHandler vm Os) (m m' m'' : Mmu vm) (i off : ℕ) (c c' : Cpu) (os os' : Os)
      → is_valid c.psr ≡ true
      → off < m.page_size
      → mmu_handler vm m (pos i) ≡ done (Verdict.interrupt, m')
      → f (sub_ℕ (addr_in m i off) m'.region) (entered c, some m', os) ≡ done (c', some m'', os')
      → page_fault vm Os (some f) (addr_in m i off) (c, some m, os)
        ≡ done (Verdict.interrupt, (c, some m'', os'))
  unfolding page_fault enter_handler leave_handler interrupt_os
  page_fault_served f m m' m'' i off c c' os os' v lt e r =
      rw (v, handler_at m i off lt, e, r, entered_valid c.psr) refl

  access_granted :
      (n : ℕ) (h : Option (FaultHandler vm Os)) (m : Mmu vm) (i off : ℕ) (kind : Kind) (c : Cpu)
      (os : Os)
      → lets (vm.at m.view (page_addr i)).prot kind ≡ true
      → access vm Os (suc n) h i off kind (c, some m, os) ≡ some (Seen.granted, (c, some m, os))
  unfolding access
  access_granted n h m i off kind c os e = rw e refl

  pub access_again :
      (n : ℕ) (h : Option (FaultHandler vm Os)) (m : Mmu vm) (i off : ℕ) (kind : Kind) (c : Cpu)
      (os : Os) (s : Process vm Os)
      → lets (vm.at m.view (page_addr i)).prot kind ≡ false
      → (page_fault vm Os h (addr_in m i off) (c, some m, os) ≡ done (Verdict.resume, s))
        ⊎ (page_fault vm Os h (addr_in m i off) (c, some m, os) ≡ done (Verdict.interrupt, s))
      → access vm Os (suc n) h i off kind (c, some m, os) ≡ access vm Os n h i off kind s
  unfolding access
  access_again n h m i off kind c os s e (inl r) = rw (e, r) refl
  access_again n h m i off kind c os s e (inr r) = rw (e, r) refl

  attempt_stuck :
      (n : ℕ) (m : Mmu vm) (i : ℕ) (kind : Kind) {w : Fault}
      → lets (vm.at m.view (page_addr i)).prot kind ≡ false
      → mmu_handler vm m (pos i) ≡ fault w
      → attempt vm (suc n) m i kind ≡ some (Seen.crashed, m)
  unfolding attempt
  attempt_stuck n m i kind e r = rw (e, r) refl

  granted_inj :
      {m m' : Mmu vm}
      → ◌≡◌ {A = Option (Seen × Mmu vm)} (some (Seen.granted, m)) (some (Seen.granted, m'))
      → m ≡ m'
  granted_inj e = cc

  interrupted≢granted {κ} :
      {C : Type κ} {m m' : Mmu vm}
      → ◌≡◌ {A = Option (Seen × Mmu vm)} (some (Seen.interrupted, m)) (some (Seen.granted, m'))
      → C
  interrupted≢granted e = absurd (cc)

  crashed≢granted {κ} :
      {C : Type κ} {m m' : Mmu vm}
      → ◌≡◌ {A = Option (Seen × Mmu vm)} (some (Seen.crashed, m)) (some (Seen.granted, m'))
      → C
  crashed≢granted e = absurd (cc)

  -- An access that goes through with no help of the operating system leaves its state and the
  -- registers as they are.
  pub attempt-access :
      (n : ℕ) (h : Option (FaultHandler vm Os)) (m m' : Mmu vm) (i off : ℕ) (kind : Kind) (c : Cpu)
      (os : Os)
      → is_valid c.psr ≡ true
      → Inv vm m
      → Tracks vm m
      → i < m.num_pages
      → off < m.page_size
      → attempt vm n m i kind ≡ some (Seen.granted, m')
      → access vm Os n h i off kind (c, some m, os) ≡ some (Seen.granted, (c, some m', os))
  unfolding attempt
  attempt-access zero h m m' i off kind c os v inv tr hi lt e = none≢some e
  attempt-access (suc n) h m m' i off kind c os v inv tr hi lt e =
      elim (Bool-cases (lets (vm.at m.view (page_addr i)).prot kind)) [
        | inl t ↦
            let same : m ≡ m' = granted_inj (sym (attempt_granted vm n m i kind t) ∙ e) in
            rw (← same) (access_granted n h m i off kind c os t)
        | inr t ↦ elim (mmu_handler-Served vm m i inv tr hi) [
          | Served.not_mapped _ r ↦
              interrupted≢granted (sym (attempt_interrupted vm n m i kind t r) ∙ e)
          | Served.violated _ _ r ↦
              interrupted≢granted (sym (attempt_interrupted vm n m i kind t r) ∙ e)
          | Served.referenced f ef ea r z ↦
              let rest =
                attempt-access n h (raised vm m i f prot_read ref_bit) m' i off kind c os v z.inv
                  z.tracks (omega (arith, z.pages, hi)) (unfold raised write_real_prot in lt)
                  (sym (attempt_again vm n m i kind t r) ∙ e) in
              access_again n h m i off kind c os _ t
                (inl (page_fault_resumed h m _ i off c os v lt r))
              ∙ rest
          | Served.dirtied f ef ea r z ↦
              let rest =
                attempt-access n h (raised vm m i f prot_rw dirty_bit) m' i off kind c os v z.inv
                  z.tracks (omega (arith, z.pages, hi)) (unfold raised write_real_prot in lt)
                  (sym (attempt_again vm n m i kind t r) ∙ e) in
              access_again n h m i off kind c os _ t
                (inl (page_fault_resumed h m _ i off c os v lt r))
              ∙ rest
          | Served.stuck _ _ r ↦ crashed≢granted (sym (attempt_stuck n m i kind t r) ∙ e)
        ]
      ]
