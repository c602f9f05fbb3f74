-- ===== src/Devices/Term/Input.antt =====
-- What an operating system receives from a terminal of src/dev_term.c if it reads the status once
-- in every four ticks of the clock.
use usloss.Base.{
  ℕ, zero, Bool, suc, ◌%◌, ◌<◌, ◌≡◌, refl, ◌∙◌, ap, true, false, Option, none, some, List, [], ◌∷◌,
  ◌++◌, set, length, length-set, get_or-set_self, ◌==◌, pos, map, arith, if◌then◌else◌,
  index-not_out, Bool-cases, inl, inr,
}
use usloss.Devices.Codes.{ok}
use usloss.Devices.Term.{
  Terminal, stat_char, stat_recv, set_recv_status, poll, term_at, term_get_status, no_terminal,
}
use usloss.Devices.Term.Laws.{poll-Polled}
use usloss.Devices.Term.Output.{polls, polls_at}

-- The character that a status has, if one was received.
abbrev pub received : Option ℕ → List ℕ
received none = []
received (some status) = if stat_recv status == 1 then stat_char status ∷ [] else []

-- A number of rounds of four ticks and a call of `term_get_status`: the characters received.
pub receive_all : ℕ → ℕ → ℕ → List Terminal → List ℕ
receive_all unit zero last terms = []
receive_all unit (suc n) last terms =
    let s = polls 4 last terms in
    let a = term_get_status (pos unit) s.1 in received a.1 ++ receive_all unit n s.0 a.2

-- What gets through of the characters of a file: '@' is a pause.
unfoldable pub passes : List ℕ → List ℕ
passes [] = []
passes (c ∷ cs) = let rest = passes cs in if c % 256 == 64 then rest else (c % 256) ∷ rest

status_of-term_get_status :
    (unit : ℕ) (terms : List Terminal)
    → unit < 4
    → term_get_status (pos unit) terms ≡ (
      ok,
      some (term_at terms unit).status,
      set terms unit
          (record (term_at terms unit) { status = set_recv_status (term_at terms unit).status 0 }),
    )
unfolding term_get_status
status_of-term_get_status unit terms h = rw (index-not_out unit 4 h) refl

-- What one poll lets the operating system read.
received-poll :
    (t : Terminal) (c : ℕ) (rest : List (Option ℕ))
    → t.input ≡ some c ∷ rest
    → received (some (poll t).1.status) ≡ (if c % 256 == 64 then [] else (c % 256) ∷ [])
received-poll t c rest e =
    let p = poll-Polled t (some c) rest e in
    elim (Bool-cases (c % 256 == 64)) [
      | inl at ↦ rw (p.recv, at) refl
      | inr other ↦ rw (p.recv, p.char, other) refl
    ]

one_more :
    (b : Bool) (x : ℕ) {r p : List ℕ}
    → r ≡ p
    → (if b then [] else x ∷ []) ++ r ≡ (if b then p else x ∷ p)
one_more true x e = e
one_more false x e = ap (λ y. x ∷ y) e

-- What is in the input file comes through, one character in every four ticks.
pub receive_all-passes :
    (unit last : ℕ) (cs : List ℕ) (terms : List Terminal)
    → length terms ≡ 4
    → unit < 4
    → (term_at terms unit).input ≡ map some cs
    → receive_all unit (length cs) last terms ≡ passes cs
unfolding receive_all passes
receive_all-passes unit last [] terms h hu e = refl
receive_all-passes unit last (c ∷ cs) terms h hu e =
    let s = polls 4 last terms in
    let t = term_at terms unit in
    let (l, polled) = polls_at last unit terms h hu in
    let p = poll-Polled t (some c) (map some cs) e in
    let terms' =
      set s.1 unit
        (record (term_at s.1 unit) { status = set_recv_status (term_at s.1 unit).status 0 }) in
    let here : term_at terms' unit
        ≡ record (term_at s.1 unit) { status = set_recv_status (term_at s.1 unit).status 0 } =
      get_or-set_self s.1 unit _ no_terminal (omega arith) in
    let ih =
      receive_all-passes unit s.0 cs terms' (length-set s.1 unit _ ∙ l) hu
        (ap (λ (x : Terminal). x.input) here ∙ ap (λ (x : Terminal). x.input) polled ∙ p.input) in
    let first : received (some (term_at s.1 unit).status)
        ≡ (if c % 256 == 64 then [] else (c % 256) ∷ []) =
      ap (λ (x : Terminal). received (some x.status)) polled ∙ received-poll t c (map some cs) e in
    rw (status_of-term_get_status unit s.1 hu) (
      ap (λ (x : List ℕ). x ++ receive_all unit (length cs) s.0 terms') first
      ∙ one_more (c % 256 == 64) (c % 256) ih)
