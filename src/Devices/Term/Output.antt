-- ===== src/Devices/Term/Output.antt =====
-- What src/dev_term.c writes when an operating system sends characters to a terminal, one in every
-- four ticks of the clock, in which each of the four terminals is polled once.
use usloss.Base.{
  ℕ, zero, suc, ◌+◌, ◌*◌, ◌/◌, ◌%◌, ◌<◌, ◌≡◌, refl, ◌∙◌, ap, Option, none, some, List, [], ◌∷◌, set,
  length, pos, arith,
}
use usloss.Devices.Codes.{Code}
use usloss.Devices.Term.{Terminal, set_xmit_status, poll, term_at, term_request, term_action}

-- Four calls of `term_action`.
pub polls : ℕ → ℕ → List Terminal → ℕ × List Terminal
polls zero last terms = (last, terms)
polls (suc n) last terms = let r = term_action last terms in polls n r.1 r.2

-- The characters go to the terminal one by one, each in a control word with `flags` in its low
-- byte, and after each come four ticks. There is no result if a request is refused.
pub send_all : ℕ → ℕ → List ℕ → ℕ → List Terminal → Option (List Terminal)
send_all unit flags [] last terms = some terms
send_all unit flags (c ∷ cs) last terms =
    let r = term_request (pos unit) (c * 256 + flags) terms in
    let s = polls 4 last r.1 in
    let rest = send_all unit flags cs s.0 s.1 in elim r.0 [ Code.ready ↦ rest | _ ↦ none ]

-- What is written then, on top of what was: the low byte of each character.
unfoldable pub sent_bytes : List ℕ → List ℕ → List ℕ
sent_bytes [] out = out
sent_bytes (c ∷ cs) out = sent_bytes cs (c % 256 ∷ out)

below_four :
    {A : Type 0} (n : ℕ) → n < 4 → (n ≡ 0 → A) → (n ≡ 1 → A) → (n ≡ 2 → A) → (n ≡ 3 → A) → A
below_four zero h a b c d = a refl
below_four (suc zero) h a b c d = b refl
below_four (suc (suc zero)) h a b c d = c refl
below_four (suc (suc (suc zero))) h a b c d = d refl
below_four (suc (suc (suc (suc n)))) h a b c d = absurd (omega arith)

abbrev four : Terminal → Terminal → Terminal → Terminal → List Terminal
four t0 t1 t2 t3 = t0 ∷ t1 ∷ t2 ∷ t3 ∷ []

-- Whichever terminal is next, four ticks poll each terminal once.
polls-four :
    (last : ℕ) (t0 t1 t2 t3 : Terminal)
    → (polls 4 last (four t0 t1 t2 t3)).1 ≡ four (poll t0).1 (poll t1).1 (poll t2).1 (poll t3).1
unfolding polls term_action
polls-four last t0 t1 t2 t3 =
    below_four (last % 4) (omega arith) (λ e. rw e refl) (λ e. rw e refl) (λ e. rw e refl)
      (λ e. rw e refl)

four_of :
    (terms : List Terminal)
    → length terms ≡ 4
    → (t0 : Terminal) × (t1 : Terminal) × (t2 : Terminal) × (t3 : Terminal) × (terms
        ≡ four t0 t1 t2 t3)
four_of [] h = absurd (omega arith)
four_of (a ∷ []) h = absurd (omega arith)
four_of (a ∷ b ∷ []) h = absurd (omega arith)
four_of (a ∷ b ∷ c ∷ []) h = absurd (omega arith)
four_of (a ∷ b ∷ c ∷ d ∷ []) h = (a, b, c, d, refl)
four_of (a ∷ b ∷ c ∷ d ∷ e ∷ rest) h = absurd (omega arith)

pub polls_at :
    (last v : ℕ) (terms : List Terminal)
    → length terms ≡ 4
    → v < 4
    → (length (polls 4 last terms).1 ≡ 4)
      × (term_at (polls 4 last terms).1 v ≡ (poll (term_at terms v)).1)
polls_at last v terms h hv =
    let (t0, t1, t2, t3, e) = four_of terms h in
    let at : (polls 4 last terms).1 ≡ four (poll t0).1 (poll t1).1 (poll t2).1 (poll t3).1 =
      ap (λ x. (polls 4 last x).1) e ∙ polls-four last t0 t1 t2 t3 in
    (
      ap length at,
      below_four v hv (λ k. rw (at, e, k) refl) (λ k. rw (at, e, k) refl) (λ k. rw (at, e, k) refl)
          (λ k. rw (at, e, k) refl),
    )

-- A terminal after a request that sends a character.
abbrev taken : ℕ → Terminal → Terminal
taken req t = record t {
  control = req;
  output = (req / 256 % 256) ∷ t.output;
  status = set_xmit_status t.status 1;
}

-- One character: what the terminal it goes to and another one are, four ticks later.
abbrev after : ℕ → ℕ → ℕ → List Terminal → List Terminal
after unit req last terms = (polls 4 last (set terms unit (taken req (term_at terms unit)))).1

-- The rest of a run of `send_all` after an answer.
abbrev sent : ℕ → ℕ → List ℕ → Code → ℕ × List Terminal → Option (List Terminal)
sent unit flags cs code s =
    let rest = send_all unit flags cs s.0 s.1 in elim code [ Code.ready ↦ rest | _ ↦ none ]
