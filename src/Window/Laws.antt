-- ===== src/Window/Laws.antt =====
-- What goes through the terminal window of pterm/pterm.c, in both directions.
use usloss.Base.{
  ℕ, ◌≡◌, refl, ap, Bool, false, ◌&&◌, Bool-cases, inl, inr, Option, none, some, List, [], ◌∷◌,
  ◌==◌, arith, if◌then◌else◌,
}
use usloss.Window.{carriage_return, line_feed, echo_out}

-- What was read, without the reads that gave nothing.
pub gained : List (Option ℕ) → List ℕ
gained [] = []
gained (none ∷ reads) = gained reads
gained (some c ∷ reads) = c ∷ gained reads

abbrev starts_line_feed : List ℕ → Bool
starts_line_feed [] = false
starts_line_feed (c ∷ _) = c == line_feed

-- A text without each '\r' that stands directly before a '\n'.
pub strip : List ℕ → List ℕ
strip [] = []
strip (c ∷ rest) =
    let s = strip rest in if (c == carriage_return) && starts_line_feed rest then s else c ∷ s

echo_out-starts : (reads : List (Option ℕ)) → starts_line_feed (echo_out reads) ≡ false
unfolding echo_out
echo_out-starts [] = refl
echo_out-starts (none ∷ reads) = echo_out-starts reads
echo_out-starts (some c ∷ reads) = elim (Bool-cases (c == line_feed)) [
  | inl t ↦ rw t refl
  | inr t ↦ rw t t
]

-- To the window: what it shows, without each '\r' directly before a '\n', is what was read from the
-- output file, at whatever times there was nothing to read.
pub strip-echo_out : (reads : List (Option ℕ)) → strip (echo_out reads) ≡ gained reads
unfolding echo_out strip gained
strip-echo_out [] = refl
strip-echo_out (none ∷ reads) = strip-echo_out reads
strip-echo_out (some c ∷ reads) = elim (Bool-cases (c == line_feed)) [
  | inl t ↦
      let other : (c == carriage_return) ≡ false = ground arith in
      rw (t, other, t) (ap (λ x. c ∷ x) (strip-echo_out reads))
  | inr t ↦ elim (Bool-cases (c == carriage_return)) [
    | inl cr ↦ rw (t, cr, echo_out-starts reads) (ap (λ x. c ∷ x) (strip-echo_out reads))
    | inr other ↦ rw (t, other) (ap (λ x. c ∷ x) (strip-echo_out reads))
  ]
]
