-- ===== src/Devices/Term/Stream.antt =====
-- `nextchr` of src/dev_term.c: the characters of a file that another program appends to. `getc` and
-- `read` are the interface `Stdio`.
use usloss.Base.{ℕ, ◌≡◌, ◌<◌, Option, none, some, List, [], ◌∷◌, ◌++◌, ◌==◌, if◌then◌else◌}

-- What `read` of one byte does.
pub data Read : Type 0 where
  got : ℕ → Read
  nothing failed : Read

-- The calls on an input file: `grow` is what another program appends to it, `pending` what neither
-- `getc` nor `read` has given yet. When `getc` answers EOF, its buffer is empty (`Drained`), and
-- then `read` gives the next byte of the file.
pub record Stdio : Type 1 where
  pub Stream : Type 0
  pub getc : Stream → Option ℕ × Stream
  pub read : Stream → Read × Stream
  pub grow : List ℕ → Stream → Stream
  pub pending : Stream → List ℕ
  pub Drained : Stream → Type 0
  pub getc-some : (s : Stream) (c : ℕ) → (getc s).0 ≡ some c → pending s ≡ c ∷ pending (getc s).1
  pub getc-none :
      (s : Stream) → (getc s).0 ≡ none → (pending (getc s).1 ≡ pending s) × Drained (getc s).1
  pub grow-pending : (xs : List ℕ) (s : Stream) → pending (grow xs s) ≡ pending s ++ xs
  pub grow-Drained : (xs : List ℕ) (s : Stream) → Drained s → Drained (grow xs s)
  pub read-got :
      (s : Stream) (c : ℕ) (rest : List ℕ)
      → Drained s
      → pending s ≡ c ∷ rest
      → ((read s).0 ≡ got c) × (pending (read s).1 ≡ rest)
  pub read-nothing :
      (s : Stream) → Drained s → pending s ≡ [] → ((read s).0 ≡ nothing) × (pending (read s).1 ≡ [])

-- `ch`, a signed `char`, as an `int`: 255 is EOF.
unfoldable pub from_char : ℕ → Option ℕ
from_char ch = if ch == 255 then none else some ch

-- The end of `nextchr`; `junk` is what `ch` holds where `read` fails.
unfoldable pub from_read : ℕ → Read → Option ℕ
from_read junk (got ch) = from_char ch
from_read junk nothing = none
from_read junk failed = from_char junk

-- The first byte of a queue.
abbrev pub first_of : List ℕ → Option ℕ × List ℕ
first_of [] = (none, [])
first_of (c ∷ rest) = (some c, rest)

-- A queue of bytes, of which one is taken after each arrival.
unfoldable pub serve : List (List ℕ) → List ℕ → List (Option ℕ) × List ℕ
serve [] queue = ([], queue)
serve (new ∷ arrivals) queue =
    let t = first_of (queue ++ new) in let r = serve arrivals t.1 in (t.0 ∷ r.0, r.1)

-- Bytes that a signed `char` tells from EOF.
abbrev pub Plain : List ℕ → Type 0
Plain [] = Unit {0}
Plain (c ∷ cs) = (c < 255) × Plain cs

abbrev pub AllPlain : List (List ℕ) → Type 0
AllPlain [] = Unit {0}
AllPlain (cs ∷ rest) = Plain cs × AllPlain rest

module _ (stdio : Stdio) where
  open stdio use {Stream, getc, read, grow, pending, Drained}

  -- What follows `getc`: the other program may append to the file before the `read`.
  unfoldable pub after_getc : ℕ → List ℕ → Option ℕ → Stream → Option ℕ × Stream
  after_getc junk late (some c) s = (some c, grow late s)
  after_getc junk late none s = let r = read (grow late s) in (from_read junk r.0, r.1)

  -- `nextchr`
  unfoldable pub nextchr : ℕ → List ℕ → Stream → Option ℕ × Stream
  nextchr junk late s = after_getc junk late (getc s).0 (getc s).1

  -- Calls of `nextchr`, each after some bytes have been appended, the late ones during the call.
  unfoldable pub polls : ℕ → List (List ℕ × List ℕ) → Stream → List (Option ℕ) × Stream
  polls junk [] s = ([], s)
  polls junk ((early, late) ∷ rounds) s =
      let r = nextchr junk late (grow early s) in
      let rest = polls junk rounds r.1 in (r.0 ∷ rest.0, rest.1)

  abbrev pub arrivals : List (List ℕ × List ℕ) → List (List ℕ)
  arrivals [] = []
  arrivals ((early, late) ∷ rounds) = (early ++ late) ∷ arrivals rounds
