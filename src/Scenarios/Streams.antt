-- ===== src/Scenarios/Streams.antt =====
-- A C library whose streams are lists, and a terminal's file that another program appends to.
use usloss.Base.{
  ℕ, ◌≡◌, refl, sym, ◌∙◌, ap, Option, none, some, List, [], ◌∷◌, ◌++◌, true, false, bool_clash,
  some_inj, none≢some,
}
use mathlib.Core.List.{append_assoc, append-nil}
use usloss.Devices.Term.Stream.{Read, got, nothing, Stdio, serve}

-- A stream that still reads, with its buffer and the rest of the file, or one that has met the end
-- of the file, whose `getc` gives EOF from then on.
data Tape : Type 0 where
  reading : List ℕ → List ℕ → Tape
  ended : List ℕ → Tape

abbrev tape_getc : Tape → Option ℕ × Tape
tape_getc (reading (c ∷ buffer) file) = (some c, reading buffer file)
tape_getc (reading [] []) = (none, ended [])
tape_getc (reading [] (c ∷ file)) = (some c, reading file [])
tape_getc (ended file) = (none, ended file)

abbrev tape_read : Tape → Read × Tape
tape_read (reading buffer []) = (nothing, reading buffer [])
tape_read (reading buffer (c ∷ file)) = (got c, reading buffer file)
tape_read (ended []) = (nothing, ended [])
tape_read (ended (c ∷ file)) = (got c, ended file)

abbrev tape_grow : List ℕ → Tape → Tape
tape_grow xs (reading buffer file) = reading buffer (file ++ xs)
tape_grow xs (ended file) = ended (file ++ xs)

abbrev tape_pending : Tape → List ℕ
tape_pending (reading buffer file) = buffer ++ file
tape_pending (ended file) = file

abbrev HasEnded : Tape → Type 0
HasEnded (reading buffer file) = true ≡ false
HasEnded (ended file) = Unit {0}

getc_some :
    (s : Tape) (c : ℕ)
    → (tape_getc s).0 ≡ some c
    → tape_pending s ≡ c ∷ tape_pending (tape_getc s).1
getc_some (reading (d ∷ buffer) file) c e = ap (λ x. x ∷ (buffer ++ file)) (some_inj e)
getc_some (reading [] []) c e = none≢some e
getc_some (reading [] (d ∷ file)) c e =
    ap (λ x. x ∷ file) (some_inj e) ∙ ap (λ l. c ∷ l) (sym (append-nil file))
getc_some (ended file) c e = none≢some e

getc_none :
    (s : Tape)
    → (tape_getc s).0 ≡ none
    → (tape_pending (tape_getc s).1 ≡ tape_pending s) × HasEnded (tape_getc s).1
getc_none (reading (d ∷ buffer) file) e = none≢some (sym e)
getc_none (reading [] []) e = (refl, tt)
getc_none (reading [] (d ∷ file)) e = none≢some (sym e)
getc_none (ended file) e = (refl, tt)

grow_pending : (xs : List ℕ) (s : Tape) → tape_pending (tape_grow xs s) ≡ tape_pending s ++ xs
grow_pending xs (reading buffer file) = sym (append_assoc buffer file xs)
grow_pending xs (ended file) = refl

grow_ended : (xs : List ℕ) (s : Tape) → HasEnded s → HasEnded (tape_grow xs s)
grow_ended xs (reading buffer file) e = e
grow_ended xs (ended file) e = tt

cons_parts :
    (c d : ℕ) (xs ys : List ℕ) → c ∷ xs ≡ d ∷ ys → (◌≡◌ {A = Read} (got c) (got d)) × (xs ≡ ys)
cons_parts c d xs ys e = (cc, cc)

read_got :
    (s : Tape) (c : ℕ) (rest : List ℕ)
    → HasEnded s
    → tape_pending s ≡ c ∷ rest
    → ((tape_read s).0 ≡ got c) × (tape_pending (tape_read s).1 ≡ rest)
read_got (reading buffer file) c rest h e = bool_clash refl h
read_got (ended []) c rest h e = absurd (cc)
read_got (ended (d ∷ file)) c rest h e = cons_parts d c file rest e

read_nothing :
    (s : Tape)
    → HasEnded s
    → tape_pending s ≡ []
    → ((tape_read s).0 ≡ nothing) × (tape_pending (tape_read s).1 ≡ [])
read_nothing (reading buffer file) h e = bool_clash refl h
read_nothing (ended []) h e = (refl, refl)
read_nothing (ended (d ∷ file)) h e = absurd (cc)

abbrev lists : Stdio
lists = record {
  Stream = Tape;
  getc = tape_getc;
  read = tape_read;
  grow = tape_grow;
  pending = tape_pending;
  Drained = HasEnded;
  getc-some = getc_some;
  getc-none = getc_none;
  grow-pending = grow_pending;
  grow-Drained = grow_ended;
  read-got = read_got;
  read-nothing = read_nothing;
}

-- Two bytes at first, then the end of the file, one byte that comes between `getc` and `read`, and
-- one before the last call.
abbrev rounds : List (List ℕ × List ℕ)
rounds = ([], []) ∷ ([], []) ∷ ([], []) ∷ ([], 99 ∷ []) ∷ (100 ∷ [], []) ∷ []

abbrev two_bytes : Tape
two_bytes = reading [] (97 ∷ 98 ∷ [])

served :
    (serve ([] ∷ [] ∷ [] ∷ (99 ∷ []) ∷ (100 ∷ []) ∷ []) (97 ∷ 98 ∷ [])).0
    ≡ some 97 ∷ some 98 ∷ none ∷ some 99 ∷ some 100 ∷ []
unfolding serve
served = refl
