-- ===== src/Window.antt =====
-- The terminal window of pterm/pterm.c: `main` copies what is typed to the input file of a
-- terminal, and its child `echo_out` shows the output file. What the calls of `read` give is an
-- argument: nothing where `read` returns 0 at the end of a file. The modes of the window are calls
-- of the host.
pub mod Laws
use usloss.Base.{
  ℕ, Bool, true, false, not, Option, none, some, List, [], ◌∷◌, ◌++◌, ◌==◌, if◌then◌else◌,
}

-- '\r', '\n' and 'y'.
abbrev pub carriage_return : ℕ
carriage_return = 13

abbrev pub line_feed : ℕ
line_feed = 10

abbrev pub letter_y : ℕ
letter_y = 121

-- How `main` gets to its loop: the usage message, the file that is there is kept, or the loop.
pub data Begin : Type 0 where
  usage kept ready : Begin

-- The tests at the start of `main`: the number of arguments, whether the input file of the terminal
-- is there, and the answer to the question.
unfoldable pub begin : ℕ → Bool → ℕ → Begin
begin argc exists answer =
    if not (argc == 2)
    then Begin.usage
    else if exists
    then (if not (answer == letter_y) then Begin.kept else Begin.ready)
    else Begin.ready

-- The character that goes to the file.
abbrev pub newline : ℕ → ℕ
newline c = if c == carriage_return then line_feed else c

-- What a round of the loop of `main` writes to the window and to the file.
unfoldable pub type_char : ℕ → List ℕ × List ℕ
type_char c = ((if newline c == line_feed then carriage_return ∷ [] else []), newline c ∷ [])

-- The loop, for a number of calls of `read`; its result is not looked at, so that `c` keeps its
-- value where `read` gives nothing.
unfoldable pub type_all : List (Option ℕ) → ℕ → List ℕ × List ℕ
unfolding type_char
type_all [] c = ([], [])
type_all (none ∷ reads) c =
    let w = type_char c in let rest = type_all reads c in (w.0 ++ rest.0, w.1 ++ rest.1)
type_all (some k ∷ reads) c =
    let w = type_char k in let rest = type_all reads k in (w.0 ++ rest.0, w.1 ++ rest.1)

-- The loop of `echo_out`, for a number of calls of `read`: it reads again where there is nothing
-- yet.
unfoldable pub echo_out : List (Option ℕ) → List ℕ
echo_out [] = []
echo_out (none ∷ reads) = echo_out reads
echo_out (some c ∷ reads) =
    let rest = echo_out reads in if c == line_feed then carriage_return ∷ c ∷ rest else c ∷ rest
