-- ===== src/Devices/Term.antt =====
-- src/dev_term.c: four terminals, each with a status and a control register. The bit operations on
-- the registers are written with / and % by powers of two.
pub mod Laws
pub mod Output
pub mod Input
pub mod Stream
use usloss.Base.{
  ℕ, ◌+◌, ◌-◌, ◌*◌, ◌/◌, ◌%◌, Bool, true, false, not, ◌&&◌, Option, none, some, List, [], ◌∷◌, ◌++◌,
  get_or, set, replicate, leb, ◌==◌, if◌then◌else◌, ℤ, pos, negsuc, minus_one, out_of_range, index,
}
use usloss.Devices.Codes.{Code, ok, invalid, code_value}

-- USLOSS_TERM_STAT_CHAR, USLOSS_TERM_STAT_XMIT and USLOSS_TERM_STAT_RECV.
abbrev pub stat_char : ℕ → ℕ
stat_char status = status / 256 % 256

abbrev pub stat_xmit : ℕ → ℕ
stat_xmit status = status / 4 % 4

abbrev pub stat_recv : ℕ → ℕ
stat_recv status = status % 4

-- SET_XMIT_STATUS, SET_RECV_STATUS and SET_CHAR: the field is cleared, and the new value added.
unfoldable pub set_xmit_status : ℕ → ℕ → ℕ
set_xmit_status status value = status - status / 4 % 4 * 4 + value % 4 * 4

unfoldable pub set_recv_status : ℕ → ℕ → ℕ
set_recv_status status value = status - status % 4 + value % 4

unfoldable pub set_char : ℕ → ℕ → ℕ
set_char status ch = status - status / 256 % 256 * 256 + ch % 256 * 256

-- The control register: send a character, enable the receive interrupt, the transmit interrupt.
abbrev pub send_char : ℕ → Bool
send_char control = control % 2 == 1

abbrev pub recv_int : ℕ → Bool
recv_int control = control / 2 % 2 == 1

abbrev pub xmit_int : ℕ → Bool
xmit_int control = control / 4 % 2 == 1

-- `TermInfo`: the input is what the calls of `nextchr` will give, nothing standing for EOF; the
-- output is the characters written, the last one first.
pub record Terminal : Type 0 where
  pub input : List (Option ℕ)
  pub output : List ℕ
  pub status : ℕ
  pub control : ℕ

-- The first loop of `term_init`, on a terminal with its files.
unfoldable pub term_open : List (Option ℕ) → Terminal
term_open input = record { input = input; output = []; status = 0; control = 0 }

-- `term_init`, for what the input files of the terminals hold.
unfoldable pub term_init : (ℕ → List (Option ℕ)) → List Terminal
term_init inputs =
    term_open (inputs 0) ∷ term_open (inputs 1) ∷ term_open (inputs 2) ∷ term_open (inputs 3) ∷ []

abbrev pub no_terminal : Terminal
no_terminal = record { input = []; output = []; status = 0; control = 0 }

abbrev pub term_at : List Terminal → ℕ → Terminal
term_at terms unit = get_or terms unit no_terminal

-- USLOSS_TERM_UNITS
abbrev pub term_units : ℕ
term_units = 4

-- `nextchr`: the character and the rest of the input. Behind the end of the list it is EOF.
unfoldable pub next_chr : List (Option ℕ) → Option ℕ × List (Option ℕ)
next_chr [] = (none, [])
next_chr (c ∷ rest) = (c, rest)

-- `term_get_status`: the return code, what goes through `statusPtr`, and the terminals.
unfoldable pub term_get_status : ℤ → List Terminal → Code × Option ℕ × List Terminal
term_get_status unit terms =
    let t = term_at terms (index unit) in
    if out_of_range unit term_units then (invalid, none, terms) else (
      ok,
      some t.status,
      set terms (index unit)
          (record t { status = set_recv_status t.status (code_value Code.ready) }),
    )

-- `term_request` on one terminal.
unfoldable pub write_control : ℕ → Terminal → Code × Terminal
write_control req t =
    let t' = record t { control = req } in
    if not (send_char req)
    then (ok, t')
    else if stat_xmit t.status == code_value Code.ready
    then (
      ok,
      record t' {
        output = (req / 256 % 256) ∷ t.output;
        status = set_xmit_status t.status (code_value Code.busy);
      },
    )
    else if stat_xmit t.status == code_value Code.busy
    then (Code.busy, t')
    else (ok, t')

-- `term_request`
unfoldable pub term_request : ℤ → ℕ → List Terminal → Code × List Terminal
term_request unit req terms =
    let r = write_control req (term_at terms (index unit)) in
    if out_of_range unit term_units then (invalid, terms) else (r.0, set terms (index unit) r.1)

-- Whether a result of `nextchr` is a character and not '@', which pauses the input.
abbrev pub is_input : Option ℕ → Bool
is_input none = false
is_input (some c) = not (c % 256 == 64)

abbrev pub char_of : Option ℕ → ℕ
char_of none = 0
char_of (some c) = c

-- The receive half of `term_action`: the terminal, and whether it interrupts.
unfoldable pub receive : Terminal → Bool × Terminal
receive t =
    let (c, rest) = next_chr t.input in
    let t' = record t { input = rest } in
    if is_input c
    then (
      recv_int t.control,
      record t' { status = set_recv_status (set_char t.status (char_of c)) (code_value Code.busy) },
    )
    else (false, record t' { status = set_recv_status t.status (code_value Code.ready) })

-- The transmit half.
unfoldable pub transmitted : Terminal → Bool × Terminal
transmitted t =
    if stat_xmit t.status == code_value Code.busy
    then (
      xmit_int t.control,
      record t { status = set_xmit_status t.status (code_value Code.ready) },
    )
    else (false, t)

abbrev pub either : Bool → Bool → Bool
either true b = true
either false b = b

-- `term_action` on the terminal that is polled: whether it interrupts.
unfoldable pub poll : Terminal → Bool × Terminal
poll t = let r = receive t in let s = transmitted r.1 in (either r.0 s.0, s.1)

-- `term_action`: the terminals are polled in turn. `last` is the static `unit` plus one, so 0 at
-- first. The result is the unit, or -1 for no interrupt.
unfoldable pub term_action : ℕ → List Terminal → ℤ × ℕ × List Terminal
term_action last terms =
    let unit = last % 4 in
    let r = poll (term_at terms unit) in
    ((if r.0 then pos unit else minus_one), unit + 1, set terms unit r.1)
