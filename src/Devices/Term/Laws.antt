-- ===== src/Devices/Term/Laws.antt =====
-- What the registers of a terminal say, and what `term_action` and `term_get_status` of
-- src/dev_term.c make of a character.
use mathlib.Core.Path.{subst}
use usloss.Base.{
  ℕ, ◌/◌, ◌%◌, ◌<◌, ◌≡◌, refl, sym, ◌∙◌, Bool, true, false, Option, List, ◌∷◌, ◌==◌, ◌&&◌, ◌||◌,
  if◌then◌else◌, Bool-cases, inl, inr, arith,
}
use usloss.Devices.Codes.{Code, ok}
use usloss.Devices.Term.{
  Terminal, stat_char, stat_xmit, stat_recv, set_xmit_status, set_recv_status, set_char, recv_int,
  xmit_int, send_char, is_input, char_of, next_chr, receive, transmitted, poll, write_control,
  either,
}

-- Each of the three macros sets its field and leaves the other two.
pub fields_apart :
    (s v c : ℕ)
    → v < 4
    → c < 256
    → ((stat_xmit (set_xmit_status s v) ≡ v)
        × (stat_recv (set_xmit_status s v) ≡ stat_recv s)
        × (stat_char (set_xmit_status s v) ≡ stat_char s))
      × ((stat_xmit (set_recv_status s v) ≡ stat_xmit s)
          × (stat_recv (set_recv_status s v) ≡ v)
          × (stat_char (set_recv_status s v) ≡ stat_char s))
      × ((stat_xmit (set_char s c) ≡ stat_xmit s)
          × (stat_recv (set_char s c) ≡ stat_recv s)
          × (stat_char (set_char s c) ≡ c))
unfolding set_xmit_status set_recv_status set_char
fields_apart s v c hv hc = (
  (omega arith, omega arith, omega arith),
  (omega arith, omega arith, omega arith),
  (omega arith, omega arith, omega arith),
)

-- What a poll of a terminal does, by an independent description: `c` is the result of `nextchr`.
pub record Polled (t : Terminal) (c : Option ℕ) (rest : List (Option ℕ)) (out : Bool × Terminal)
    : Type 0 where
  pub char : stat_char out.1.status ≡ (if is_input c then char_of c % 256 else stat_char t.status)
  pub recv : stat_recv out.1.status ≡ (if is_input c then 1 else 0)
  pub xmit : stat_xmit out.1.status ≡ (if stat_xmit t.status == 1 then 0 else stat_xmit t.status)
  pub interrupts :
      out.0
      ≡ ((is_input c && recv_int t.control) || ((stat_xmit t.status == 1) && xmit_int t.control))
  pub input : out.1.input ≡ rest
  pub output : out.1.output ≡ t.output
  pub control : out.1.control ≡ t.control

recv_char :
    (s c : ℕ)
    → (stat_char (set_recv_status (set_char s c) 1) ≡ c % 256)
      × (stat_recv (set_recv_status (set_char s c) 1) ≡ 1)
      × (stat_xmit (set_recv_status (set_char s c) 1) ≡ stat_xmit s)
unfolding set_recv_status set_char
recv_char s c = (omega arith, omega arith, omega arith)

recv_none :
    (s : ℕ)
    → (stat_char (set_recv_status s 0) ≡ stat_char s)
      × (stat_recv (set_recv_status s 0) ≡ 0)
      × (stat_xmit (set_recv_status s 0) ≡ stat_xmit s)
unfolding set_recv_status
recv_none s = (omega arith, omega arith, omega arith)

xmit_ready :
    (s : ℕ)
    → (stat_char (set_xmit_status s 0) ≡ stat_char s)
      × (stat_recv (set_xmit_status s 0) ≡ stat_recv s)
      × (stat_xmit (set_xmit_status s 0) ≡ 0)
unfolding set_xmit_status
xmit_ready s = (omega arith, omega arith, omega arith)

-- What the transmit half adds to the receive half.
transmitted-Polled :
    (t u : Terminal) (c : Option ℕ) (rest : List (Option ℕ)) (i : Bool)
    → stat_char u.status ≡ (if is_input c then char_of c % 256 else stat_char t.status)
    → stat_recv u.status ≡ (if is_input c then 1 else 0)
    → stat_xmit u.status ≡ stat_xmit t.status
    → i ≡ (is_input c && recv_int t.control)
    → u.input ≡ rest
    → u.output ≡ t.output
    → u.control ≡ t.control
    → Polled t c rest (either i (transmitted u).0, (transmitted u).1)
unfolding transmitted
transmitted-Polled t u c rest i ec er ex ei en eo et = elim (Bool-cases (stat_xmit t.status == 1)) [
  | inl busy ↦
      let (fc, fr, fx) = xmit_ready u.status in
      record {
        char = rw (ex, busy) (fc ∙ ec);
        recv = rw (ex, busy) (fr ∙ er);
        xmit = rw (ex, busy) fx;
        interrupts =
            rw (ex, busy, ei, et)
              (either_or (is_input c && recv_int t.control) (xmit_int t.control));
        input = rw (ex, busy) en;
        output = rw (ex, busy) eo;
        control = rw (ex, busy) et;
      }
  | inr idle ↦ record {
    char = rw (ex, idle) ec;
    recv = rw (ex, idle) er;
    xmit = rw (ex, idle) ex;
    interrupts = rw (ex, idle, ei) (either_or (is_input c && recv_int t.control) false);
    input = rw (ex, idle) en;
    output = rw (ex, idle) eo;
    control = rw (ex, idle) et;
  }
]
  where
    either_or : (a b : Bool) → either a b ≡ (a || b)
    either_or true b = refl
    either_or false b = refl

abbrev fed : Terminal → Option ℕ → List (Option ℕ) → Terminal
fed t c rest = record t { input = c ∷ rest }

poll-fed :
    (t : Terminal) (c : Option ℕ) (rest : List (Option ℕ))
    → Polled (fed t c rest) c rest (poll (fed t c rest))
unfolding poll receive next_chr
poll-fed t c rest = elim (Bool-cases (is_input c)) [
  | inl typed ↦
      let (fc, fr, fx) = recv_char t.status (char_of c) in
      rw typed (
        transmitted-Polled (fed t c rest) _ c rest (recv_int t.control) (rw typed fc) (rw typed fr)
          fx (rw typed) refl refl refl)
  | inr paused ↦
      let (fc, fr, fx) = recv_none t.status in
      rw paused (
        transmitted-Polled (fed t c rest) _ c rest false (rw paused fc) (rw paused fr) fx
          (rw paused) refl refl refl)
]

-- `term_action` on a terminal: a character other than '@' is put in the status register and marked
-- as received; otherwise the receive side is ready. The transmit side is ready if it was busy.
-- There is an interrupt exactly if a character came and the receive interrupt is on, or one was
-- being sent and the transmit interrupt is on. One character of the input is used up.
pub poll-Polled :
    (t : Terminal) (c : Option ℕ) (rest : List (Option ℕ))
    → t.input ≡ c ∷ rest
    → Polled t c rest (poll t)
poll-Polled t c rest e =
    subst (λ i. Polled (record t { input = i }) c rest (poll (record t { input = i }))) (sym e)
      (poll-fed t c rest)

-- A control word that sends a character, written to a terminal whose transmit side is ready, is
-- accepted: the character is written and the transmit side is busy. Until the terminal is polled
-- another such word answers USLOSS_DEV_BUSY and writes nothing; after the poll the transmit side is
-- ready again.
write_control-once :
    (t : Terminal) (req again : ℕ) (c : Option ℕ) (rest : List (Option ℕ))
    → send_char req ≡ true
    → send_char again ≡ true
    → stat_xmit t.status ≡ 0
    → t.input ≡ c ∷ rest
    → (t' : Terminal) × (t'' : Terminal) × (write_control req t ≡ (ok, t'))
      × (t'.output ≡ (req / 256 % 256) ∷ t.output)
      × (write_control again t' ≡ (Code.busy, t''))
      × (t''.output ≡ t'.output)
      × (stat_xmit (poll t'').1.status ≡ 0)
unfolding write_control
write_control-once t req again c rest s s' ready e =
    let busy : stat_xmit (set_xmit_status t.status 1) ≡ 1 =
      (fields_apart t.status 1 0 (omega arith) (omega arith)).0.0 in
    let t' = record t {
      output = (req / 256 % 256) ∷ t.output;
      status = set_xmit_status t.status 1;
      control = req;
    } in
    (
      t',
      record t' { control = again },
      rw (s, ready),
      refl,
      rw (s', busy),
      refl,
      (poll-Polled (record t' { control = again }) c rest e).xmit ∙ rw busy,
    )
