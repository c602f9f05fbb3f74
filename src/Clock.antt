-- ===== src/Clock.antt =====
-- The clock: `USLOSSClock` of src/globals.c, src/dev_clock.c, and what an alarm signal does to the
-- ticks in `sighandler` of src/sig_ints.c. What `rand` returns is an argument.
pub mod Laws
use usloss.Base.{ℕ, ◌+◌, ◌-◌, ◌*◌, ◌%◌, leb, if◌then◌else◌, not, Option, none, some, ℤ, pos, eq_ℤ}
use usloss.Devices.Codes.{Code, ok, invalid}

-- ALARM_TIME, in microseconds.
abbrev pub alarm_time : ℕ
alarm_time = 10000

-- `pclock_ticks` and `partial_ticks`.
pub record Ticks : Type 0 where
  pub pclock_ticks : ℕ
  pub partial_ticks : ℕ

-- `globals_init`
abbrev pub no_ticks : Ticks
no_ticks = record { pclock_ticks = 0; partial_ticks = 0 }

-- `atleast`, for what `rand` returns.
abbrev pub atleast : ℕ → ℕ → ℕ
atleast n random = n + random % n

-- The ticks after a reading of the clock.
unfoldable pub read_ticks : ℕ → Ticks → Ticks
read_ticks random t =
    let partial = t.partial_ticks + atleast 5 random in
    if leb alarm_time partial
    then record { pclock_ticks = t.pclock_ticks + 1; partial_ticks = partial - alarm_time }
    else record { pclock_ticks = t.pclock_ticks; partial_ticks = partial }

-- `pclock_ticks * ALARM_TIME + partial_ticks`
abbrev pub time_of : Ticks → ℕ
time_of t = t.pclock_ticks * alarm_time + t.partial_ticks

-- `USLOSSClock`: the time and the new ticks. `check_kernel_mode` and the masking of the signals
-- around the computation are left out.
unfoldable pub usloss_clock : ℕ → Ticks → ℕ × Ticks
usloss_clock random t = (time_of (read_ticks random t), read_ticks random t)

-- `sighandler` on SIG_ALARM: `pclock_ticks++; partial_ticks = 0;`
unfoldable pub alarm_ticks : Ticks → Ticks
alarm_ticks t = record { pclock_ticks = t.pclock_ticks + 1; partial_ticks = 0 }

-- `clock_get_status`: the return code, what goes through `statusPtr`, and the new ticks.
unfoldable pub clock_get_status : ℤ → ℕ → Ticks → Code × Option ℕ × Ticks
clock_get_status unit random t =
    if not (eq_ℤ unit (pos 0))
    then (invalid, none, t)
    else (ok, some (usloss_clock random t).0, (usloss_clock random t).1)

-- `clock_request`
unfoldable pub clock_request : ℤ → Code
clock_request unit = if not (eq_ℤ unit (pos 0)) then invalid else ok

-- `clock_action`
abbrev pub clock_action : ℕ
clock_action = 0
