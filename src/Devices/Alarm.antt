-- ===== src/Devices/Alarm.antt =====
-- src/dev_alarm.c: the alarm has one unit, and a flag that says whether an alarm is pending.
use usloss.Base.{ℕ, Bool, true, false, not, Option, none, some, ℤ, pos, eq_ℤ, if◌then◌else◌}
use usloss.EventQueue.{Queue, alarm_dev, schedule_int}
use usloss.Devices.Codes.{Code, ok, invalid}

-- `armed`
abbrev pub Alarm : Type 0
Alarm = Bool

-- `alarm_get_status`: the return code, and what goes through `statusPtr`.
unfoldable pub alarm_get_status : ℤ → Alarm → Code × Option Code
alarm_get_status unit armed =
    if not (eq_ℤ unit (pos 0))
    then (invalid, none)
    else (ok, some (if armed then Code.busy else Code.ready))

-- `alarm_request`; the time is the low byte of the argument. There is no result if `schedule_int`
-- does not return.
unfoldable pub alarm_request : ℤ → ℕ → Alarm → Queue → Option (Code × Alarm × Queue)
alarm_request unit time armed q =
    if not (eq_ℤ unit (pos 0))
    then some (invalid, armed, q)
    else elim (schedule_int q alarm_dev 0 time) [ none ↦ none | some q' ↦ some (ok, true, q') ]

-- `alarm_action`: the unit, and the alarm off.
unfoldable pub alarm_action : Alarm → ℕ × Alarm
alarm_action armed = (0, false)
