-- ===== src/Devices/Codes.antt =====
-- The device codes of usloss.h: USLOSS_DEV_READY, USLOSS_DEV_BUSY and USLOSS_DEV_ERROR.
-- USLOSS_DEV_OK is the first and USLOSS_DEV_INVALID the last of them.
use usloss.Base.{ℕ, ◌-◌, ◌%◌, ◌^◌, ltb, if◌then◌else◌, ℤ, pos, negsuc}

pub data Code : Type 0 where
  ready busy error : Code

abbrev pub ok : Code
ok = Code.ready

abbrev pub invalid : Code
invalid = Code.error

-- The value of a code in a status register.
abbrev pub code_value : Code → ℕ
code_value Code.ready = 0
code_value Code.busy = 1
code_value Code.error = 2

-- `(int) w` for a machine word w: the low 32 bits, as a signed number.
abbrev pub int_of : ℕ → ℤ
int_of w = let b = w % 2 ^ 32 in if ltb b (2 ^ 31) then pos b else negsuc (2 ^ 32 - 1 - b)
