-- ===== src/LibUser/Stub.antt =====
-- What the functions of libuser/libuser.c have in common: the record that they pass to the kernel,
-- and the shape of a call.
use usloss.Base.{ℕ, ◌%◌, ◌^◌, List}

-- `USLOSS_Sysargs`. A field is a machine word: the value that an `int` or a pointer converts to.
pub record SysArgs : Type 0 where
  pub number : ℕ
  pub arg1 : ℕ
  pub arg2 : ℕ
  pub arg3 : ℕ
  pub arg4 : ℕ
  pub arg5 : ℕ

-- The cast of a word to `int` keeps its low 32 bits.
abbrev pub as_int : ℕ → ℕ
as_int w = w % 2 ^ 32

-- What differs between the functions: the fields of the record that they assign, and what they
-- store through their pointer arguments afterwards, in the order of the code. All return `(int)
-- sa.arg4`.
pub record Stub : Type 0 where
  pub fill : SysArgs → SysArgs
  pub outputs : SysArgs → List ℕ
