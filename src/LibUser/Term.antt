-- ===== src/LibUser/Term.antt =====
-- The terminal and disk calls of libuser/libuser.c. Each is the record that it fills in and what it
-- reads back.
use usloss.Base.{ℕ, [], ◌∷◌}
use usloss.LibUser.Stub.{Stub, as_int}

-- `Sys_TermRead`, SYS_TERMREAD
unfoldable pub sys_term_read : ℕ → ℕ → ℕ → Stub
sys_term_read buff bsize unit_id = record {
  fill = λ sa. record sa { number = 1; arg1 = buff; arg2 = bsize; arg3 = unit_id };
  outputs = λ sa. as_int sa.arg2 ∷ [];
}

-- `Sys_TermWrite`, SYS_TERMWRITE
unfoldable pub sys_term_write : ℕ → ℕ → ℕ → Stub
sys_term_write buff bsize unit_id = record {
  fill = λ sa. record sa { number = 2; arg1 = buff; arg2 = bsize; arg3 = unit_id };
  outputs = λ sa. as_int sa.arg2 ∷ [];
}

-- `Sys_DiskWrite`, SYS_DISKWRITE
unfoldable pub sys_disk_write : ℕ → ℕ → ℕ → ℕ → Stub
sys_disk_write dbuff first sectors unit = record {
  fill = λ sa. record sa { number = 14; arg1 = dbuff; arg2 = sectors; arg3 = first; arg4 = unit };
  outputs = λ _. [];
}

-- `Sys_DiskRead`, SYS_DISKREAD
unfoldable pub sys_disk_read : ℕ → ℕ → ℕ → ℕ → Stub
sys_disk_read dbuff first sectors unit = record {
  fill = λ sa. record sa { number = 13; arg1 = dbuff; arg2 = sectors; arg3 = first; arg4 = unit };
  outputs = λ _. [];
}

-- `Sys_DiskSize`, SYS_DISKSIZE
unfoldable pub sys_disk_size : ℕ → Stub
sys_disk_size unit = record {
  fill = λ sa. record sa { number = 15; arg1 = unit };
  outputs = λ sa. as_int sa.arg1 ∷ as_int sa.arg2 ∷ [];
}
