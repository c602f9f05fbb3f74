-- ===== src/LibUser/Mbox.antt =====
-- The mailbox calls of libuser/libuser.c. Each is the record that it fills in and what it
-- reads back.
use usloss.Base.{ℕ, [], ◌∷◌}
use usloss.LibUser.Stub.{Stub, as_int}

-- `Sys_MboxCreate`, SYS_MBOXCREATE
unfoldable pub sys_mbox_create : ℕ → ℕ → Stub
sys_mbox_create numslots slotsize = record {
  fill = λ sa. record sa { number = 6; arg1 = numslots; arg2 = slotsize };
  outputs = λ sa. as_int sa.arg1 ∷ [];
}

-- `Sys_MboxRelease`, SYS_MBOXRELEASE
unfoldable pub sys_mbox_release : ℕ → Stub
sys_mbox_release mbox = record {
  fill = λ sa. record sa { number = 7; arg1 = mbox };
  outputs = λ _. [];
}

-- `Sys_MboxSend`, SYS_MBOXSEND
unfoldable pub sys_mbox_send : ℕ → ℕ → ℕ → Stub
sys_mbox_send mbox msg size = record {
  fill = λ sa. record sa { number = 8; arg1 = mbox; arg2 = msg; arg3 = size };
  outputs = λ sa. as_int sa.arg3 ∷ [];
}

-- `Sys_MboxReceive`, SYS_MBOXRECEIVE
unfoldable pub sys_mbox_receive : ℕ → ℕ → ℕ → Stub
sys_mbox_receive mbox msg size = record {
  fill = λ sa. record sa { number = 9; arg1 = mbox; arg2 = msg; arg3 = size };
  outputs = λ sa. as_int sa.arg2 ∷ [];
}

-- `Sys_MboxCondSend`, SYS_MBOXCONDSEND
unfoldable pub sys_mbox_cond_send : ℕ → ℕ → ℕ → Stub
sys_mbox_cond_send mbox msg size = record {
  fill = λ sa. record sa { number = 10; arg1 = mbox; arg2 = msg; arg3 = size };
  outputs = λ sa. as_int sa.arg3 ∷ [];
}

-- `Sys_MboxCondReceive`, SYS_MBOXCONDRECEIVE
unfoldable pub sys_mbox_cond_receive : ℕ → ℕ → ℕ → Stub
sys_mbox_cond_receive mbox msg size = record {
  fill = λ sa. record sa { number = 11; arg1 = mbox; arg2 = msg; arg3 = size };
  outputs = λ sa. as_int sa.arg2 ∷ [];
}
