-- ===== src/LibUser/Lock.antt =====
-- The calls of libuser/libuser.c on locks, conditions and semaphores. Each is the record that it
-- fills in and what it reads back.
use usloss.Base.{ℕ, [], ◌∷◌}
use usloss.LibUser.Stub.{Stub, as_int}

-- `Sys_LockName`, SYS_LOCKNAME
unfoldable pub sys_lock_name : ℕ → ℕ → ℕ → Stub
sys_lock_name lid name len = record {
  fill = λ sa. record sa { number = 26; arg1 = lid; arg2 = name; arg3 = len };
  outputs = λ _. [];
}

-- `Sys_LockFree`, SYS_LOCKFREE
unfoldable pub sys_lock_free : ℕ → Stub
sys_lock_free lid = record { fill = λ sa. record sa { number = 25; arg1 = lid }; outputs = λ _. [] }

-- `Sys_LockCreate`, SYS_LOCKCREATE
unfoldable pub sys_lock_create : ℕ → Stub
sys_lock_create name = record {
  fill = λ sa. record sa { number = 24; arg1 = name };
  outputs = λ sa. as_int sa.arg1 ∷ [];
}

-- `Sys_LockAcquire`, SYS_LOCKACQUIRE
unfoldable pub sys_lock_acquire : ℕ → Stub
sys_lock_acquire lid = record {
  fill = λ sa. record sa { number = 27; arg1 = lid };
  outputs = λ _. [];
}

-- `Sys_LockRelease`, SYS_LOCKRELEASE
unfoldable pub sys_lock_release : ℕ → Stub
sys_lock_release lid = record {
  fill = λ sa. record sa { number = 28; arg1 = lid };
  outputs = λ _. [];
}

-- `Sys_CondName`, SYS_CONDNAME
unfoldable pub sys_cond_name : ℕ → ℕ → ℕ → Stub
sys_cond_name vid name len = record {
  fill = λ sa. record sa { number = 31; arg1 = vid; arg2 = name; arg3 = len };
  outputs = λ _. [];
}

-- `Sys_CondFree`, SYS_CONDFREE
unfoldable pub sys_cond_free : ℕ → Stub
sys_cond_free vid = record { fill = λ sa. record sa { number = 30; arg1 = vid }; outputs = λ _. [] }

-- `Sys_CondCreate`, SYS_CONDCREATE
unfoldable pub sys_cond_create : ℕ → ℕ → Stub
sys_cond_create name lid = record {
  fill = λ sa. record sa { number = 29; arg1 = name; arg2 = lid };
  outputs = λ sa. as_int sa.arg1 ∷ [];
}

-- `Sys_CondWait`, SYS_CONDWAIT
unfoldable pub sys_cond_wait : ℕ → Stub
sys_cond_wait vid = record { fill = λ sa. record sa { number = 32; arg1 = vid }; outputs = λ _. [] }

-- `Sys_CondSignal`, SYS_CONDSIGNAL
unfoldable pub sys_cond_signal : ℕ → Stub
sys_cond_signal vid = record {
  fill = λ sa. record sa { number = 33; arg1 = vid };
  outputs = λ _. [];
}

-- `Sys_CondBroadcast`, SYS_CONDBROADCAST
unfoldable pub sys_cond_broadcast : ℕ → Stub
sys_cond_broadcast vid = record {
  fill = λ sa. record sa { number = 34; arg1 = vid };
  outputs = λ _. [];
}

-- `Sys_SemName`, SYS_SEMNAME
unfoldable pub sys_sem_name : ℕ → ℕ → Stub
sys_sem_name sid name = record {
  fill = λ sa. record sa { number = 23; arg1 = sid; arg2 = name };
  outputs = λ _. [];
}

-- `Sys_SemCreate`, SYS_SEMCREATE
unfoldable pub sys_sem_create : ℕ → ℕ → Stub
sys_sem_create name value = record {
  fill = λ sa. record sa { number = 16; arg1 = value; arg2 = name };
  outputs = λ sa. as_int sa.arg1 ∷ [];
}

-- `Sys_SemP`, SYS_SEMP
unfoldable pub sys_sem_p : ℕ → Stub
sys_sem_p semaphore = record {
  fill = λ sa. record sa { number = 17; arg1 = semaphore };
  outputs = λ _. [];
}

-- `Sys_SemV`, SYS_SEMV
unfoldable pub sys_sem_v : ℕ → Stub
sys_sem_v semaphore = record {
  fill = λ sa. record sa { number = 18; arg1 = semaphore };
  outputs = λ _. [];
}

-- `Sys_SemFree`, SYS_SEMFREE
unfoldable pub sys_sem_free : ℕ → Stub
sys_sem_free semaphore = record {
  fill = λ sa. record sa { number = 19; arg1 = semaphore };
  outputs = λ _. [];
}
