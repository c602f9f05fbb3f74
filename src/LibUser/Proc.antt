-- ===== src/LibUser/Proc.antt =====
-- The process calls of libuser/libuser.c. Each is the record that it fills in and what it
-- reads back.
use usloss.Base.{ℕ, [], ◌∷◌}
use usloss.LibUser.Stub.{Stub, as_int}

-- `Sys_Spawn`, SYS_SPAWN
unfoldable pub sys_spawn : ℕ → ℕ → ℕ → ℕ → ℕ → Stub
sys_spawn name func arg stack_size priority = record {
  fill = λ sa. record sa {
    number = 3;
    arg1 = func;
    arg2 = arg;
    arg3 = stack_size;
    arg4 = priority;
    arg5 = name;
  };
  outputs = λ sa. as_int sa.arg1 ∷ [];
}

-- `Sys_Wait`, SYS_WAIT
unfoldable pub sys_wait : Stub
sys_wait = record {
  fill = λ sa. record sa { number = 4 };
  outputs = λ sa. as_int sa.arg1 ∷ as_int sa.arg2 ∷ [];
}

-- `Sys_Terminate`, SYS_TERMINATE
unfoldable pub sys_terminate : ℕ → Stub
sys_terminate status = record {
  fill = λ sa. record sa { number = 5; arg1 = status };
  outputs = λ _. [];
}

-- `Sys_Sleep`, SYS_SLEEP
unfoldable pub sys_sleep : ℕ → Stub
sys_sleep seconds = record {
  fill = λ sa. record sa { number = 12; arg1 = seconds };
  outputs = λ _. [];
}

-- `Sys_GetTimeOfDay`, SYS_GETTIMEOFDAY
unfoldable pub sys_get_time_of_day : Stub
sys_get_time_of_day = record {
  fill = λ sa. record sa { number = 20 };
  outputs = λ sa. as_int sa.arg1 ∷ [];
}

-- `Sys_GetProcInfo`, SYS_GETPROCINFO
unfoldable pub sys_get_proc_info : ℕ → ℕ → Stub
sys_get_proc_info pid info = record {
  fill = λ sa. record sa { number = 21; arg1 = pid; arg2 = info };
  outputs = λ _. [];
}

-- `Sys_GetPid`, SYS_GETPID
unfoldable pub sys_get_pid : Stub
sys_get_pid = record { fill = λ sa. record sa { number = 22 }; outputs = λ sa. as_int sa.arg1 ∷ [] }
