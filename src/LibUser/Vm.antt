-- ===== src/LibUser/Vm.antt =====
-- The virtual memory and heap calls of libuser/libuser.c. Each is the record that it fills in and
-- what it reads back.
use usloss.Base.{ℕ, [], ◌∷◌, if◌then◌else◌, ◌==◌}
use usloss.LibUser.Stub.{Stub, as_int}

-- `Sys_VmInit`, SYS_VMINIT
unfoldable pub sys_vm_init : ℕ → ℕ → ℕ → ℕ → Stub
sys_vm_init mappings pages frames pagers = record {
  fill =
      λ sa. record sa { number = 35; arg1 = mappings; arg2 = pages; arg3 = frames; arg4 = pagers };
  outputs = λ sa. if as_int sa.arg4 == 0 then sa.arg1 ∷ as_int sa.arg2 ∷ [] else [];
}

-- `Sys_VmShutdown`, SYS_VMSHUTDOWN
unfoldable pub sys_vm_shutdown : Stub
sys_vm_shutdown = record { fill = λ sa. record sa { number = 36 }; outputs = λ _. [] }

-- `Sys_Protect`, SYS_PROTECT
unfoldable pub sys_protect : ℕ → ℕ → Stub
sys_protect page protection = record {
  fill = λ sa. record sa { number = 39; arg1 = page; arg2 = protection };
  outputs = λ _. [];
}

-- `Sys_Share`, SYS_SHARE
unfoldable pub sys_share : ℕ → ℕ → ℕ → Stub
sys_share pid source target = record {
  fill = λ sa. record sa { number = 40; arg1 = pid; arg2 = source; arg3 = target };
  outputs = λ _. [];
}

-- `Sys_COW`, SYS_COW
unfoldable pub sys_cow : ℕ → ℕ → ℕ → Stub
sys_cow pid source target = record {
  fill = λ sa. record sa { number = 41; arg1 = pid; arg2 = source; arg3 = target };
  outputs = λ _. [];
}

-- `Sys_HeapAlloc`, SYS_HEAPALLOC
unfoldable pub sys_heap_alloc : ℕ → Stub
sys_heap_alloc bytes = record {
  fill = λ sa. record sa { number = 37; arg1 = bytes };
  outputs = λ sa. sa.arg1 ∷ [];
}

-- `Sys_HeapFree`, SYS_HEAPFREE
unfoldable pub sys_heap_free : ℕ → Stub
sys_heap_free ptr = record { fill = λ sa. record sa { number = 38; arg1 = ptr }; outputs = λ _. [] }
