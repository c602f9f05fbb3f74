-- ===== src/LibUser/Calls.antt =====
-- The system calls as the kernel sees them: a call with its arguments, the stub of libuser that
-- makes it, and the kernel's reading of the record that arrives.
use usloss.Base.{ℕ, List, [], ◌∷◌, Option, none, some, get_or}
use usloss.LibUser.Stub.{SysArgs, Stub}
use usloss.LibUser.Term.{
  sys_term_read, sys_term_write, sys_disk_write, sys_disk_read, sys_disk_size,
}
use usloss.LibUser.Proc.{
  sys_spawn, sys_wait, sys_terminate, sys_sleep, sys_get_time_of_day, sys_get_proc_info,
  sys_get_pid,
}
use usloss.LibUser.Lock.{
  sys_lock_name, sys_lock_free, sys_lock_create, sys_lock_acquire, sys_lock_release, sys_cond_name,
  sys_cond_free, sys_cond_create, sys_cond_wait, sys_cond_signal, sys_cond_broadcast, sys_sem_name,
  sys_sem_create, sys_sem_p, sys_sem_v, sys_sem_free,
}
use usloss.LibUser.Vm.{
  sys_vm_init, sys_vm_shutdown, sys_protect, sys_share, sys_cow, sys_heap_alloc, sys_heap_free,
}
use usloss.LibUser.Mbox.{
  sys_mbox_create, sys_mbox_release, sys_mbox_send, sys_mbox_receive, sys_mbox_cond_send,
  sys_mbox_cond_receive,
}

-- A call of the interface of libuser.h, with the values that it passes to the kernel.
pub data Call : Type 0 where
  term_read_call : ℕ → ℕ → ℕ → Call
  term_write_call : ℕ → ℕ → ℕ → Call
  disk_write_call : ℕ → ℕ → ℕ → ℕ → Call
  disk_read_call : ℕ → ℕ → ℕ → ℕ → Call
  disk_size_call : ℕ → Call
  spawn_call : ℕ → ℕ → ℕ → ℕ → ℕ → Call
  wait_call : Call
  terminate_call : ℕ → Call
  sleep_call : ℕ → Call
  get_time_of_day_call : Call
  get_proc_info_call : ℕ → ℕ → Call
  get_pid_call : Call
  lock_name_call : ℕ → ℕ → ℕ → Call
  lock_free_call : ℕ → Call
  lock_create_call : ℕ → Call
  lock_acquire_call : ℕ → Call
  lock_release_call : ℕ → Call
  cond_name_call : ℕ → ℕ → ℕ → Call
  cond_free_call : ℕ → Call
  cond_create_call : ℕ → ℕ → Call
  cond_wait_call : ℕ → Call
  cond_signal_call : ℕ → Call
  cond_broadcast_call : ℕ → Call
  sem_name_call : ℕ → ℕ → Call
  sem_create_call : ℕ → ℕ → Call
  sem_p_call : ℕ → Call
  sem_v_call : ℕ → Call
  sem_free_call : ℕ → Call
  vm_init_call : ℕ → ℕ → ℕ → ℕ → Call
  vm_shutdown_call : Call
  protect_call : ℕ → ℕ → Call
  share_call : ℕ → ℕ → ℕ → Call
  cow_call : ℕ → ℕ → ℕ → Call
  heap_alloc_call : ℕ → Call
  heap_free_call : ℕ → Call
  mbox_create_call : ℕ → ℕ → Call
  mbox_release_call : ℕ → Call
  mbox_send_call : ℕ → ℕ → ℕ → Call
  mbox_receive_call : ℕ → ℕ → ℕ → Call
  mbox_cond_send_call : ℕ → ℕ → ℕ → Call
  mbox_cond_receive_call : ℕ → ℕ → ℕ → Call

unfoldable pub stub : Call → Stub
stub (term_read_call buff bsize unit_id) = sys_term_read buff bsize unit_id
stub (term_write_call buff bsize unit_id) = sys_term_write buff bsize unit_id
stub (disk_write_call dbuff first sectors unit) = sys_disk_write dbuff first sectors unit
stub (disk_read_call dbuff first sectors unit) = sys_disk_read dbuff first sectors unit
stub (disk_size_call unit) = sys_disk_size unit
stub (spawn_call name func arg stack_size priority) = sys_spawn name func arg stack_size priority
stub wait_call = sys_wait
stub (terminate_call status) = sys_terminate status
stub (sleep_call seconds) = sys_sleep seconds
stub get_time_of_day_call = sys_get_time_of_day
stub (get_proc_info_call pid info) = sys_get_proc_info pid info
stub get_pid_call = sys_get_pid
stub (lock_name_call lid name len) = sys_lock_name lid name len
stub (lock_free_call lid) = sys_lock_free lid
stub (lock_create_call name) = sys_lock_create name
stub (lock_acquire_call lid) = sys_lock_acquire lid
stub (lock_release_call lid) = sys_lock_release lid
stub (cond_name_call vid name len) = sys_cond_name vid name len
stub (cond_free_call vid) = sys_cond_free vid
stub (cond_create_call name lid) = sys_cond_create name lid
stub (cond_wait_call vid) = sys_cond_wait vid
stub (cond_signal_call vid) = sys_cond_signal vid
stub (cond_broadcast_call vid) = sys_cond_broadcast vid
stub (sem_name_call sid name) = sys_sem_name sid name
stub (sem_create_call name value) = sys_sem_create name value
stub (sem_p_call semaphore) = sys_sem_p semaphore
stub (sem_v_call semaphore) = sys_sem_v semaphore
stub (sem_free_call semaphore) = sys_sem_free semaphore
stub (vm_init_call mappings pages frames pagers) = sys_vm_init mappings pages frames pagers
stub vm_shutdown_call = sys_vm_shutdown
stub (protect_call page protection) = sys_protect page protection
stub (share_call pid source target) = sys_share pid source target
stub (cow_call pid source target) = sys_cow pid source target
stub (heap_alloc_call bytes) = sys_heap_alloc bytes
stub (heap_free_call ptr) = sys_heap_free ptr
stub (mbox_create_call numslots slotsize) = sys_mbox_create numslots slotsize
stub (mbox_release_call mbox) = sys_mbox_release mbox
stub (mbox_send_call mbox msg size) = sys_mbox_send mbox msg size
stub (mbox_receive_call mbox msg size) = sys_mbox_receive mbox msg size
stub (mbox_cond_send_call mbox msg size) = sys_mbox_cond_send mbox msg size
stub (mbox_cond_receive_call mbox msg size) = sys_mbox_cond_receive mbox msg size

-- The opcodes of usyscall.h, in their order: for each, how the kernel reads the arguments.
-- Opcode 0 is not used.
abbrev readers : List (SysArgs → Option Call)
readers =
    (λ _. none)
    ∷ (λ sa. some (term_read_call sa.arg1 sa.arg2 sa.arg3))
    ∷ (λ sa. some (term_write_call sa.arg1 sa.arg2 sa.arg3))
    ∷ (λ sa. some (spawn_call sa.arg5 sa.arg1 sa.arg2 sa.arg3 sa.arg4))
    ∷ (λ _. some wait_call)
    ∷ (λ sa. some (terminate_call sa.arg1))
    ∷ (λ sa. some (mbox_create_call sa.arg1 sa.arg2))
    ∷ (λ sa. some (mbox_release_call sa.arg1))
    ∷ (λ sa. some (mbox_send_call sa.arg1 sa.arg2 sa.arg3))
    ∷ (λ sa. some (mbox_receive_call sa.arg1 sa.arg2 sa.arg3))
    ∷ (λ sa. some (mbox_cond_send_call sa.arg1 sa.arg2 sa.arg3))
    ∷ (λ sa. some (mbox_cond_receive_call sa.arg1 sa.arg2 sa.arg3))
    ∷ (λ sa. some (sleep_call sa.arg1))
    ∷ (λ sa. some (disk_read_call sa.arg1 sa.arg3 sa.arg2 sa.arg4))
    ∷ (λ sa. some (disk_write_call sa.arg1 sa.arg3 sa.arg2 sa.arg4))
    ∷ (λ sa. some (disk_size_call sa.arg1))
    ∷ (λ sa. some (sem_create_call sa.arg2 sa.arg1))
    ∷ (λ sa. some (sem_p_call sa.arg1))
    ∷ (λ sa. some (sem_v_call sa.arg1))
    ∷ (λ sa. some (sem_free_call sa.arg1))
    ∷ (λ _. some get_time_of_day_call)
    ∷ (λ sa. some (get_proc_info_call sa.arg1 sa.arg2))
    ∷ (λ _. some get_pid_call)
    ∷ (λ sa. some (sem_name_call sa.arg1 sa.arg2))
    ∷ (λ sa. some (lock_create_call sa.arg1))
    ∷ (λ sa. some (lock_free_call sa.arg1))
    ∷ (λ sa. some (lock_name_call sa.arg1 sa.arg2 sa.arg3))
    ∷ (λ sa. some (lock_acquire_call sa.arg1))
    ∷ (λ sa. some (lock_release_call sa.arg1))
    ∷ (λ sa. some (cond_create_call sa.arg1 sa.arg2))
    ∷ (λ sa. some (cond_free_call sa.arg1))
    ∷ (λ sa. some (cond_name_call sa.arg1 sa.arg2 sa.arg3))
    ∷ (λ sa. some (cond_wait_call sa.arg1))
    ∷ (λ sa. some (cond_signal_call sa.arg1))
    ∷ (λ sa. some (cond_broadcast_call sa.arg1))
    ∷ (λ sa. some (vm_init_call sa.arg1 sa.arg2 sa.arg3 sa.arg4))
    ∷ (λ _. some vm_shutdown_call)
    ∷ (λ sa. some (heap_alloc_call sa.arg1))
    ∷ (λ sa. some (heap_free_call sa.arg1))
    ∷ (λ sa. some (protect_call sa.arg1 sa.arg2))
    ∷ (λ sa. some (share_call sa.arg1 sa.arg2 sa.arg3))
    ∷ (λ sa. some (cow_call sa.arg1 sa.arg2 sa.arg3))
    ∷ []

unfoldable pub read_call : SysArgs → Option Call
read_call sa = get_or readers sa.number (λ _. none) sa
