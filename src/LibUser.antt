-- ===== src/LibUser.antt =====
-- The user side of the system calls, libuser/libuser.c: the functions, and how the kernel reads
-- what they send.
pub mod Stub
pub mod Term
pub mod Proc
pub mod Lock
pub mod Vm
pub mod Mbox
pub mod Calls
