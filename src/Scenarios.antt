-- ===== src/Scenarios.antt =====
-- Concrete runs: every theorem with hypotheses is applied to a state in which they hold.
pub mod Flows
pub mod HostMemory
mod Events
mod Paging
mod Calls
mod Hardware
mod Machine
mod Whole
mod Streams
