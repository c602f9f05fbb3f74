-- ===== src/Mmu.antt =====
-- The MMU of src/mmu.c: its state and the interface to the memory mappings of the host (`Types`),
-- the operations on a mapping (`Pages`), the access bits and the page faults (`Access`), the tags
-- and the page tables (`Switch`), the start and the end (`Config`), and what only reads (`Query`).
-- The other modules are the proofs, each named for what it is about.
pub mod Types
pub mod Pages
pub mod Grid
pub mod Inv
pub mod Cases
pub mod Keep
pub mod Protect
pub mod Track
pub mod Faults
pub mod Cpu
pub mod SetAccess
pub mod Exposed
pub mod Tags
pub mod SetTag
pub mod Sound
pub mod Mapping
pub mod Clearing
pub mod Table
pub mod Runs
pub mod Start
pub mod Access
pub mod Switch
pub mod Config
pub mod Query
pub mod Api
pub mod Life
pub mod Addresses
