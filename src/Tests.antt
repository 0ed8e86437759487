-- ===== src/Tests.antt =====
-- Concrete stand-ins for the code that the program calls and does not hold, runs of the definitions
-- on them, and the theorems at concrete inputs.
pub mod Stubs
mod Queries
mod Metadata
mod Writes
mod Rules
mod Hooks
mod Sync
mod Imports
mod Pollers
