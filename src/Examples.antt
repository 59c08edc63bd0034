-- ===== src/Examples.antt =====
-- Small tables and inputs, runs on them, and the theorems applied to them.
pub mod Data
mod Batches
mod Tasks
mod Runs
mod Schedules
mod Rules
mod Enqueues
mod Sets
mod Reviews
mod Identity
mod Dispatch
