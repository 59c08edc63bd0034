-- ===== src/Ops.antt =====
-- internal/ops/dispatch and internal/ops/queue: how queued batches come to run, and how stale ones are
-- recovered.
pub mod Launch
pub mod Backoff
pub mod Dispatcher
pub mod Reaper
pub mod Schedule
