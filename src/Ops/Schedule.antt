-- ===== src/Ops/Schedule.antt =====
-- internal/backup/scheduler.go, internal/ops/queue/scheduler.go and the polling windows of
-- internal/config/config.go: when a recurring entry is due. An instant is a number of nanoseconds of local
-- wall-clock time from a midnight on, in a zone without transitions.
pub mod Slots
pub mod Times
pub mod Windows
pub mod Entries
