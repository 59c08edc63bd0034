-- ===== src/Tags.antt =====
-- The tag subsystem's domain core, internal/tags.
pub mod Names
pub mod Identity
pub mod Admission
pub mod Composition
pub mod Algebra
pub mod Atomicity
pub mod Completeness
pub mod Worklist
