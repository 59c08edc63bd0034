-- ===== src/Tags/Identity.antt =====
-- internal/tags/identity.go: the deterministic identity of tag names.
pub mod Roman
pub mod Numerals
pub mod Parsing
pub mod Forms
pub mod Distance
pub mod Anchors
pub mod Plan
pub mod Levenshtein
pub mod Reach
pub mod Canonical
pub mod Folding
pub mod Evidence
