-- ===== src/Diff.antt =====
-- src/core/git: the diff data, the side-by-side pairing and the patches built for staging.
pub mod Types
pub mod Scan
pub mod Paths
pub mod Range
pub mod Parser
pub mod SideBySide
pub mod Patch
pub mod LineSelection
