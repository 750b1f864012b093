-- ===== src/Conflict.antt =====
-- src/core/git: conflict-marked files and the batch of conflicted paths.
pub mod Markers
pub mod Batch
