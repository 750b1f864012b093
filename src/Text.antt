-- ===== src/Text.antt =====
-- src/core/git: the text that git prints and the text of files.
pub mod Traits
