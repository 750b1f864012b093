-- ===== src/Diff/Types.antt =====
-- src/core/git/UnifiedDiffParser.h: the structures of a parsed diff. The `int` of `similarity` is
-- its bit pattern.
use git_branch_manager.Base.{ℕ, Bool, List}
use git_branch_manager.Base.Text.{Bytes}

pub data DiffLineKind : Type 0 where
  context added removed no_newline_marker : DiffLineKind

pub record DiffLine : Type 0 where
  pub kind : DiffLineKind
  pub old_line : ℕ
  pub new_line : ℕ
  pub text : Bytes

pub record DiffHunk : Type 0 where
  pub old_start : ℕ
  pub old_count : ℕ
  pub new_start : ℕ
  pub new_count : ℕ
  pub heading : Bytes
  pub lines : List DiffLine

pub data FileChangeKind : Type 0 where
  modified added deleted renamed copied type_changed mode_changed : FileChangeKind

pub record DiffFile : Type 0 where
  pub old_path : Bytes
  pub new_path : Bytes
  pub kind : FileChangeKind
  pub old_mode : Bytes
  pub new_mode : Bytes
  pub old_blob : Bytes
  pub new_blob : Bytes
  pub binary : Bool
  pub similarity : ℕ
  pub hunks : List DiffHunk
  pub added_lines : ℕ
  pub removed_lines : ℕ
