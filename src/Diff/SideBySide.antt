-- ===== src/Diff/SideBySide.antt =====
-- src/core/git/SideBySideDiff.h and SideBySideDiff.cpp. A pointer to a line of the hunk is the
-- line, and a null pointer is `none`.
pub mod Columns
use git_branch_manager.Base.{List, [], ◌∷◌, ◌++◌, Option, none, some}
use git_branch_manager.Diff.Types.{
  DiffLineKind, DiffLine, DiffHunk, context, removed, no_newline_marker,
}

pub record SideBySideRow : Type 0 where
  pub left : Option DiffLine
  pub right : Option DiffLine

-- The rows of `flushRun`: position i of both runs side by side, up to the longer run's end.
unfoldable pub pair_runs : List DiffLine → List DiffLine → List SideBySideRow
pair_runs [] [] = []
pair_runs (l ∷ ls) [] = record { left = some l; right = none } ∷ pair_runs ls []
pair_runs [] (r ∷ rs) = record { left = none; right = some r } ∷ pair_runs [] rs
pair_runs (l ∷ ls) (r ∷ rs) = record { left = some l; right = some r } ∷ pair_runs ls rs

-- The variables of `pairHunkForSideBySide`.
pub record Pairing : Type 0 where
  pub rows : List SideBySideRow
  pub removed_run : List DiffLine
  pub added_run : List DiffLine
  pub last_real_kind : DiffLineKind

unfoldable pub flush_run : Pairing → Pairing
unfolding pair_runs
flush_run p = record p {
  rows = p.rows ++ pair_runs p.removed_run p.added_run;
  removed_run = [];
  added_run = [];
}

-- `flushRun(); rows.push_back({&line, &line});`
unfoldable pub push_both : Pairing → DiffLine → Pairing
unfolding flush_run
push_both p line =
    let flushed = flush_run p in
    record flushed { rows = flushed.rows ++ record { left = some line; right = some line } ∷ [] }

unfoldable pub pair_marker : DiffLineKind → Pairing → DiffLine → Pairing
unfolding push_both
pair_marker DiffLineKind.removed p line = record p { removed_run = p.removed_run ++ line ∷ [] }
pair_marker DiffLineKind.added p line = record p { added_run = p.added_run ++ line ∷ [] }
pair_marker DiffLineKind.context p line = push_both p line
pair_marker DiffLineKind.no_newline_marker p line = push_both p line

unfoldable pub pair_line : DiffLineKind → Pairing → DiffLine → Pairing
unfolding pair_marker push_both
pair_line DiffLineKind.removed p line = record p {
  removed_run = p.removed_run ++ line ∷ [];
  last_real_kind = DiffLineKind.removed;
}
pair_line DiffLineKind.added p line = record p {
  added_run = p.added_run ++ line ∷ [];
  last_real_kind = DiffLineKind.added;
}
pair_line DiffLineKind.context p line = record (push_both p line) { last_real_kind = context }
pair_line DiffLineKind.no_newline_marker p line = pair_marker p.last_real_kind p line

unfoldable pub pair_lines : Pairing → List DiffLine → Pairing
unfolding pair_line
pair_lines p [] = p
pair_lines p (line ∷ lines) = pair_lines (pair_line line.kind p line) lines

abbrev pub start : Pairing
start = record { rows = []; removed_run = []; added_run = []; last_real_kind = context }

unfoldable pub pair_hunk_for_side_by_side : DiffHunk → List SideBySideRow
unfolding pair_lines flush_run
pair_hunk_for_side_by_side hunk = (flush_run (pair_lines start hunk.lines)).rows
