-- ===== src/Diff/Range.antt =====
-- src/core/git/UnifiedDiffParser.cpp: the ranges of a hunk header, `readRange` and its loop.
use git_branch_manager.Base.{ℕ, zero, suc, [], ◌∷◌, Option, none, some, length}
use git_branch_manager.Base.Text.{Bytes, codes}
use git_branch_manager.Diff.Scan.{split_first, word, behind_word, parse_uint}

-- "start" or "start,count"; an omitted count is 1.
unfoldable pub parse_range : Bytes → ℕ × ℕ
unfolding split_first parse_uint
parse_range text = elim (split_first (codes ",") text) [
  | none ↦ (parse_uint text, 1)
  | some (start, count) ↦ (parse_uint start, parse_uint count)
]

-- The range behind the next `sign`, and the text behind it; `none` if there is no such sign.
unfoldable pub read_range : ℕ → Bytes → Option ((ℕ × ℕ) × Bytes)
unfolding split_first word behind_word parse_range
read_range sign text = elim (split_first (sign ∷ []) text) [
  | none ↦ none
  | some (_, rest) ↦ some (parse_range (word rest), behind_word rest)
]

-- `while (readRange('-', &start, &count)) {}`: the last range wins, or the one given if there is
-- none. Each round takes a byte at least, so the length of the text is fuel enough.
unfoldable pub last_range : ℕ → ℕ → Bytes → ℕ × ℕ → ℕ × ℕ
unfolding read_range
last_range zero sign text range = range
last_range (suc fuel) sign text range = elim (read_range sign text) [
  | none ↦ range
  | some (next, rest) ↦ last_range fuel sign rest next
]

unfoldable pub old_range : Bytes → ℕ × ℕ
unfolding last_range
old_range ranges = last_range (suc (length ranges)) b'-' ranges (0, 0)

unfoldable pub new_range : Bytes → ℕ × ℕ
unfolding read_range
new_range ranges = elim (read_range b'+' ranges) [ none ↦ (0, 0) | some (range, _) ↦ range ]
