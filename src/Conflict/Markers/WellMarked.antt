-- ===== src/Conflict/Markers/WellMarked.antt =====
-- src/core/git/ConflictMarkerParser.cpp: a file as git marks its conflicts.
pub mod Regions
pub mod Segments
use git_branch_manager.Base.{
  ℕ, suc, ◌+◌, Bool, true, false, not, ◌&&◌, List, [], ◌∷◌, ◌++◌, Option, none, some, ◌≡◌, refl,
  arith, ◌∙◌, ap, if◌then◌else◌, length, is_empty, All, Bool-cases, inl, inr, append-nil,
  append_assoc, Option-cases, sym,
}
use git_branch_manager.Base.Text.{Bytes, codes, bytes_eq, starts_with}
use git_branch_manager.Conflict.Markers.{
  ConflictSegment, text, region, ParsedConflictFile, split_keeping_line_endings, strip_line_ending,
  Side, to_ours, to_base, to_theirs, Scan, Parser, new_scan, push_current, flush_text, close_region,
  scan_line, outside_line, parse_line, parse_lines, finish, initial, parse_all, parse,
}

abbrev pub is_start : Bytes → Bool
is_start line = starts_with (codes "<<<<<<<") (strip_line_ending line)

abbrev pub is_base : Bytes → Bool
is_base line = starts_with (codes "|||||||") (strip_line_ending line)

abbrev pub is_separator : Bytes → Bool
is_separator line = bytes_eq (strip_line_ending line) (codes "=======")

abbrev pub is_end : Bytes → Bool
is_end line = starts_with (codes ">>>>>>>") (strip_line_ending line)

-- A line inside a region that is no marker.
pub record IsPlain (line : Bytes) : Type 0 where
  pub no_end : is_end line ≡ false
  pub no_base : is_base line ≡ false
  pub no_separator : is_separator line ≡ false

-- Text and the region behind it, with the region's marker lines.
pub record Marked : Type 0 where
  pub before : List Bytes
  pub start_line : Bytes
  pub ours : List Bytes
  pub has_base : Bool
  pub base_line : Bytes
  pub base : List Bytes
  pub separator_line : Bytes
  pub theirs : List Bytes
  pub end_line : Bytes

-- Each marker line is one, and no other line is taken for one. A separator is no end marker.
pub record IsWellMarked (m : Marked) : Type 0 where
  pub text_lines : All (λ line. is_start line ≡ false) m.before
  pub starts : is_start m.start_line ≡ true
  pub ours_lines : All IsPlain m.ours
  pub bases : is_base m.base_line ≡ true
  pub base_no_end : is_end m.base_line ≡ false
  pub base_lines : All IsPlain m.base
  pub separates : is_separator m.separator_line ≡ true
  pub separator_no_end : is_end m.separator_line ≡ false
  pub separator_no_base : is_base m.separator_line ≡ false
  pub theirs_lines : All IsPlain m.theirs
  pub ends : is_end m.end_line ≡ true

-- The lines of the region before other lines, and those of a file, whose text behind the last
-- region is `rest`.
abbrev pub base_part : Marked → List Bytes → List Bytes
base_part m rest = if m.has_base then m.base_line ∷ (m.base ++ rest) else rest

abbrev pub region_lines : Marked → List Bytes → List Bytes
region_lines m rest =
    m.start_line ∷ (m.ours ++ base_part m (m.separator_line ∷ (m.theirs ++ m.end_line ∷ rest)))

abbrev pub file_lines : List Marked → List Bytes → List Bytes
file_lines [] rest = rest
file_lines (m ∷ ms) rest = m.before ++ region_lines m (file_lines ms rest)

-- The segments that the parser should find.
abbrev pub text_segment : List Bytes → List ConflictSegment
text_segment [] = []
text_segment (line ∷ lines) = text (line ∷ lines) ∷ []

abbrev pub region_segment : Marked → ConflictSegment
region_segment m = region m.ours m.theirs (if m.has_base then m.base else []) m.has_base

abbrev pub marked_segments : List Marked → List ConflictSegment
marked_segments [] = []
marked_segments (m ∷ ms) = text_segment m.before ++ region_segment m ∷ marked_segments ms
