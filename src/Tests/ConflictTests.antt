-- ===== src/Tests/ConflictTests.antt =====
-- src/core/git: conflict markers and the batch of conflicted paths.
use git_branch_manager.Base.{
  true, All, false, if◌then◌else◌, List, [], ◌∷◌, ◌≡◌, ◌↔◌, refl, some, ◌++◌,
}
use git_branch_manager.Base.Text.{Bytes, codes, bytes_eq, starts_with}
use git_branch_manager.Conflict.Batch.Order.{AreDistinct, paths, new_paths, merge-paths}
use git_branch_manager.Conflict.Batch.States.{state_of, settled, state_of-merge}
use git_branch_manager.Conflict.Batch.{
  ConflictBatch, WorkingCopyEntry, both_modified, both_added, unresolved, resolved, merge, scan_has,
  is_tracked,
}
use git_branch_manager.Conflict.Markers.Lines.{assemble-parse}
use git_branch_manager.Conflict.Markers.WellMarked.Segments.{parse-well_marked}
use git_branch_manager.Conflict.Markers.WellMarked.{is_start, Marked, IsWellMarked, file_lines}
use git_branch_manager.Conflict.Markers.{
  text, region, assemble, any_unresolved, assemble_segments, chosen_lines, ConflictRegionResolution,
  theirs, ours, parse, parse_all, parse_lines, split_keeping_line_endings, parse_line, outside_line,
  strip_line_ending, scan_line, push_current, close_region, finish, flush_text, fallback,
}

abbrev marked : Bytes
marked = codes "a\n<<<<<<< HEAD\nb\n=======\nc\n>>>>>>> x\nd\n"

-- The end marker comes before the separator.
abbrev malformed : Bytes
malformed = codes "a\n<<<<<<< HEAD\nb\n>>>>>>> x\n"

abbrev take_theirs : List ConflictRegionResolution
take_theirs = record { choice = theirs; custom_lines = [] } ∷ []

assemble-marked : assemble (parse marked) take_theirs ≡ some (codes "a\nc\nd\n")
unfolding assemble assemble_segments chosen_lines parse parse_all parse_lines
    split_keeping_line_endings parse_line outside_line starts_with strip_line_ending scan_line
    bytes_eq push_current close_region finish flush_text fallback
assemble-marked = refl

-- A start marker inside a region is one of its lines, and stands in the result.
nested-marker :
    assemble
      (parse (codes "<<<<<<< A\n<<<<<<< B\nx\n=======\ny\n>>>>>>> B\n"))
      (record { choice = ours; custom_lines = [] } ∷ [])
    ≡ some (codes "<<<<<<< B\nx\n")
unfolding assemble assemble_segments chosen_lines parse parse_all parse_lines
    split_keeping_line_endings parse_line outside_line starts_with strip_line_ending scan_line
    bytes_eq push_current close_region finish flush_text fallback
nested-marker = refl

assemble-parse_example :
    ((1 ≡ (parse marked).region_count) × (any_unresolved take_theirs ≡ false))
    ↔ ((out : Bytes) × (assemble (parse marked) take_theirs ≡ some out))
assemble-parse_example = assemble-parse marked take_theirs

malformed-untouched : (parse malformed).region_count ≡ 0
unfolding parse parse_all parse_lines split_keeping_line_endings parse_line outside_line starts_with
    strip_line_ending scan_line bytes_eq push_current close_region finish flush_text fallback
malformed-untouched = refl

-- One path resolved, one in conflict again.
abbrev batch : ConflictBatch
batch = record {
  operation_fingerprint = codes "rebase";
  entries =
      record { path = codes "x"; kind = both_modified; state = unresolved }
      ∷ record { path = codes "y"; kind = both_added; state = resolved }
      ∷ [];
}

abbrev scan : List WorkingCopyEntry
scan =
    record { path = codes "y"; conflict = both_added }
    ∷ record { path = codes "z"; conflict = both_modified }
    ∷ []

state_of-merge_example : state_of (codes "x") (merge batch scan).entries ≡ (
    if scan_has (codes "x") scan
    then some unresolved
    else settled (state_of (codes "x") batch.entries))
state_of-merge_example = state_of-merge (codes "x") batch scan

batch-AreDistinct : AreDistinct batch.entries
unfolding is_tracked bytes_eq
batch-AreDistinct = (refl, (refl, tt))

merge-paths_example :
    AreDistinct (merge batch scan).entries
    × (paths (merge batch scan).entries
        ≡ paths batch.entries ++ new_paths (paths batch.entries) scan)
merge-paths_example = merge-paths batch scan batch-AreDistinct

-- The three versions, as `merge.conflictStyle=diff3` shows them.
abbrev conflict : Marked
conflict = record {
  before = codes "a\n" ∷ [];
  start_line = codes "<<<<<<< HEAD\n";
  ours = codes "b\n" ∷ [];
  has_base = true;
  base_line = codes "||||||| o\n";
  base = codes "o\r\n" ∷ [];
  separator_line = codes "=======\n";
  theirs = [];
  end_line = codes ">>>>>>> x\n";
}

conflict-IsWellMarked : IsWellMarked conflict
unfolding starts_with strip_line_ending bytes_eq
conflict-IsWellMarked = record {
  text_lines = (refl, tt);
  starts = refl;
  ours_lines = (record { no_end = refl; no_base = refl; no_separator = refl }, tt);
  bases = refl;
  base_no_end = refl;
  base_lines = (record { no_end = refl; no_base = refl; no_separator = refl }, tt);
  separates = refl;
  separator_no_end = refl;
  separator_no_base = refl;
  theirs_lines = tt;
  ends = refl;
}

abbrev diff3 : Bytes
diff3 = codes "a\n<<<<<<< HEAD\nb\n||||||| o\no\r\n=======\n>>>>>>> x\nd"

diff3-lines : split_keeping_line_endings diff3 ≡ file_lines (conflict ∷ []) (codes "d" ∷ [])
unfolding split_keeping_line_endings
diff3-lines = refl

tail-text : All (λ line. is_start line ≡ false) (codes "d" ∷ [])
unfolding starts_with strip_line_ending
tail-text = (refl, tt)

parse-well_marked_example : parse diff3 ≡ record {
  segments =
      text (codes "a\n" ∷ [])
      ∷ region (codes "b\n" ∷ []) [] (codes "o\r\n" ∷ []) true
      ∷ text (codes "d" ∷ [])
      ∷ [];
  region_count = 1;
  well_formed = true;
}
parse-well_marked_example =
    parse-well_marked diff3 (conflict ∷ []) (codes "d" ∷ []) diff3-lines (conflict-IsWellMarked, tt)
      tail-text
