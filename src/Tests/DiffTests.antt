-- ===== src/Tests/DiffTests.antt =====
-- src/core/git: a diff read, paired, and turned into patches.
use git_branch_manager.Base.{true, false, Bool, List, [], ◌∷◌, ◌++◌, ◌≡◌, refl, All}
use git_branch_manager.Base.Text.{Bytes, codes, starts_with}
use git_branch_manager.Diff.Parser.{
  Options, Parser, initial, set_paths, open_file, set_blobs, extended_header, open_hunk, body_line,
  hunk_line, parse_line, parse_lines, parse,
}
use git_branch_manager.Diff.Paths.{unquote_path, strip_path_prefix}
use git_branch_manager.Diff.Range.{old_range, new_range}
use git_branch_manager.Diff.Scan.{split_first, split_last, drop_spaces, parse_uint, split_lines}
use git_branch_manager.Diff.Types.{DiffLineKind, DiffHunk, FileChangeKind, DiffFile}
use git_branch_manager.Diff.LineSelection.Header.{
  selection_patch_staging, selection_patch_unstaging,
}
use git_branch_manager.Diff.LineSelection.Applied.{
  pre_image, post_image, content, in_old, in_new, in_partial, in_reverted, emit_body_staging,
  emit_body_unstaging,
}
use git_branch_manager.Diff.LineSelection.Whole.{selection_patch_whole}
use git_branch_manager.Diff.LineSelection.{emit_body, body_text, build_line_selection_patch}
use git_branch_manager.Diff.Parser.Dashes.{hunks_of, dashes_lost}
use git_branch_manager.Diff.Parser.Valid.{parse-IsNumbered}
use git_branch_manager.Diff.Parser.Writes.{FileIsNumbered}
use git_branch_manager.Diff.Patch.{
  patch_header, patch_old_path, patch_new_path, hunk_header, build_hunk_patch,
}
use git_branch_manager.Diff.SideBySide.Columns.{
  lefts, rights, old_side, new_side, pair_hunk_columns,
}
use git_branch_manager.Diff.SideBySide.{pair_hunk_for_side_by_side}

abbrev options : Options
options = record { max_bytes = 2_097_152; max_line_length = 8192 }

abbrev text : Bytes
text =
    codes
      "diff --git a/x.c b/x.c\nindex 12ab..34cd 100644\n--- a/x.c\n+++ b/x.c\n@@ -3,2 +3,3 @@ int f\n a\r\n-b\n+c\n+d\n\\ No newline at end of file\n"

abbrev hunk : DiffHunk
hunk = record {
  old_start = 3;
  old_count = 2;
  new_start = 3;
  new_count = 3;
  heading = codes "int f";
  lines =
      record { kind = DiffLineKind.context; old_line = 3; new_line = 3; text = codes "a" }
      ∷ record { kind = DiffLineKind.removed; old_line = 4; new_line = 0; text = codes "b" }
      ∷ record { kind = DiffLineKind.added; old_line = 0; new_line = 4; text = codes "c" }
      ∷ record { kind = DiffLineKind.added; old_line = 0; new_line = 5; text = codes "d" }
      ∷ record {
        kind = DiffLineKind.no_newline_marker;
        old_line = 0;
        new_line = 0;
        text = codes "\\ No newline at end of file";
      }
      ∷ [];
}

abbrev file : DiffFile
file = record {
  old_path = codes "x.c";
  new_path = codes "x.c";
  kind = FileChangeKind.modified;
  old_mode = [];
  new_mode = codes "100644";
  old_blob = codes "12ab";
  new_blob = codes "34cd";
  binary = false;
  similarity = 0;
  hunks = hunk ∷ [];
  added_lines = 2;
  removed_lines = 1;
}

parse-text : (parse options text).files ≡ file ∷ []
unfolding parse parse_lines parse_line open_file set_paths set_blobs extended_header open_hunk
    body_line hunk_line starts_with unquote_path strip_path_prefix old_range new_range split_first
    split_last drop_spaces parse_uint split_lines
parse-text = refl

patch_text :
    build_line_selection_patch file hunk (false ∷ false ∷ true ∷ []) false
    ≡ codes "diff --git a/x.c b/x.c\n--- a/x.c\n+++ b/x.c\n@@ -3,2 +3,3 @@\n a\n b\n+c\n"
unfolding build_line_selection_patch
patch_text = refl

-- The last line loses its removal, keeps its marker, and a line follows.
abbrev last_lines : DiffHunk
last_lines = record {
  old_start = 1;
  old_count = 1;
  new_start = 1;
  new_count = 1;
  heading = [];
  lines =
      record { kind = DiffLineKind.removed; old_line = 1; new_line = 0; text = codes "b" }
      ∷ record {
        kind = DiffLineKind.no_newline_marker;
        old_line = 0;
        new_line = 0;
        text = codes "\\ No newline at end of file";
      }
      ∷ record { kind = DiffLineKind.added; old_line = 0; new_line = 1; text = codes "c" }
      ∷ [];
}

last_lines-patch :
    build_line_selection_patch file last_lines (false ∷ false ∷ true ∷ []) false
    ≡ codes
        "diff --git a/x.c b/x.c\n--- a/x.c\n+++ b/x.c\n@@ -1,1 +1,2 @@\n b\n\\ No newline at end of file\n+c\n"
unfolding build_line_selection_patch
last_lines-patch = refl

parse-IsNumbered_example : All FileIsNumbered (parse options text).files
parse-IsNumbered_example = parse-IsNumbered options text

-- Inside the file, behind its last hunk.
abbrev behind : Parser
behind = record initial { files = file ∷ []; has_file = true }

dashes_lost_example :
    (hunks_of (parse_line options behind (codes "--- b")).files ≡ hunks_of (file ∷ []))
    × (hunks_of (parse_line options behind (codes "+++ b")).files ≡ hunks_of (file ∷ []))
dashes_lost_example = dashes_lost options behind (codes "b") refl

pair_hunk_columns_example :
    (lefts (pair_hunk_for_side_by_side hunk) ≡ old_side DiffLineKind.context hunk.lines)
    × (rights (pair_hunk_for_side_by_side hunk) ≡ new_side DiffLineKind.context hunk.lines)
pair_hunk_columns_example = pair_hunk_columns hunk

abbrev selection : List Bool
selection = false ∷ false ∷ true ∷ []

abbrev whole : List Bool
whole = true ∷ true ∷ true ∷ true ∷ true ∷ []

emit_body_staging_example :
    (pre_image (emit_body false selection 0 false last_lines.lines)
      ≡ content in_old selection 0 last_lines.lines)
    × (post_image (emit_body false selection 0 false last_lines.lines)
        ≡ content in_partial selection 0 last_lines.lines)
emit_body_staging_example = emit_body_staging selection 0 false last_lines.lines

emit_body_unstaging_example :
    (post_image (emit_body true whole 0 false hunk.lines) ≡ content in_new whole 0 hunk.lines)
    × (pre_image (emit_body true whole 0 false hunk.lines) ≡ content in_reverted whole 0 hunk.lines)
emit_body_unstaging_example = emit_body_unstaging whole 0 false hunk.lines

-- The added line runs together with the last line, which keeps its marker; unstaging likewise.
staged-joined : post_image (emit_body false selection 0 false last_lines.lines) ≡ codes "bc\n"
unfolding emit_body
staged-joined = refl

unstaged-joined : pre_image (emit_body true (true ∷ []) 0 false last_lines.lines) ≡ codes "bc\n"
unfolding emit_body
unstaged-joined = refl

-- The last line of the new side has no newline.
content-ended : content in_new whole 0 hunk.lines ≡ codes "a\nc\nd"
content-ended = refl

selection_patch_staging_example :
    build_line_selection_patch file hunk selection false
    ≡ patch_header file (patch_old_path file) (patch_new_path file) false
      ++ (hunk_header 3 2 3 3 ++ body_text (emit_body false selection 0 false hunk.lines))
selection_patch_staging_example = selection_patch_staging file hunk selection refl

selection_patch_unstaging_example :
    build_line_selection_patch file hunk selection true
    ≡ patch_header file (patch_old_path file) (patch_new_path file) true
      ++ (hunk_header 3 2 3 3 ++ body_text (emit_body true selection 0 false hunk.lines))
selection_patch_unstaging_example = selection_patch_unstaging file hunk selection refl

selection_patch_whole_example :
    build_line_selection_patch file hunk whole true ≡ build_hunk_patch file hunk false true
selection_patch_whole_example =
    selection_patch_whole file hunk whole true
      (λ e. refl, (λ e. refl, (λ e. refl, (λ e. refl, (λ e. refl, tt))))) refl refl
