-- ===== src/Diff/LineSelection.antt =====
-- src/core/git/UnifiedDiffParser.cpp: `buildLineSelectionPatch`. A marker is the byte that the
-- source stores in `EmittedLine::marker`.
pub mod Sides
pub mod Applied
pub mod Header
pub mod Whole
use git_branch_manager.Base.{
  ℕ, ◌+◌, Bool, true, false, ◌||◌, List, [], ◌∷◌, ◌++◌, ◌==◌, if◌then◌else◌, get_or,
}
use git_branch_manager.Base.Text.{Bytes}
use git_branch_manager.Diff.Patch.{
  newline, patch_header, patch_old_path, patch_new_path, increment, hunk_header, no_newline_text,
}
use git_branch_manager.Diff.Types.{DiffLineKind, DiffLine, DiffHunk, DiffFile}

pub record EmittedLine : Type 0 where
  pub marker : ℕ
  pub text : Bytes

abbrev pub emit : ℕ → DiffLine → List EmittedLine
emit marker line = record { marker = marker; text = line.text } ∷ []

-- What one line of the hunk pushes onto `body`, and `previousLineEmitted` behind it.
unfoldable pub emit_line : DiffLineKind → Bool → Bool → Bool → DiffLine → List EmittedLine × Bool
emit_line DiffLineKind.context unstaging is_selected previous line = (emit b' ' line, true)
emit_line DiffLineKind.added unstaging is_selected previous line =
    if is_selected
    then (emit b'+' line, true)
    else if unstaging
    then (emit b' ' line, true)
    else ([], false)
emit_line DiffLineKind.removed unstaging is_selected previous line =
    if is_selected
    then (emit b'-' line, true)
    else if unstaging
    then ([], false)
    else (emit b' ' line, true)
emit_line DiffLineKind.no_newline_marker unstaging is_selected previous line =
    (if previous then emit b'\\' line else [], previous)

-- The loop over `hunk.lines` from index `i`: the rest of `body`.
unfoldable pub emit_body : Bool → List Bool → ℕ → Bool → List DiffLine → List EmittedLine
unfolding emit_line
emit_body unstaging selected i previous [] = []
emit_body unstaging selected i previous (line ∷ lines) =
    let (emitted, previous') =
      emit_line line.kind unstaging (get_or selected i false) previous line in
    emitted ++ emit_body unstaging selected (i + 1) previous' lines

unfoldable pub changes_something : List EmittedLine → Bool
changes_something [] = false
changes_something (e ∷ body) = (e.marker == b'+' || e.marker == b'-') || changes_something body

unfoldable pub count_marker : ℕ → ℕ × ℕ → ℕ × ℕ
count_marker marker (o, n) =
    if marker == b' '
    then (increment o, increment n)
    else if marker == b'+'
    then (o, increment n)
    else if marker == b'-'
    then (increment o, n)
    else (o, n)

unfoldable pub count_body : ℕ × ℕ → List EmittedLine → ℕ × ℕ
unfolding count_marker
count_body counts [] = counts
count_body counts (e ∷ body) = count_body (count_marker e.marker counts) body

unfoldable pub body_text : List EmittedLine → Bytes
body_text [] = []
body_text (e ∷ body) =
    (if e.marker == b'\\' then no_newline_text else e.marker ∷ (e.text ++ newline))
    ++ body_text body

unfoldable pub build_line_selection_patch : DiffFile → DiffHunk → List Bool → Bool → Bytes
unfolding emit_body changes_something count_body body_text patch_header patch_old_path
    patch_new_path hunk_header
build_line_selection_patch file hunk selected unstaging =
    let body = emit_body unstaging selected 0 false hunk.lines in
    let (old_count, new_count) = count_body (0, 0) body in
    if changes_something body
    then patch_header file (patch_old_path file) (patch_new_path file) unstaging
      ++ (hunk_header hunk.old_start old_count hunk.new_start new_count ++ body_text body)
    else []
