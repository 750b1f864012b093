-- ===== src/Diff/LineSelection/Header.antt =====
-- src/core/git/UnifiedDiffParser.cpp: when a selection patch is empty, and its hunk header.
use git_branch_manager.Base.{
  ℕ, ◌+◌, ◌%◌, ◌^◌, ◌<◌, Bool, true, false, ◌||◌, List, [], ◌∷◌, ◌++◌, ◌≡◌, ◌↔◌, refl, arith,
  if◌then◌else◌, get_or, length, ◌∙◌,
}
use git_branch_manager.Diff.LineSelection.Sides.{
  old_marked, new_marked, old_lines, new_lines, partial_lines, reverted_lines, staging_lines,
  unstaging_lines,
}
use git_branch_manager.Diff.LineSelection.{
  EmittedLine, emit_line, emit_body, changes_something, count_marker, count_body, body_text,
  build_line_selection_patch,
}
use git_branch_manager.Diff.Patch.{patch_header, patch_old_path, patch_new_path, hunk_header}
use git_branch_manager.Diff.Types.{DiffLineKind, DiffLine, DiffHunk, DiffFile}

abbrev pub is_change : DiffLineKind → Bool
is_change DiffLineKind.added = true
is_change DiffLineKind.removed = true
is_change _ = false

-- An added or removed line is selected, the selection read from index `i`.
abbrev pub selects_change : List Bool → ℕ → List DiffLine → Bool
selects_change selected i [] = false
selects_change selected i (l ∷ ls) =
    (if is_change l.kind then get_or selected i false else false)
    || selects_change selected (i + 1) ls

changes-append :
    (a b : List EmittedLine)
    → changes_something (a ++ b) ≡ (changes_something a || changes_something b)
unfolding changes_something
changes-append [] b = refl
changes-append (e ∷ a) b = ground (arith, changes-append a b)

changes-emit_line :
    (k : DiffLineKind) (unstaging chosen previous : Bool) (l : DiffLine)
    → changes_something (emit_line k unstaging chosen previous l).0
      ≡ (if is_change k then chosen else false)
unfolding emit_line changes_something
changes-emit_line DiffLineKind.context unstaging chosen previous l = ground arith
changes-emit_line _ unstaging chosen previous l = ground arith

pub changes-emit_body :
    (unstaging : Bool) (selected : List Bool) (i : ℕ) (previous : Bool) (lines : List DiffLine)
    → changes_something (emit_body unstaging selected i previous lines)
      ≡ selects_change selected i lines
unfolding emit_body
changes-emit_body unstaging selected i previous [] = unfold changes_something in refl
changes-emit_body unstaging selected i previous (l ∷ ls) =
    let chosen = get_or selected i false in
    let (es, previous') = emit_line l.kind unstaging chosen previous l in
    changes-append es (emit_body unstaging selected (i + 1) previous' ls)
    ∙ rw (
      changes-emit_line l.kind unstaging chosen previous l,
      changes-emit_body unstaging selected (i + 1) previous' ls,
    )

-- The counts are the numbers of lines on the two sides of the body, as `uint32_t`.
count_marker-lt :
    (marker o n : ℕ)
    → o < 2 ^ 32
    → n < 2 ^ 32
    → ((count_marker marker (o, n)).0 < 2 ^ 32) × ((count_marker marker (o, n)).1 < 2 ^ 32)
unfolding count_marker
count_marker-lt marker o n ho hn = ground arith

count_body-length :
    (body : List EmittedLine) (o n : ℕ)
    → o < 2 ^ 32
    → n < 2 ^ 32
    → ((count_body (o, n) body).0 ≡ (o + length (old_marked body)) % 2 ^ 32)
      × ((count_body (o, n) body).1 ≡ (n + length (new_marked body)) % 2 ^ 32)
unfolding count_body count_marker
count_body-length [] o n ho hn = (omega arith, omega arith)
count_body-length (e ∷ body) o n ho hn =
    let next = count_marker e.marker (o, n) in
    let small = count_marker-lt e.marker o n ho hn in
    ground (arith, count_body-length body next.0 next.1 small.0 small.1)

-- The patch is empty exactly if no added or removed line is selected, in both directions; a
-- selection of other lines alone, or of none, asks for nothing.
selection_patch_empty :
    (file : DiffFile) (hunk : DiffHunk) (selected : List Bool) (unstaging : Bool)
    → (build_line_selection_patch file hunk selected unstaging ≡ [])
      ↔ (selects_change selected 0 hunk.lines ≡ false)
unfolding build_line_selection_patch
selection_patch_empty file hunk selected unstaging =
    ground (arith, changes-emit_body unstaging selected 0 false hunk.lines)

counts_of :
    (body : List EmittedLine)
    → ((count_body (0, 0) body).0 ≡ length (old_marked body) % 2 ^ 32)
      × ((count_body (0, 0) body).1 ≡ length (new_marked body) % 2 ^ 32)
counts_of body = omega (arith, count_body-length body 0 0 (omega arith) (omega arith))

pub patch_of_body :
    (file : DiffFile) (hunk : DiffHunk) (selected : List Bool) (unstaging : Bool)
    → selects_change selected 0 hunk.lines ≡ true
    → let body = emit_body unstaging selected 0 false hunk.lines in
      build_line_selection_patch file hunk selected unstaging
      ≡ patch_header file (patch_old_path file) (patch_new_path file) unstaging
        ++ (hunk_header hunk.old_start
              (count_body (0, 0) body).0
              hunk.new_start
              (count_body (0, 0) body).1
            ++ body_text body)
unfolding build_line_selection_patch
patch_of_body file hunk selected unstaging some =
    rw (changes-emit_body unstaging selected 0 false hunk.lines, some, build_line_selection_patch)

-- Where a change is selected, the patch for staging is the file header, a hunk header with the
-- hunk's starts, the number of lines on the old side of the hunk and of lines that the selection
-- leaves in the new file, and the body; the starts are not adjusted.
pub selection_patch_staging :
    (file : DiffFile) (hunk : DiffHunk) (selected : List Bool)
    → selects_change selected 0 hunk.lines ≡ true
    → build_line_selection_patch file hunk selected false
      ≡ patch_header file (patch_old_path file) (patch_new_path file) false
        ++ (hunk_header hunk.old_start
              (length (old_lines hunk.lines) % 2 ^ 32)
              hunk.new_start
              (length (partial_lines selected 0 hunk.lines) % 2 ^ 32)
            ++ body_text (emit_body false selected 0 false hunk.lines))
selection_patch_staging file hunk selected some =
    let counts = counts_of (emit_body false selected 0 false hunk.lines) in
    let sides = staging_lines selected 0 false hunk.lines in
    rw (patch_of_body file hunk selected false some, counts.0, counts.1, sides.0, sides.1)

-- Where a change is selected, the patch for unstaging is the file header, a hunk header with the
-- hunk's starts, the number of lines that the selection leaves on the old side and of lines on
-- the new side of the hunk, and the body.
pub selection_patch_unstaging :
    (file : DiffFile) (hunk : DiffHunk) (selected : List Bool)
    → selects_change selected 0 hunk.lines ≡ true
    → build_line_selection_patch file hunk selected true
      ≡ patch_header file (patch_old_path file) (patch_new_path file) true
        ++ (hunk_header hunk.old_start
              (length (reverted_lines selected 0 hunk.lines) % 2 ^ 32)
              hunk.new_start
              (length (new_lines hunk.lines) % 2 ^ 32)
            ++ body_text (emit_body true selected 0 false hunk.lines))
selection_patch_unstaging file hunk selected some =
    let counts = counts_of (emit_body true selected 0 false hunk.lines) in
    let sides = unstaging_lines selected 0 false hunk.lines in
    rw (patch_of_body file hunk selected true some, counts.0, counts.1, sides.0, sides.1)
