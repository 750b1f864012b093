-- ===== src/Diff/LineSelection/Applied.antt =====
-- src/core/git/UnifiedDiffParser.cpp: what `git apply` makes of a selection patch, byte by byte.
use git_branch_manager.Base.{
  ℕ, ◌+◌, Bool, true, false, not, ◌&&◌, ◌||◌, List, [], ◌∷◌, ◌++◌, ◌==◌, ◌≡◌, refl, arith, ap, ◌∙◌,
  if◌then◌else◌, get_or,
}
use git_branch_manager.Base.Text.{Bytes}
use git_branch_manager.Diff.LineSelection.{EmittedLine, emit_line, emit_body}
use git_branch_manager.Diff.Patch.{newline}
use git_branch_manager.Diff.Types.{DiffLineKind, DiffLine}

-- A line of a side: with its newline, unless it lacks one; nothing of a line of the other side.
abbrev pub line_text : Bool → Bool → Bytes → Bytes
line_text in_side lacks text = if in_side then (if lacks then text else text ++ newline) else []

-- A marker "\ No newline at end of file" takes the newline of the line before it.
abbrev pub marker_next : List EmittedLine → Bool
marker_next [] = false
marker_next (e ∷ body) = e.marker == b'\\'

-- `git apply` reads the text to be replaced off the lines marked ' ' and '-', and the text that
-- replaces it off those marked ' ' and '+'.
abbrev pub pre_image : List EmittedLine → Bytes
pre_image [] = []
pre_image (e ∷ body) =
    line_text (e.marker == b' ' || e.marker == b'-') (marker_next body) e.text ++ pre_image body

abbrev pub post_image : List EmittedLine → Bytes
post_image [] = []
post_image (e ∷ body) =
    line_text (e.marker == b' ' || e.marker == b'+') (marker_next body) e.text ++ post_image body

abbrev pub is_marker : DiffLineKind → Bool
is_marker DiffLineKind.no_newline_marker = true
is_marker _ = false

-- A line of the hunk lacks its newline if a marker follows it.
abbrev pub lacks_newline : List DiffLine → Bool
lacks_newline [] = false
lacks_newline (l ∷ ls) = is_marker l.kind

-- The part of a file that a hunk shows: of its lines those that the test keeps, each with its own
-- ending. The test is given whether the line is selected, read from index `i`.
abbrev pub content : (DiffLineKind → Bool → Bool) → List Bool → ℕ → List DiffLine → Bytes
content keeps selected i [] = []
content keeps selected i (l ∷ ls) =
    line_text (keeps l.kind (get_or selected i false)) (lacks_newline ls) l.text
    ++ content keeps selected (i + 1) ls

abbrev pub in_old : DiffLineKind → Bool → Bool
in_old DiffLineKind.context chosen = true
in_old DiffLineKind.removed chosen = true
in_old _ chosen = false

abbrev pub in_new : DiffLineKind → Bool → Bool
in_new DiffLineKind.context chosen = true
in_new DiffLineKind.added chosen = true
in_new _ chosen = false

-- The old file with the selected changes made.
abbrev pub in_partial : DiffLineKind → Bool → Bool
in_partial DiffLineKind.context chosen = true
in_partial DiffLineKind.added chosen = chosen
in_partial DiffLineKind.removed chosen = not chosen
in_partial DiffLineKind.no_newline_marker chosen = false

-- The new file with the selected changes taken back.
abbrev pub in_reverted : DiffLineKind → Bool → Bool
in_reverted DiffLineKind.context chosen = true
in_reverted DiffLineKind.added chosen = not chosen
in_reverted DiffLineKind.removed chosen = chosen
in_reverted DiffLineKind.no_newline_marker chosen = false

-- A marker comes next exactly if one comes next in the hunk and the line before it was emitted.
emit_line-marker_next :
    (k : DiffLineKind) (unstaging chosen previous lacks : Bool) (l : DiffLine)
    (rest : List EmittedLine)
    → marker_next rest ≡ ((emit_line k unstaging chosen previous l).1 && lacks)
    → marker_next ((emit_line k unstaging chosen previous l).0 ++ rest) ≡ (previous && is_marker k)
unfolding emit_line
emit_line-marker_next DiffLineKind.context unstaging chosen previous lacks l rest h = ground arith
emit_line-marker_next _ unstaging chosen previous lacks l rest h = ground arith

emit_body-marker_next :
    (unstaging : Bool) (selected : List Bool) (i : ℕ) (previous : Bool) (lines : List DiffLine)
    → marker_next (emit_body unstaging selected i previous lines)
      ≡ (previous && lacks_newline lines)
unfolding emit_body
emit_body-marker_next unstaging selected i previous [] = ground arith
emit_body-marker_next unstaging selected i previous (l ∷ ls) =
    let chosen = get_or selected i false in
    let (es, previous') = emit_line l.kind unstaging chosen previous l in
    emit_line-marker_next l.kind unstaging chosen previous (lacks_newline ls) l
      (emit_body unstaging selected (i + 1) previous' ls)
      (emit_body-marker_next unstaging selected (i + 1) previous' ls)

-- One line, staging and unstaging.
staged :
    (k : DiffLineKind) (chosen previous lacks : Bool) (l : DiffLine) (rest : List EmittedLine)
    → marker_next rest ≡ ((emit_line k false chosen previous l).1 && lacks)
    → (pre_image ((emit_line k false chosen previous l).0 ++ rest)
        ≡ line_text (in_old k chosen) lacks l.text ++ pre_image rest)
      × (post_image ((emit_line k false chosen previous l).0 ++ rest)
          ≡ line_text (in_partial k chosen) lacks l.text ++ post_image rest)
unfolding emit_line
staged DiffLineKind.context chosen previous lacks l rest h = ground arith
staged _ chosen previous lacks l rest h = ground arith

unstaged :
    (k : DiffLineKind) (chosen previous lacks : Bool) (l : DiffLine) (rest : List EmittedLine)
    → marker_next rest ≡ ((emit_line k true chosen previous l).1 && lacks)
    → (post_image ((emit_line k true chosen previous l).0 ++ rest)
        ≡ line_text (in_new k chosen) lacks l.text ++ post_image rest)
      × (pre_image ((emit_line k true chosen previous l).0 ++ rest)
          ≡ line_text (in_reverted k chosen) lacks l.text ++ pre_image rest)
unfolding emit_line
unstaged DiffLineKind.context chosen previous lacks l rest h = ground arith
unstaged _ chosen previous lacks l rest h = ground arith

-- Staging: for every selection the text that `git apply` replaces is the old side of the hunk,
-- which is what the index holds, and the text that it writes is that of the lines of the old side
-- with just the selected changes made. Each line keeps the ending that it has in the hunk, so a line
-- without a newline runs together with a kept line behind it.
pub emit_body_staging :
    (selected : List Bool) (i : ℕ) (previous : Bool) (lines : List DiffLine)
    → (pre_image (emit_body false selected i previous lines) ≡ content in_old selected i lines)
      × (post_image (emit_body false selected i previous lines)
          ≡ content in_partial selected i lines)
unfolding emit_body
emit_body_staging selected i previous [] = (refl, refl)
emit_body_staging selected i previous (l ∷ ls) =
    let chosen = get_or selected i false in
    let (es, previous') = emit_line l.kind false chosen previous l in
    let rest = emit_body_staging selected (i + 1) previous' ls in
    let next = emit_body-marker_next false selected (i + 1) previous' ls in
    let here = staged l.kind chosen previous (lacks_newline ls) l _ next in
    (
      here.0 ∙ ap (λ t. line_text (in_old l.kind chosen) (lacks_newline ls) l.text ++ t) rest.0,
      here.1 ∙ ap (λ t. line_text (in_partial l.kind chosen) (lacks_newline ls) l.text ++ t) rest.1,
    )

-- Unstaging: for every selection the text that `git apply --reverse` replaces is the new side of the
-- hunk, and the text that it writes is that of the lines of the new side with just the selected
-- changes taken back. Each line keeps the ending that it has in the hunk, so a line without a
-- newline runs together with a kept line behind it.
pub emit_body_unstaging :
    (selected : List Bool) (i : ℕ) (previous : Bool) (lines : List DiffLine)
    → (post_image (emit_body true selected i previous lines) ≡ content in_new selected i lines)
      × (pre_image (emit_body true selected i previous lines)
          ≡ content in_reverted selected i lines)
unfolding emit_body
emit_body_unstaging selected i previous [] = (refl, refl)
emit_body_unstaging selected i previous (l ∷ ls) =
    let chosen = get_or selected i false in
    let (es, previous') = emit_line l.kind true chosen previous l in
    let rest = emit_body_unstaging selected (i + 1) previous' ls in
    let next = emit_body-marker_next true selected (i + 1) previous' ls in
    let here = unstaged l.kind chosen previous (lacks_newline ls) l _ next in
    (
      here.0 ∙ ap (λ t. line_text (in_new l.kind chosen) (lacks_newline ls) l.text ++ t) rest.0,
      here.1
          ∙ ap (λ t. line_text (in_reverted l.kind chosen) (lacks_newline ls) l.text ++ t) rest.1,
    )
