-- ===== src/Diff/LineSelection/Sides.antt =====
-- src/core/git/UnifiedDiffParser.cpp: the lines that a selection patch counts on its two
-- sides, whatever their ends.
use git_branch_manager.Base.{
  ℕ, ◌+◌, Bool, true, false, ◌||◌, List, [], ◌∷◌, ◌++◌, append_assoc, ◌==◌, ◌≡◌, refl, arith,
  if◌then◌else◌, get_or,
}
use git_branch_manager.Base.Text.{Bytes}
use git_branch_manager.Diff.Types.{DiffLineKind, DiffLine}
use git_branch_manager.Diff.LineSelection.{EmittedLine, emit_line, emit_body}

-- The lines of a body marked ' ' and '-', which the header counts as old, and those marked ' ' and
-- '+'. Their ends are in Applied.
abbrev pub old_marked : List EmittedLine → List Bytes
old_marked [] = []
old_marked (e ∷ body) =
    (if e.marker == b' ' || e.marker == b'-' then e.text ∷ [] else []) ++ old_marked body

abbrev pub new_marked : List EmittedLine → List Bytes
new_marked [] = []
new_marked (e ∷ body) =
    (if e.marker == b' ' || e.marker == b'+' then e.text ∷ [] else []) ++ new_marked body

-- The lines of the hunk that stand in the old file.
abbrev pub old_text : DiffLineKind → Bytes → List Bytes
old_text DiffLineKind.context t = t ∷ []
old_text DiffLineKind.removed t = t ∷ []
old_text _ t = []

abbrev pub new_text : DiffLineKind → Bytes → List Bytes
new_text DiffLineKind.context t = t ∷ []
new_text DiffLineKind.added t = t ∷ []
new_text _ t = []

abbrev pub old_lines : List DiffLine → List Bytes
old_lines [] = []
old_lines (l ∷ ls) = old_text l.kind l.text ++ old_lines ls

abbrev pub new_lines : List DiffLine → List Bytes
new_lines [] = []
new_lines (l ∷ ls) = new_text l.kind l.text ++ new_lines ls

-- The file between the two sides: the old one with the selected changes made.
abbrev pub partial_text : DiffLineKind → Bool → Bytes → List Bytes
partial_text DiffLineKind.context chosen t = t ∷ []
partial_text DiffLineKind.added chosen t = if chosen then t ∷ [] else []
partial_text DiffLineKind.removed chosen t = if chosen then [] else t ∷ []
partial_text DiffLineKind.no_newline_marker chosen t = []

-- The selection is read from index `i`.
abbrev pub partial_lines : List Bool → ℕ → List DiffLine → List Bytes
partial_lines selected i [] = []
partial_lines selected i (l ∷ ls) =
    partial_text l.kind (get_or selected i false) l.text ++ partial_lines selected (i + 1) ls

-- A staged removal is undone, a staged addition taken out: the new file with the selected changes
-- taken back.
abbrev pub reverted_text : DiffLineKind → Bool → Bytes → List Bytes
reverted_text DiffLineKind.context chosen t = t ∷ []
reverted_text DiffLineKind.added chosen t = if chosen then [] else t ∷ []
reverted_text DiffLineKind.removed chosen t = if chosen then t ∷ [] else []
reverted_text DiffLineKind.no_newline_marker chosen t = []

abbrev pub reverted_lines : List Bool → ℕ → List DiffLine → List Bytes
reverted_lines selected i [] = []
reverted_lines selected i (l ∷ ls) =
    reverted_text l.kind (get_or selected i false) l.text ++ reverted_lines selected (i + 1) ls

old_marked-append : (a b : List EmittedLine) → old_marked (a ++ b) ≡ old_marked a ++ old_marked b
old_marked-append [] b = refl
old_marked-append (e ∷ a) b = simp (old_marked-append a b, append_assoc)

new_marked-append : (a b : List EmittedLine) → new_marked (a ++ b) ≡ new_marked a ++ new_marked b
new_marked-append [] b = refl
new_marked-append (e ∷ a) b = simp (new_marked-append a b, append_assoc)

-- One line, staging and unstaging.
staged :
    (k : DiffLineKind) (chosen previous : Bool) (l : DiffLine)
    → (old_marked (emit_line k false chosen previous l).0 ≡ old_text k l.text)
      × (new_marked (emit_line k false chosen previous l).0 ≡ partial_text k chosen l.text)
unfolding emit_line
staged DiffLineKind.context chosen previous l = ground arith
staged _ chosen previous l = ground arith

unstaged :
    (k : DiffLineKind) (chosen previous : Bool) (l : DiffLine)
    → (new_marked (emit_line k true chosen previous l).0 ≡ new_text k l.text)
      × (old_marked (emit_line k true chosen previous l).0 ≡ reverted_text k chosen l.text)
unfolding emit_line
unstaged DiffLineKind.context chosen previous l = ground arith
unstaged _ chosen previous l = ground arith

-- Staging: the lines counted as old are those of the old side of the hunk, and the lines counted as
-- new those with just the selected changes made.
pub staging_lines :
    (selected : List Bool) (i : ℕ) (previous : Bool) (lines : List DiffLine)
    → (old_marked (emit_body false selected i previous lines) ≡ old_lines lines)
      × (new_marked (emit_body false selected i previous lines) ≡ partial_lines selected i lines)
unfolding emit_body
staging_lines selected i previous [] = (refl, refl)
staging_lines selected i previous (l ∷ ls) =
    let chosen = get_or selected i false in
    let (es, previous') = emit_line l.kind false chosen previous l in
    let rest = staging_lines selected (i + 1) previous' ls in
    let here = staged l.kind chosen previous l in
    (rw (old_marked-append es, rest.0, here.0), rw (new_marked-append es, rest.1, here.1))

-- Unstaging: the lines counted as new are those of the new side of the hunk, and the lines counted
-- as old those with just the selected changes taken back.
pub unstaging_lines :
    (selected : List Bool) (i : ℕ) (previous : Bool) (lines : List DiffLine)
    → (new_marked (emit_body true selected i previous lines) ≡ new_lines lines)
      × (old_marked (emit_body true selected i previous lines) ≡ reverted_lines selected i lines)
unfolding emit_body
unstaging_lines selected i previous [] = (refl, refl)
unstaging_lines selected i previous (l ∷ ls) =
    let chosen = get_or selected i false in
    let (es, previous') = emit_line l.kind true chosen previous l in
    let rest = unstaging_lines selected (i + 1) previous' ls in
    let here = unstaged l.kind chosen previous l in
    (rw (new_marked-append es, rest.0, here.0), rw (old_marked-append es, rest.1, here.1))
