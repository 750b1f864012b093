-- ===== src/Diff/LineSelection/Whole.antt =====
-- src/core/git/UnifiedDiffParser.cpp: selecting every changed line of a hunk is the hunk.
use git_branch_manager.Base.{
  ℕ, ◌+◌, Bool, true, false, List, [], ◌∷◌, ◌++◌, append_assoc, append-nil, ◌≡◌, refl, get_or, ◌∙◌,
}
use git_branch_manager.Diff.LineSelection.Header.{is_change, selects_change, patch_of_body}
use git_branch_manager.Diff.LineSelection.{
  EmittedLine, emit_line, emit_body, count_marker, count_body, body_text,
  build_line_selection_patch,
}
use git_branch_manager.Diff.Patch.{
  count_kind, count_lines, patch_line, patch_lines, build_hunk_patch,
}
use git_branch_manager.Diff.Types.{DiffLineKind, DiffLine, DiffHunk, DiffFile}

-- Every added or removed line is selected, the selection read from index `i`.
abbrev pub SelectsAll : List Bool → ℕ → List DiffLine → Type 0
SelectsAll selected i [] = Unit
SelectsAll selected i (l ∷ ls) =
    (is_change l.kind ≡ true → get_or selected i false ≡ true) × SelectsAll selected (i + 1) ls

abbrev is_marker : DiffLineKind → Bool
is_marker DiffLineKind.no_newline_marker = true
is_marker _ = false

-- A marker stands first: it would annotate no line.
abbrev pub leads_with_marker : List DiffLine → Bool
leads_with_marker [] = false
leads_with_marker (l ∷ ls) = is_marker l.kind

body_text-append : (a b : List EmittedLine) → body_text (a ++ b) ≡ body_text a ++ body_text b
unfolding body_text
body_text-append [] b = refl
body_text-append (e ∷ a) b = simp (body_text-append a b, append_assoc)

count_body-append :
    (a b : List EmittedLine) (c : ℕ × ℕ) → count_body c (a ++ b) ≡ count_body (count_body c a) b
unfolding count_body
count_body-append [] b c = refl
count_body-append (e ∷ a) b c = count_body-append a b (count_marker e.marker c)

-- A line that is emitted as it stands in the hunk.
record AsInHunk (k : DiffLineKind) (r : List EmittedLine × Bool) (l : DiffLine) : Type 0 where
  text_is : body_text r.0 ≡ patch_line false k l.text
  counts_are : (c : ℕ × ℕ) → count_body c r.0 ≡ count_kind k c
  emitted : r.1 ≡ true

emit_line-AsInHunk :
    (k : DiffLineKind) (unstaging chosen previous : Bool) (l : DiffLine)
    → (is_change k ≡ true → chosen ≡ true)
    → (is_marker k ≡ true → previous ≡ true)
    → AsInHunk k (emit_line k unstaging chosen previous l) l
unfolding emit_line body_text patch_line count_body count_kind
emit_line-AsInHunk DiffLineKind.context unstaging chosen previous l h m = record {
  text_is = append-nil _;
  counts_are = λ c. refl;
  emitted = refl;
}
emit_line-AsInHunk DiffLineKind.added unstaging chosen previous l h m =
    rw (h refl) (record { text_is = append-nil _; counts_are = λ c. refl; emitted = refl })
emit_line-AsInHunk DiffLineKind.removed unstaging chosen previous l h m =
    rw (h refl) (record { text_is = append-nil _; counts_are = λ c. refl; emitted = refl })
emit_line-AsInHunk DiffLineKind.no_newline_marker unstaging chosen previous l h m =
    rw (m refl) (record { text_is = append-nil _; counts_are = λ c. refl; emitted = refl })

module _ (unstaging : Bool) (selected : List Bool) where
  record AllAsInHunk (body : List EmittedLine) (ls : List DiffLine) : Type 0 where
    text_is : body_text body ≡ patch_lines false ls
    counts_are : (c : ℕ × ℕ) → count_body c body ≡ count_lines c ls

  emit_body-AllAsInHunk :
      (i : ℕ) (previous : Bool) (ls : List DiffLine)
      → SelectsAll selected i ls
      → (leads_with_marker ls ≡ true → previous ≡ true)
      → AllAsInHunk (emit_body unstaging selected i previous ls) ls
  unfolding emit_body patch_lines count_lines
  emit_body-AllAsInHunk i previous [] h m =
      unfold body_text count_body in record { text_is = refl; counts_are = λ c. refl }
  emit_body-AllAsInHunk i previous (l ∷ ls) h m =
      let chosen = get_or selected i false in
      let step = emit_line l.kind unstaging chosen previous l in
      let here = emit_line-AsInHunk l.kind unstaging chosen previous l h.0 m in
      let rest = emit_body-AllAsInHunk (i + 1) step.1 ls h.1 (λ _. here.emitted) in
      record {
        text_is =
            body_text-append step.0 (emit_body unstaging selected (i + 1) step.1 ls)
            ∙ rw (here.text_is, rest.text_is);
        counts_are = λ c.
            count_body-append step.0 (emit_body unstaging selected (i + 1) step.1 ls) c
            ∙ rw (here.counts_are c) (rest.counts_are (count_kind l.kind c));
      }

-- Selecting every added and removed line of a hunk that has one gives the patch of the whole
-- hunk, for staging and for unstaging, if the hunk does not begin with a no-newline marker.
pub selection_patch_whole :
    (file : DiffFile) (hunk : DiffHunk) (selected : List Bool) (unstaging : Bool)
    → SelectsAll selected 0 hunk.lines
    → selects_change selected 0 hunk.lines ≡ true
    → leads_with_marker hunk.lines ≡ false
    → build_line_selection_patch file hunk selected unstaging
      ≡ build_hunk_patch file hunk false unstaging
selection_patch_whole file hunk selected unstaging all some first =
    let whole = emit_body-AllAsInHunk unstaging selected 0 false hunk.lines all (λ e. cc) in
    patch_of_body file hunk selected unstaging some
    ∙ rw (whole.text_is, whole.counts_are (0, 0)) (unfold build_hunk_patch in refl)
